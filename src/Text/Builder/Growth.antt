-- ===== src/Text/Builder/Growth.antt =====
-- The memory of `struct psi_vm_text_builder`.
use psi_code.Prelude.{
  size_max, ℕ, zero, suc, ◌+◌, ◌*◌, ◌≤◌, ◌<◌, ◌≡◌, refl, sym, append-nil, ◌⊎◌, true, false, Option,
  none, some, Option-cases, [], ◌∷◌, ◌++◌, arith, Bytes, length, length-append, ◌==◌, Bool-cases,
  inl, inr,
}
use psi_code.Text.Builder.{Builder, grow, needed_for, next_cap_for, reserve, append}

-- The loop ends with at least what is needed, and no `size_t` overflows in it.
pub grow-le :
    (fuel next_cap needed : ℕ)
    → 1 ≤ next_cap
    → needed ≤ next_cap + fuel
    → needed ≤ size_max
    → next_cap ≤ size_max
    → (needed ≤ grow fuel next_cap needed) × (grow fuel next_cap needed ≤ size_max)
unfolding grow
grow-le zero next_cap needed p f n c = (omega arith, omega arith)
grow-le (suc fuel) next_cap needed p f n c = ground (arith, grow-le fuel (next_cap * 2) needed)

-- The text and its NUL stand in the memory, if there is any.
abbrev pub IsSound : Builder → Type 0
IsSound b =
    (b.cap ≤ size_max) × (length b.text ≤ b.cap) × (1 ≤ length b.text → length b.text + 1 ≤ b.cap)

abbrev Holds : Builder → ℕ → Builder → Type 0
Holds b extra b2 = (b2.text ≡ b.text) × (length b.text + extra + 1 ≤ b2.cap) × (b2.cap ≤ size_max)

needed_for-sum :
    (b : Builder) (extra : ℕ)
    → length b.text + extra < size_max
    → needed_for b extra ≡ length b.text + extra + 1
needed_for-sum b extra h = omega arith

next_cap_for-le :
    (b : Builder) (extra : ℕ)
    → b.cap ≤ size_max
    → length b.text + extra < size_max
    → (length b.text + extra + 1 ≤ next_cap_for b extra) × (next_cap_for b extra ≤ size_max)
unfolding next_cap_for
next_cap_for-le b extra s h =
    let needed = needed_for b extra in
    let sum = needed_for-sum b extra h in
    elim (Bool-cases (b.cap == 0)) [
      | inl e ↦ rw (e, next_cap_for) (ground (arith, grow-le needed 64 needed))
      | inr e ↦ rw (e, next_cap_for) (ground (arith, grow-le needed b.cap needed))
    ]

-- Memory that was reserved is enough, on every path, as long as the sum is below `(size_t)-1`.
reserve-Holds :
    (b b2 : Builder) (extra : ℕ)
    → b.cap ≤ size_max
    → length b.text + extra < size_max
    → reserve b extra ≡ some b2
    → Holds b extra b2
unfolding reserve
reserve-Holds b b2 extra s h e =
    let sum = needed_for-sum b extra h in
    let (enough, most) = next_cap_for-le b extra s h in ground arith

-- When a buffer has memory and its text and the extra bytes are (size_t)-1 together, the sum with
-- the NUL wraps around and reserve returns the buffer as it is.
reserve-wraps :
    (b : Builder) (extra : ℕ)
    → 1 ≤ b.cap
    → length b.text + extra ≡ size_max
    → reserve b extra ≡ some b
unfolding reserve
reserve-wraps b extra c h = ground arith

append-some :
    (b b3 : Builder) (x : ℕ) (xs : Bytes)
    → reserve b (length (x ∷ xs)) ≡ some b3
    → append b (x ∷ xs) ≡ some (record b3 { text = b3.text ++ x ∷ xs })
unfolding append
append-some b b3 x xs f =
    let some_bytes : (length (x ∷ xs) == 0) ≡ false = ground arith in
    rw (some_bytes, f, append) refl

append-refused :
    (b : Builder) (x : ℕ) (xs : Bytes)
    → reserve b (length (x ∷ xs)) ≡ none
    → append b (x ∷ xs) ≡ none
unfolding append
append-refused b x xs f =
    let some_bytes : (length (x ∷ xs) == 0) ≡ false = ground arith in
    rw (some_bytes, f, append) refl

abbrev pub Appended : Builder → Bytes → Option Builder → Type 0
Appended b bytes none = Unit
Appended b bytes (some b2) = (b2.text ≡ b.text ++ bytes) × IsSound b2

-- When the new length is below (size_t)-1, an append to a sound buffer that succeeds puts the
-- bytes behind the text and leaves the buffer sound: the text and its NUL stand in the memory.
append-IsSound :
    (b : Builder) (bytes : Bytes)
    → IsSound b
    → length b.text + length bytes < size_max
    → Appended b bytes (append b bytes)
unfolding append
append-IsSound b [] s h = (sym (append-nil b.text), s)
append-IsSound b (x ∷ xs) s h = elim (Option-cases (reserve b (length (x ∷ xs)))) [
  | inl f ↦ rw (append-refused b x xs f) tt
  | inr (b3, f) ↦
      let (same, room, most) = reserve-Holds b b3 (length (x ∷ xs)) s.0 h f in
      let grown = length-append b.text (x ∷ xs) in
      rw (append-some b b3 x xs f)
        (rw same refl, (most, rw same (omega arith), λ some_bytes. rw same (omega arith)))
]

-- Appending fails only when the sum is no `size_t`, or when the allocator refuses.
append-none :
    (b : Builder) (bytes : Bytes)
    → append b bytes ≡ none
    → (size_max < length b.text + length bytes) ⊎ (b.alloc b.asked ≡ false)
unfolding append reserve
append-none b bytes e = ground arith

reserve-same :
    (b b2 : Builder) (extra : ℕ)
    → reserve b extra ≡ some b2
    → (b2.text ≡ b.text) × (b2.alloc ≡ b.alloc)
unfolding reserve
reserve-same b b2 extra e = ground arith

-- With an allocator that never refuses, bytes that leave the sum a `size_t` are appended.
pub append-granted :
    (b : Builder) (x : ℕ) (xs : Bytes)
    → ((n : ℕ) → b.alloc n ≡ true)
    → length b.text + length (x ∷ xs) ≤ size_max
    → (b2 : Builder) × (append b (x ∷ xs) ≡ some b2)
      × (b2.text ≡ b.text ++ x ∷ xs)
      × ((n : ℕ) → b2.alloc n ≡ true)
append-granted b x xs g h = elim (Option-cases (reserve b (length (x ∷ xs)))) [
  | inr (b3, f) ↦
      let (text, alloc) = reserve-same b b3 (length (x ∷ xs)) f in
      (
        record b3 { text = b3.text ++ x ∷ xs },
        append-some b b3 x xs f,
        rw text refl,
        λ n. rw alloc (g n),
      )
  | inl f ↦ elim (append-none b (x ∷ xs) (append-refused b x xs f)) [
    | inl over ↦ absurd (omega arith)
    | inr refused ↦ let granted = g b.asked in cc
  ]
]
