-- ===== src/Process/Poll/Kept.antt =====
-- What is kept of the output of a child, over the polls that hand it out.
use psi_code.Prelude.{
  ℕ, zero, suc, ◌+◌, ◌-◌, ◌*◌, ◌/◌, ◌≤◌, ◌<◌, ◌≡◌, refl, ap, sym, ◌∙◌, true, false, some, [], ◌∷◌,
  ◌++◌, arith, Bytes, length, length-append, length-take, take, min, size_max, ◌==◌, ltb, leb,
  lt→ltb, ltb→lt, if◌then◌else◌, Bool-cases, inl, inr,
}
use psi_code.Process.{Strbuf, grow, room, required_for, next_capacity_for, append_bytes}
use psi_code.Process.Growth.{next_capacity_for-le}
use psi_code.Process.Poll.{output_max, Handle, stash}

grow-some :
    (fuel next required : ℕ)
    → required ≤ size_max / 2
    → (n : ℕ) × (grow fuel next required ≡ some n)
unfolding grow
grow-some zero next required h = (next, refl)
grow-some (suc fuel) next required h = elim (Bool-cases (ltb next required)) [
  | inr enough ↦ (next, rw enough refl)
  | inl short ↦
      let small : ltb (size_max / 2) next ≡ false = ground arith in
      rw (short, small) (grow-some fuel (next * 2) required h)
]

abbrev Grants : Strbuf → Type 0
Grants b = ((n : ℕ) → b.alloc n ≡ true) × (b.capacity ≤ size_max)

append_bytes-some :
    (b : Strbuf) (s : Bytes)
    → Grants b
    → length b.text + length s ≤ output_max
    → (c : Strbuf) × (append_bytes b s ≡ some c) × (c.text ≡ b.text ++ s) × Grants c
unfolding append_bytes next_capacity_for
append_bytes-some b s (g, size_ok) h =
    let n : ℕ = length s in
    let sum : required_for b n ≡ length b.text + n + 1 = omega arith in
    let fits : ltb (room n) (length b.text) ≡ false = ground arith in
    elim (Bool-cases (leb (required_for b n) b.capacity)) [
      | inl enough ↦ (
        record b { text = b.text ++ s },
        rw (fits, enough, append_bytes) refl,
        refl,
        (g, size_ok),
      )
      | inr short ↦
          let required = required_for b n in
          let (next, e) =
            grow-some required (if b.capacity == 0 then 4096 else b.capacity) required
              (omega arith) in
          let granted = g b.asked in
          (
            record b { text = b.text ++ s; capacity = next; asked = b.asked + 1 },
            rw (fits, short, e, granted, append_bytes) refl,
            refl,
            (g, (next_capacity_for-le b n next size_ok e).1),
          )
    ]

-- The first bytes of all that was seen are kept, and the mark tells whether there were more.
pub record IsKept (seen : Bytes) (h : Handle) : Type 0 where
  pub text : h.output.text ≡ take output_max seen
  pub marked : h.truncated ≡ ltb output_max (length seen)
  pub grants : (n : ℕ) → h.output.alloc n ≡ true
  pub sized : h.output.capacity ≤ size_max

take-append-front :
    (n : ℕ) (s t : Bytes) → length s ≤ n → take n (s ++ t) ≡ s ++ take (n - length s) t
take-append-front n [] t h = ap (λ k. take k t) (omega arith)
take-append-front zero (x ∷ s) t h = absurd (omega arith)
take-append-front (suc n) (x ∷ s) t h =
    ap (λ l. x ∷ l) (take-append-front n s t (omega arith) ∙ ap (λ k. s ++ take k t) (omega arith))

take-append-within : (n : ℕ) (s t : Bytes) → n ≤ length s → take n (s ++ t) ≡ take n s
take-append-within zero s t h = refl
take-append-within (suc n) [] t h = absurd (omega arith)
take-append-within (suc n) (x ∷ s) t h = ap (λ l. x ∷ l) (take-append-within n s t (omega arith))

take-all : (n : ℕ) (s : Bytes) → length s ≤ n → take n s ≡ s
take-all zero [] h = refl
take-all (suc n) [] h = refl
take-all zero (x ∷ s) h = absurd (omega arith)
take-all (suc n) (x ∷ s) h = ap (λ l. x ∷ l) (take-all n s (omega arith))

ltb-ge : (a b : ℕ) → b ≤ a → ltb a b ≡ false
ltb-ge a b h = ground arith

le-of_ltb : (a b : ℕ) → ltb a b ≡ false → b ≤ a
le-of_ltb a b h = ground arith

module _ (seen bytes : Bytes) (h : Handle) (k : IsKept seen h) (some_bytes : 1 ≤ length bytes) where
  used-min : length h.output.text ≡ min output_max (length seen)
  used-min = ap length k.text ∙ length-take output_max seen

  -- The ceiling is reached already.
  stash-full :
      output_max ≤ length h.output.text → IsKept (seen ++ bytes) (record h { truncated = true })
  stash-full full =
      let size = used-min in
      let total = length-append seen bytes in
      record {
        text = k.text ∙ sym (take-append-within output_max seen bytes (omega arith));
        marked = sym (lt→ltb output_max (length (seen ++ bytes)) (omega arith));
        grants = k.grants;
        sized = k.sized;
      }

  -- All that was seen is kept yet.
  all-kept : length h.output.text < output_max → h.output.text ≡ seen
  all-kept below = let size = used-min in k.text ∙ take-all output_max seen (omega arith)

  stash-over :
      (c : Strbuf)
      → length h.output.text < output_max
      → output_max < length h.output.text + length bytes
      → c.text ≡ h.output.text ++ take (output_max - length h.output.text) bytes
      → Grants c
      → IsKept (seen ++ bytes) (record h { truncated = true; output = c })
  stash-over c below over e (g, size_ok) =
      let same = all-kept below in
      let total = length-append seen bytes in
      let same_length = ap length same in
      record {
        text =
            e
            ∙ ap (λ t. t ++ take (output_max - length t) bytes) same
            ∙ sym (take-append-front output_max seen bytes (omega arith));
        marked = sym (lt→ltb output_max (length (seen ++ bytes)) (omega arith));
        grants = g;
        sized = size_ok;
      }

  stash-under :
      (c : Strbuf)
      → length h.output.text < output_max
      → length h.output.text + length bytes ≤ output_max
      → c.text ≡ h.output.text ++ bytes
      → Grants c
      → IsKept (seen ++ bytes) (record h { output = c })
  stash-under c below under e (g, size_ok) =
      let same = all-kept below in
      let total = length-append seen bytes in
      let same_length = ap length same in
      record {
        text =
            e ∙ ap (λ t. t ++ bytes) same ∙ sym (take-all output_max (seen ++ bytes) (omega arith));
        marked =
            k.marked
            ∙ ltb-ge output_max (length seen) (omega arith)
            ∙ sym (ltb-ge output_max (length (seen ++ bytes)) (omega arith));
        grants = g;
        sized = size_ok;
      }

  pub stash-IsKept : IsKept (seen ++ bytes) (stash bytes h)
  unfolding stash
  stash-IsKept =
      let used = length h.output.text in
      elim (Bool-cases (ltb used output_max)) [
        | inr full ↦ rw (full, stash) (stash-full (le-of_ltb used output_max full))
        | inl below ↦
            let lower = ltb→lt used output_max below in
            elim (Bool-cases (ltb output_max (used + length bytes))) [
              | inl over ↦
                  let cut = length-take (output_max - used) bytes in
                  let (c, e, text, grants) =
                    append_bytes-some h.output (take (output_max - used) bytes) (k.grants, k.sized)
                      (omega arith) in
                  rw (below, over, e, over, stash)
                    (stash-over c lower (ltb→lt output_max (used + length bytes) over) text grants)
              | inr under ↦
                  let small = le-of_ltb output_max (used + length bytes) under in
                  let (c, e, text, grants) =
                    append_bytes-some h.output bytes (k.grants, k.sized) small in
                  rw (below, under, e, under, stash) (stash-under c lower small text grants)
            ]
      ]
