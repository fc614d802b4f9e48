-- ===== src/Process/Growth.antt =====
-- The memory of the buffer of `psi_process_append_bytes`.
use psi_code.Prelude.{
  ℕ, zero, suc, ◌+◌, ◌*◌, ◌≤◌, ◌<◌, ◌≡◌, refl, Option, none, some, ◌++◌, arith, Bytes, length,
  length-append, size_max, ◌==◌, ltb, leb, Bool-cases, Option-cases, inl, inr,
}
use psi_code.Process.{Strbuf, grow, room, required_for, next_capacity_for, append_bytes}

-- The loop ends with at least what is required, and no `size_t` overflows in it.
pub grow-le :
    (fuel next required n : ℕ)
    → 1 ≤ next
    → required ≤ next + fuel
    → next ≤ size_max
    → grow fuel next required ≡ some n
    → (required ≤ n) × (n ≤ size_max)
unfolding grow
grow-le zero next required n p f c e = ground arith
grow-le (suc fuel) next required n p f c e = ground (arith, grow-le fuel (next * 2) required n)

pub next_capacity_for-le :
    (b : Strbuf) (bytes n : ℕ)
    → b.capacity ≤ size_max
    → next_capacity_for b bytes ≡ some n
    → (required_for b bytes ≤ n) × (n ≤ size_max)
unfolding next_capacity_for
next_capacity_for-le b bytes n c e =
    let required = required_for b bytes in
    elim (Bool-cases (b.capacity == 0)) [
      | inl z ↦
          grow-le required 4096 required n (omega arith) (omega arith) (omega arith)
            (rw (z, next_capacity_for) at e)
      | inr z ↦
          grow-le required b.capacity required n (ground arith) (omega arith) c
            (rw (z, next_capacity_for) at e)
    ]

-- What an append gives: the bytes behind the text, in memory that is large enough.
abbrev pub Appended : Strbuf → Bytes → Option Strbuf → Type 0
Appended b s none = Unit
Appended b s (some c) =
    (c.text ≡ b.text ++ s) × (length c.text + 1 ≤ c.capacity) × (c.capacity ≤ size_max)

-- When the new length is below (size_t)-1 and the capacity is a size_t, psi_process_append_bytes
-- either fails or puts the bytes behind the text in a buffer that has room for them and the NUL.
append_bytes-Appended :
    (b : Strbuf) (s : Bytes)
    → b.capacity ≤ size_max
    → length b.text + length s < size_max
    → Appended b s (append_bytes b s)
unfolding append_bytes
append_bytes-Appended b s c h =
    let n : ℕ = length s in
    let grown = length-append b.text s in
    let sum : required_for b n ≡ length b.text + n + 1 = omega arith in
    elim (Bool-cases (ltb (room n) (length b.text))) [
      | inl over ↦ rw (over, append_bytes) tt
      | inr fits ↦ elim (Bool-cases (leb (required_for b n) b.capacity)) [
        | inl enough ↦ rw (fits, enough, append_bytes) (refl, ground arith, c)
        | inr short ↦ elim (Option-cases (next_capacity_for b n)) [
          | inl f ↦ rw (fits, short, f, append_bytes) tt
          | inr (next, f) ↦
              let (least, most) = next_capacity_for-le b n next c f in
              elim (Bool-cases (b.alloc b.asked)) [
                | inl granted ↦ rw (fits, short, f, granted, append_bytes) (refl, omega arith, most)
                | inr refused ↦ rw (fits, short, f, refused, append_bytes) tt
              ]
        ]
      ]
    ]
