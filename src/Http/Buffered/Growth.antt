-- ===== src/Http/Buffered/Growth.antt =====
-- The memory behind `psi_http_buffer_callback` of src/core/http_buffered.c.
use psi_code.Prelude.{
  ℕ, ◌+◌, ◌-◌, ◌*◌, ◌/◌, ◌%◌, ◌≤◌, ◌<◌, ◌≡◌, refl, sym, ap, ◌∙◌, Bool, true, false, not, ◌&&◌, ◌||◌,
  inl, inr, ◌++◌, Bytes, length, take, max, zero, suc, [], ◌∷◌, length-append, size_mod, size_max,
  ◌==◌, ltb, leb, if◌then◌else◌, Bool-cases, arith,
}
use native.Mathlib.Nat.{div-lt_iff_lt-mul, le-div_iff_mul-le, mod-eq_of_lt, mul_comm}
use psi_code.Http.Buffered.{max_bytes, Buffer, grow, next_capacity, refuse, copied, buffer_callback}

grow-ge :
    (fuel next required : ℕ)
    → 1 ≤ next
    → next ≤ 2 * max_bytes + 2
    → required ≤ next + fuel
    → required ≤ grow fuel next required
unfolding grow
grow-ge zero next required n m h = omega (arith, h)
grow-ge (suc fuel) next required n m h = ground (arith, grow-ge fuel (next * 2 % size_mod) required)

next_capacity-le : (capacity required : ℕ) → next_capacity capacity required ≤ max_bytes + 1
unfolding next_capacity
next_capacity-le capacity required = ground arith

next_capacity-ge :
    (capacity required : ℕ)
    → capacity ≤ max_bytes + 1
    → required ≤ max_bytes + 1
    → required ≤ next_capacity capacity required
unfolding next_capacity
next_capacity-ge capacity required c r =
    ground (arith, grow-ge required 4096 required, grow-ge required capacity required)

-- The text is in the memory with its NUL, where there is memory at all.
pub record Sound (b : Buffer) : Type 0 where
  pub length_bytes : length b.bytes ≡ b.length
  pub fits : b.length ≤ max_bytes
  pub nul : b.length + 1 ≤ max b.capacity 1
  pub least : b.capacity ≤ max_bytes + 1

-- All of it is taken, or nothing and for a reason.
pub data Taken (granted : Bool) (s : Bytes) (b : Buffer) : ℕ × Buffer → Type 0 where
  all_of :
      (n : ℕ) (c : Buffer)
      → n ≡ length s
      → Sound c
      → c.bytes ≡ b.bytes ++ s
      → c.too_large ≡ b.too_large
      → b.length + length s ≤ max_bytes
      → Taken granted s b (n, c)
  beyond : max_bytes < b.length + length s → Taken granted s b (refuse b)
  refused : granted ≡ false → b.length + length s ≤ max_bytes → Taken granted s b (0, b)

take-whole : (n : ℕ) (s : Bytes) → length s ≡ n → take n s ≡ s
take-whole zero [] h = refl
take-whole (suc n) [] h = refl
take-whole zero (c ∷ s) h = absurd (omega (arith, h))
take-whole (suc n) (c ∷ s) h = ap (λ r. c ∷ r) (take-whole n s (omega (arith, h)))

copied-Taken :
    (granted : Bool) (s : Bytes) (b : Buffer) (capacity total : ℕ)
    → Sound b
    → length s ≡ total
    → b.length + length s ≤ max_bytes
    → b.length + total + 1 ≤ capacity
    → capacity ≤ max_bytes + 1
    → Taken granted s b (copied capacity total s b)
copied-Taken granted s b capacity total d e fits room least =
    let whole : take b.length b.bytes ++ take total s ≡ b.bytes ++ s =
      rw (take-whole b.length b.bytes d.length_bytes, take-whole total s e) refl in
    let c : Buffer = record b {
      bytes = take b.length b.bytes ++ take total s;
      length = b.length + total;
      capacity = capacity;
    } in
    let sound : Sound c = record {
      length_bytes =
          ap (λ l. length l) whole ∙ omega (arith, length-append b.bytes s, d.length_bytes, e);
      fits = omega (arith, fits, e);
      nul = omega (arith, room);
      least = least;
    } in
    all_of total c (sym e) sound whole refl fits

-- The test in front of the product.
abbrev overflows : ℕ → ℕ → Bool
overflows size nmemb = not (size == 0) && ltb (size_max / size) nmemb

product_over : (size nmemb : ℕ) → overflows size nmemb ≡ true → size_max < size * nmemb
product_over zero nmemb h = absurd (cc (h))
product_over (suc n) nmemb h =
    let over : size_max / suc n < nmemb = ground arith in
    let prod : size_max < nmemb * suc n = (div-lt_iff_lt-mul (omega arith)).0 over in
    rw (mul_comm (suc n) nmemb) prod

below_mod : (n : ℕ) → n ≤ size_max → n < size_mod
below_mod n h = omega (arith, h)

product_fits :
    (size nmemb : ℕ) → overflows size nmemb ≡ false → size * nmemb % size_mod ≡ size * nmemb
product_fits zero nmemb h = omega arith
product_fits (suc n) nmemb h =
    let fits : nmemb ≤ size_max / suc n = ground arith in
    let prod : nmemb * suc n ≤ size_max = (le-div_iff_mul-le (omega arith)).0 fits in
    mod-eq_of_lt (rw (mul_comm (suc n) nmemb) (below_mod (nmemb * suc n) prod))

pub buffer_callback-Taken :
    (granted : Bool) (size nmemb : ℕ) (s : Bytes) (b : Buffer)
    → Sound b
    → length s ≡ size * nmemb
    → Taken granted s b (buffer_callback granted size nmemb s b)
unfolding buffer_callback
buffer_callback-Taken granted size nmemb s b d e = elim (Bool-cases (overflows size nmemb)) [
  | inl o ↦ rw o (beyond (omega (arith, product_over size nmemb o)))
  | inr o ↦
      let total : length s ≡ size * nmemb % size_mod = e ∙ sym (product_fits size nmemb o) in
      rw o (by_total (size * nmemb % size_mod) total)
]
  where
    by_total :
        (total : ℕ)
        → length s ≡ total
        → Taken granted s b (
            if ltb max_bytes total || ltb (max_bytes - total) b.length
            then refuse b
            else if leb (b.length + total + 1) b.capacity
            then copied b.capacity total s b
            else if granted
            then copied (next_capacity b.capacity (b.length + total + 1)) total s b
            else (0, b))
    by_total total e = elim (Bool-cases (ltb max_bytes total || ltb (max_bytes - total) b.length)) [
      | inl o ↦ rw o (beyond (ground arith))
      | inr o ↦
          let fits : b.length + length s ≤ max_bytes = ground arith in
          elim (Bool-cases (leb (b.length + total + 1) b.capacity)) [
            | inl r ↦
                rw (o, r)
                  (copied-Taken granted s b b.capacity total d e fits (ground arith) d.least)
            | inr r ↦ elim (Bool-cases granted) [
              | inl g ↦
                  rw (o, r, g)
                    (copied-Taken true s b (next_capacity b.capacity (b.length + total + 1)) total d
                      e fits (next_capacity-ge b.capacity _ d.least (omega (arith, fits, e)))
                      (next_capacity-le b.capacity _))
              | inr g ↦ rw (o, r, g) (refused refl fits)
            ]
          ]
    ]
