-- ===== src/Prelude/Lists.antt =====
-- Lists measured and indexed by native numbers, and byte strings as lists of numbers.
use Prim.Native.Nat.{ℕ, zero, suc, ◌+◌, ◌-◌, ◌≤◌, ◌<◌, min}
use Prim.Native.Char.{code}
use Prim.Native.String.{String}
use mathlib.Core.Path.{◌≡◌, refl, ap}
use mathlib.Core.Bool.{Bool, true, false}
use mathlib.Core.List.{List, [], ◌∷◌, ◌++◌}
use native.Mathlib.Omega.{arith}
use psi_code.Prelude.Tests.{◌==◌, if◌then◌else◌}

abbrev pub Bytes : Type 0
Bytes = List ℕ

-- The bytes of an ASCII literal.
abbrev pub codes : String → Bytes
codes String.[] = []
codes (String.◌∷◌ c s) = code c ∷ codes s

-- The test `strcmp(s, t) == 0` on two C strings.
unfoldable pub strcmp_eq : Bytes → Bytes → Bool
strcmp_eq [] [] = true
strcmp_eq [] (d ∷ t) = false
strcmp_eq (c ∷ s) [] = false
strcmp_eq (c ∷ s) (d ∷ t) = if c == d then strcmp_eq s t else false

pub strcmp_eq_sound : (s t : Bytes) → strcmp_eq s t ≡ true → s ≡ t
unfolding strcmp_eq
strcmp_eq_sound [] [] h = refl
strcmp_eq_sound [] (d ∷ t) h = cc
strcmp_eq_sound (c ∷ s) [] h = cc
strcmp_eq_sound (c ∷ s) (d ∷ t) h = ground (arith, strcmp_eq_sound s t)

pub strcmp_eq_refl : (s : Bytes) → strcmp_eq s s ≡ true
unfolding strcmp_eq
strcmp_eq_refl [] = refl
strcmp_eq_refl (c ∷ s) = ground (arith, strcmp_eq_refl s)

module _ {ℓ} {A : Type ℓ} where
  abbrev pub length : List A → ℕ
  length [] = 0
  length (x ∷ xs) = suc (length xs)

  abbrev pub get_or : List A → ℕ → A → A
  get_or [] i d = d
  get_or (x ∷ xs) zero d = x
  get_or (x ∷ xs) (suc i) d = get_or xs i d

  abbrev pub take : ℕ → List A → List A
  take zero xs = []
  take (suc n) [] = []
  take (suc n) (x ∷ xs) = x ∷ take n xs

  abbrev pub drop : ℕ → List A → List A
  drop zero xs = xs
  drop (suc n) [] = []
  drop (suc n) (x ∷ xs) = drop n xs

  abbrev pub replicate : ℕ → A → List A
  replicate zero a = []
  replicate (suc n) a = a ∷ replicate n a

  -- A write to the initialised part of an array: at its end the part grows by the slot.
  -- A write past that end is lost; no caller makes one.
  abbrev pub write : List A → ℕ → A → List A
  write [] zero v = v ∷ []
  write [] (suc i) v = []
  write (x ∷ xs) zero v = v ∷ xs
  write (x ∷ xs) (suc i) v = x ∷ write xs i v

module _ {ℓ} {A : Type ℓ} where
  pub length-append : (xs ys : List A) → length (xs ++ ys) ≡ length xs + length ys
  length-append [] ys = omega arith
  length-append (x ∷ xs) ys = omega (arith, length-append xs ys)

  pub length-take : (n : ℕ) (xs : List A) → length (take n xs) ≡ min n (length xs)
  length-take zero xs = omega arith
  length-take (suc n) [] = omega arith
  length-take (suc n) (x ∷ xs) = omega (arith, length-take n xs)

  pub length-drop : (n : ℕ) (xs : List A) → length (drop n xs) ≡ length xs - n
  length-drop zero xs = omega arith
  length-drop (suc n) [] = omega arith
  length-drop (suc n) (x ∷ xs) = omega (arith, length-drop n xs)

  pub length-write :
      (xs : List A) (n : ℕ) (v : A) → n < length xs → length (write xs n v) ≡ length xs
  length-write [] n v h = absurd (omega arith)
  length-write (x ∷ xs) zero v h = refl
  length-write (x ∷ xs) (suc n) v h = ap suc (length-write xs n v (omega arith))

  pub length-write_end :
      (xs : List A) (n : ℕ) (v : A) → n ≡ length xs → length (write xs n v) ≡ suc (length xs)
  length-write_end [] zero v h = refl
  length-write_end [] (suc n) v h = absurd (omega arith)
  length-write_end (x ∷ xs) zero v h = absurd (omega arith)
  length-write_end (x ∷ xs) (suc n) v h = ap suc (length-write_end xs n v (omega arith))

  pub lt-length-write : (xs : List A) (n : ℕ) (v : A) → n ≤ length xs → n < length (write xs n v)
  lt-length-write [] zero v h = omega arith
  lt-length-write [] (suc n) v h = absurd (omega arith)
  lt-length-write (x ∷ xs) zero v h = omega arith
  lt-length-write (x ∷ xs) (suc n) v h = omega (arith, lt-length-write xs n v (omega arith))

  pub take-append-drop : (n : ℕ) (xs : List A) → take n xs ++ drop n xs ≡ xs
  take-append-drop zero xs = refl
  take-append-drop (suc n) [] = refl
  take-append-drop (suc n) (x ∷ xs) = ap (◌∷◌ x) (take-append-drop n xs)

  -- A write at `n` leaves the first `n` slots.
  pub take-write : (xs : List A) (n : ℕ) (v : A) → n ≤ length xs → take n (write xs n v) ≡ take n xs
  take-write xs zero v h = refl
  take-write [] (suc n) v h = refl
  take-write (x ∷ xs) (suc n) v h = ap (◌∷◌ x) (take-write xs n v (omega arith))

  pub take-write_self :
      (xs : List A) (n : ℕ) (v : A)
      → n ≤ length xs
      → take (suc n) (write xs n v) ≡ take n xs ++ (v ∷ [])
  take-write_self [] zero v h = refl
  take-write_self [] (suc n) v h = absurd (omega arith)
  take-write_self (x ∷ xs) zero v h = refl
  take-write_self (x ∷ xs) (suc n) v h = ap (◌∷◌ x) (take-write_self xs n v (omega arith))

  pub take-take : (n : ℕ) (xs : List A) → take n (take n xs) ≡ take n xs
  take-take zero xs = refl
  take-take (suc n) [] = refl
  take-take (suc n) (x ∷ xs) = ap (◌∷◌ x) (take-take n xs)

  pub get_or-append :
      (xs ys : List A) (i : ℕ) (d : A) → i < length xs → get_or (xs ++ ys) i d ≡ get_or xs i d
  get_or-append [] ys i d h = absurd (omega arith)
  get_or-append (x ∷ xs) ys zero d h = refl
  get_or-append (x ∷ xs) ys (suc i) d h = get_or-append xs ys i d (omega arith)

  pub get_or-append_end :
      (xs : List A) (i : ℕ) (v d : A) → i ≡ length xs → get_or (xs ++ (v ∷ [])) i d ≡ v
  get_or-append_end [] zero v d h = refl
  get_or-append_end [] (suc i) v d h = absurd (omega arith)
  get_or-append_end (x ∷ xs) zero v d h = absurd (omega arith)
  get_or-append_end (x ∷ xs) (suc i) v d h = get_or-append_end xs i v d (omega arith)

  pub get_or-take :
      (n : ℕ) (xs : List A) (i : ℕ) (d : A) → i < n → get_or (take n xs) i d ≡ get_or xs i d
  get_or-take zero xs i d h = absurd (omega arith)
  get_or-take (suc n) [] i d h = refl
  get_or-take (suc n) (x ∷ xs) zero d h = refl
  get_or-take (suc n) (x ∷ xs) (suc i) d h = get_or-take n xs i d (omega arith)

-- The byte at an offset, and 0 past the end.
unfoldable pub byte_at : Bytes → ℕ → ℕ
byte_at [] i = 0
byte_at (b ∷ bs) zero = b
byte_at (b ∷ bs) (suc i) = byte_at bs i
