-- ===== src/Session/Prefix.antt =====
-- The prefix sums of the token estimates, modulo the range of `size_t`.
use psi_code.Prelude.{
  ℕ, zero, suc, ◌+◌, ◌%◌, ◌≤◌, ◌<◌, ◌≡◌, refl, ap, List, [], ◌∷◌, ◌++◌, arith, length, get_or, take,
  size_mod, add_size, map,
}
use psi_code.Message.{Message}

abbrev pub sum : List ℕ → ℕ
sum [] = 0
sum (x ∷ xs) = x + sum xs

-- What `token_prefix` holds for the estimates `xs` behind the running sum `acc`.
abbrev pub prefixes : ℕ → List ℕ → List ℕ
prefixes acc [] = acc ∷ []
prefixes acc (x ∷ xs) = acc ∷ prefixes (add_size acc x) xs

abbrev pub estimates : List Message → List ℕ
estimates = map (λ m. m.token_estimate)

pub length-estimates : (ms : List Message) → length (estimates ms) ≡ length ms
length-estimates [] = refl
length-estimates (m ∷ ms) = ap suc (length-estimates ms)

pub estimates-append :
    (ms : List Message) (m : Message)
    → estimates (ms ++ (m ∷ [])) ≡ estimates ms ++ (m.token_estimate ∷ [])
estimates-append [] m = refl
estimates-append (x ∷ ms) m = ap (◌∷◌ x.token_estimate) (estimates-append ms m)

length-prefixes : (acc : ℕ) (xs : List ℕ) → length (prefixes acc xs) ≡ suc (length xs)
length-prefixes acc [] = refl
length-prefixes acc (x ∷ xs) = ap suc (length-prefixes (add_size acc x) xs)

-- Appending an estimate appends the last prefix sum plus that estimate.
pub prefixes-append :
    (acc : ℕ) (xs : List ℕ) (v n : ℕ)
    → n ≡ length xs
    → prefixes acc (xs ++ (v ∷ []))
      ≡ prefixes acc xs ++ (add_size (get_or (prefixes acc xs) n 0) v ∷ [])
prefixes-append acc [] v zero e = refl
prefixes-append acc [] v (suc n) e = absurd (omega arith)
prefixes-append acc (x ∷ xs) v zero e = absurd (omega arith)
prefixes-append acc (x ∷ xs) v (suc n) e =
    ap (◌∷◌ acc) (prefixes-append (add_size acc x) xs v n (omega arith))

-- A prefix sum is the sum of the estimates before it, modulo 2^64.
pub get_or-prefixes :
    (acc : ℕ) (xs : List ℕ) (i : ℕ)
    → acc < size_mod
    → i ≤ length xs
    → get_or (prefixes acc xs) i 0 ≡ (acc + sum (take i xs)) % size_mod
get_or-prefixes acc [] zero a h = omega arith
get_or-prefixes acc [] (suc i) a h = absurd (omega arith)
get_or-prefixes acc (x ∷ xs) zero a h = omega arith
get_or-prefixes acc (x ∷ xs) (suc i) a h =
    omega (arith, get_or-prefixes (add_size acc x) xs i (omega arith) (omega arith))

pub sum-append : (xs ys : List ℕ) → sum (xs ++ ys) ≡ sum xs + sum ys
sum-append [] ys = omega arith
sum-append (x ∷ xs) ys = omega (arith, sum-append xs ys)
