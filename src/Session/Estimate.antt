-- ===== src/Session/Estimate.antt =====
-- Token counts: the calibration, and the estimate of the messages from an index on.
use psi_code.Prelude.{
  ℕ, zero, suc, ◌+◌, ◌-◌, ◌*◌, ◌%◌, ◌≤◌, ◌<◌, ◌≡◌, refl, ap, ◌∙◌, sym, inl, inr, ◌⊎◌, some, List,
  [], ◌∷◌, arith, Option-cases, length, get_or, take, drop, size_mod, size_max, length-take,
  take-append-drop, get_or-take,
}
use psi_code.Message
use psi_code.Message.{Message}
use psi_code.Session.{Session, sub_size, estimate_in, token_estimate_from}
use psi_code.Session.Prefix.{sum, estimates, get_or-prefixes, length-estimates, sum-append}
use psi_code.Session.Invariant.{IsValid, contents}

-- Below saturation the calibration is the least number that is at least 1.105 times the estimate,
-- without a wrap; above it is the largest `size_t`.
calibrate_tokens-ceil :
    (p : ℕ)
    → p < size_mod
    → ((Message.calibrate_tokens p ≡ size_max) × (size_max < 221 * p + 199))
      ⊎ ((221 * p ≤ 200 * Message.calibrate_tokens p)
          × (200 * Message.calibrate_tokens p < 221 * p + 200))
unfolding Message.calibrate_tokens
calibrate_tokens-ceil p h = ground arith

pub calibrate_tokens_mono :
    (p q : ℕ) → p ≤ q → q < size_mod → Message.calibrate_tokens p ≤ Message.calibrate_tokens q
unfolding Message.calibrate_tokens
calibrate_tokens_mono p q h k = ground arith

-- In a valid session a prefix sum is the sum of the estimates before it, modulo 2^64.
pub get_or-sum :
    (s : Session) (p : List ℕ) (i : ℕ)
    → IsValid s
    → s.token_prefix ≡ some p
    → i ≤ s.count
    → get_or p i 0 ≡ sum (take i (estimates (contents s))) % size_mod
get_or-sum s p i v e h =
    sym (get_or-take (suc s.count) p i 0 (omega arith))
    ∙ ap (λ l. get_or l i 0) (rw e at v.sums).1
    ∙ omega (
      arith,
      get_or-prefixes 0 (estimates (contents s)) i (omega arith)
          (omega (arith, length-estimates (contents s), length-take s.count s.messages, v.stored)),
    )

pub sum-take-drop : (i : ℕ) (xs : List ℕ) → sum (take i xs) + sum (drop i xs) ≡ sum xs
sum-take-drop i xs = sym (sum-append (take i xs) (drop i xs)) ∙ ap sum (take-append-drop i xs)

pub drop-nil {ℓ} : {A : Type ℓ} (i : ℕ) (xs : List A) → length xs ≤ i → drop i xs ≡ []
drop-nil zero [] h = refl
drop-nil (suc i) [] h = refl
drop-nil zero (x ∷ xs) h = absurd (omega arith)
drop-nil (suc i) (x ∷ xs) h = drop-nil i xs (omega arith)

sum-drop_end : (i : ℕ) (xs : List ℕ) → length xs ≤ i → sum (drop i xs) ≡ 0
sum-drop_end i xs h = ap sum (drop-nil i xs h)

pub take_all {ℓ} : {A : Type ℓ} (i : ℕ) (xs : List A) → length xs ≤ i → take i xs ≡ xs
take_all zero [] h = refl
take_all (suc i) [] h = refl
take_all zero (x ∷ xs) h = absurd (omega arith)
take_all (suc i) (x ∷ xs) h = ap (◌∷◌ x) (take_all i xs (omega arith))

pub length-contents : (s : Session) → IsValid s → length (estimates (contents s)) ≡ s.count
length-contents s v =
    omega (arith, length-estimates (contents s), length-take s.count s.messages, v.stored)

module _ (s : Session) (p : List ℕ) where
  sub_size-sum :
      (i : ℕ)
      → IsValid s
      → s.token_prefix ≡ some p
      → i ≤ s.count
      → sub_size (get_or p s.count 0) (get_or p i 0)
        ≡ sum (drop i (estimates (contents s))) % size_mod
  sub_size-sum i v e h = omega (
    arith,
    get_or-sum s p s.count v e (omega arith),
    get_or-sum s p i v e h,
    ap sum (take_all s.count (estimates (contents s)) (omega (arith, length-contents s v))),
    sum-take-drop i (estimates (contents s)),
  )

  estimate_in_lem :
      (start : ℕ)
      → IsValid s
      → s.token_prefix ≡ some p
      → estimate_in s p start ≡ sum (drop (start - 1) (estimates (contents s))) % size_mod
  unfolding estimate_in
  estimate_in_lem start v e = ground (
    arith,
    sub_size-sum (start - 1) v e,
    sub_size-sum 0 v e,
    sum-drop_end (start - 1) (estimates (contents s)),
    length-contents s v,
  )

-- In a valid session the estimate from `start` on is the sum of the estimates of the messages from
-- that one on, counted from 1, modulo 2^64: for 0 it is the sum of all, past the last it is 0.
pub token_estimate_from-sum :
    (s : Session) (start : ℕ)
    → IsValid s
    → token_estimate_from (some s) start
      ≡ sum (drop (start - 1) (estimates (contents s))) % size_mod
unfolding token_estimate_from
token_estimate_from-sum s start v = elim (Option-cases s.token_prefix) [
  | inl e ↦
      let none_kept : s.count ≡ 0 = omega (arith, rw e at v.sums) in
      rw e (ground (arith, sum-drop_end (start - 1) (estimates (contents s)), length-contents s v))
  | inr (p, e) ↦ rw e (
      ground (
        arith,
        estimate_in_lem s p start v e,
        sum-drop_end (start - 1) (estimates (contents s)),
        length-contents s v,
      ))
]
