-- ===== src/Session/Keep.antt =====
-- How many recent messages a token budget keeps: the binary search over the prefix sums.
use psi_code.Prelude.{
  ◌≢◌, ltb→lt, ℕ, zero, suc, ◌+◌, ◌-◌, ◌/◌, ◌≤◌, ◌<◌, ◌≡◌, refl, ap, sym, inl, inr, ◌⊎◌, false,
  some, List, [], ◌∷◌, arith, Bool-cases, Option-cases, ltb, leb, length, get_or, drop, size_mod,
  ◌==◌,
}
use psi_code.Session.{Session, lower_bound, kept_from, keep_in, keep_recent_by_tokens}
use psi_code.Session.Prefix.{sum, estimates}
use psi_code.Session.Invariant.{IsValid, contents}
use psi_code.Session.Estimate.{get_or-sum, sum-take-drop, length-contents, take_all}

-- An index between `lo` and `hi` where the values pass the threshold: below it stands a smaller
-- value, or it is the start; at it stands none, or it is the end.
abbrev pub IsBoundary : List ℕ → ℕ → ℕ → ℕ → Type 0
IsBoundary p threshold n i =
    (i ≤ n) × ((i ≡ 0) ⊎ (get_or p (i - 1) 0 < threshold)) × ((i ≡ n) ⊎ (threshold ≤ get_or p i 0))

IsBoundary-eq :
    (p : List ℕ) (i : ℕ) {a a' n n' : ℕ}
    → a ≡ a'
    → n ≡ n'
    → IsBoundary p a n i
    → IsBoundary p a' n' i
IsBoundary-eq p i e f b = rw (← e, ← f) b

add-sub : (n : ℕ) → n + 1 - 1 ≡ n
add-sub n = omega arith

-- The search ends, at a boundary, with as much fuel as the range is long plus one.
pub lower_bound-IsBoundary :
    (p : List ℕ) (threshold n fuel lo hi : ℕ)
    → lo ≤ hi
    → hi ≤ n
    → hi - lo < fuel
    → (lo ≡ 0) ⊎ (get_or p (lo - 1) 0 < threshold)
    → (hi ≡ n) ⊎ (threshold ≤ get_or p hi 0)
    → (i : ℕ) × (lower_bound p threshold fuel lo hi ≡ some i) × IsBoundary p threshold n i
unfolding lower_bound
lower_bound-IsBoundary p threshold n zero lo hi a b f below above = absurd (omega arith)
lower_bound-IsBoundary p threshold n (suc fuel) lo hi a b f below above =
    elim (Bool-cases (ltb lo hi)) [
      | inr done ↦ (lo, rw done, (omega arith, below, ground arith))
      | inl more ↦
          let mid : ℕ = lo + (hi - lo) / 2 in
          elim (Bool-cases (ltb (get_or p mid 0) threshold)) [
            | inl up ↦
                rw (more, up)
                  (lower_bound-IsBoundary p threshold n fuel (mid + 1) hi (ground arith) b
                    (ground arith) (inr (rw (add-sub mid) (ltb→lt _ _ up))) above)
            | inr down ↦
                rw (more, down)
                  (lower_bound-IsBoundary p threshold n fuel lo mid (ground arith) (ground arith)
                    (ground arith) below (inr (ground arith)))
          ]
    ]

-- A number `k` of messages that a budget keeps of estimates `xs`: all of them, or as many of the
-- last as fit and no more; at least one.
pub record Keeps (xs : List ℕ) (target k : ℕ) : Type 0 where
  pub in_range : k ≤ length xs
  pub some_kept : (length xs ≡ 0) ⊎ (1 ≤ k)
  pub fits : (k ≡ 1) ⊎ (sum (drop (length xs - k) xs) ≤ target)
  pub maximal : (k ≡ length xs) ⊎ (target < sum (drop (length xs - k - 1) xs))

sum-drop-suc : (i : ℕ) (xs : List ℕ) → sum (drop (suc i) xs) ≤ sum (drop i xs)
sum-drop-suc zero [] = omega arith
sum-drop-suc (suc i) [] = omega arith
sum-drop-suc zero (x ∷ xs) = omega arith
sum-drop-suc (suc i) (x ∷ xs) = sum-drop-suc i xs

-- `p` holds the sums of `xs` before each index.
module _ (xs p : List ℕ)
    (sums : (i : ℕ) → i ≤ length xs → get_or p i 0 + sum (drop i xs) ≡ sum xs) where
  start : get_or p 0 0 + sum xs ≡ sum xs
  start = sums 0 (omega arith)

  boundary_pos :
      (target i : ℕ)
      → target < sum xs
      → 0 < length xs
      → IsBoundary p (sum xs - target) (length xs) i
      → i ≢ 0
  boundary_pos target zero small h (within, below, above) z = omega (arith, start)
  boundary_pos target (suc i) small h b z = omega arith

  kept_inside :
      (target i : ℕ)
      → target < sum xs
      → i < length xs
      → i ≢ 0
      → IsBoundary p (sum xs - target) (length xs) i
      → Keeps xs target (length xs - i)
  kept_inside target i small h pos (within, below, above) =
      let e : length xs - (length xs - i) ≡ i = omega arith in
      record {
        in_range = omega arith;
        some_kept = inr (omega arith);
        fits = inr (rw e (omega (arith, sums i (omega arith))));
        maximal = inr (rw e (omega (arith, start, sums (i - 1) (omega arith))));
      }

  kept_last :
      (target i : ℕ)
      → target < sum xs
      → i ≡ length xs
      → i ≢ 0
      → IsBoundary p (sum xs - target) (length xs) i
      → Keeps xs target 1
  kept_last target i small h pos (within, below, above) = record {
    in_range = omega arith;
    some_kept = inr (omega arith);
    fits = inl refl;
    maximal = past;
  }
    where
      -- the tail before the last message, if there is one
      longer : (j : ℕ) → j ≡ i - 1 → j ≢ 0 → sum (drop j xs) ≤ sum (drop (j - 1) xs)
      longer zero e ne = absurd (ne refl)
      longer (suc j) e ne = let back : suc j - 1 ≡ j = omega arith in rw back (sum-drop-suc j xs)

      past : (1 ≡ length xs) ⊎ (target < sum (drop (length xs - 1 - 1) xs))
      past = elim (Bool-cases (i == 1)) [
        | inl one ↦ inl (ground arith)
        | inr more ↦
            let same : length xs - 1 ≡ i - 1 = omega arith in
            inr (
              rw same
                (omega (arith, sums (i - 1) (omega arith), longer (i - 1) refl (ground arith))))
      ]

Keeps-all :
    (xs : List ℕ) (target n : ℕ) → length xs ≡ n → 0 < n → sum xs ≤ target → Keeps xs target n
Keeps-all xs target n e pos h =
    let none_left : length xs - n ≡ 0 = omega arith in
    record {
      in_range = omega arith;
      some_kept = inr (omega arith);
      fits = inr (rw none_left h);
      maximal = inl (sym e);
    }

-- what the search finds in a valid session
module _ (s : Session) (p : List ℕ) (v : IsValid s) (e : s.token_prefix ≡ some p) where
  tail_sum :
      sum (estimates (contents s)) < size_mod
      → (i : ℕ) → i ≤ length (estimates (contents s))
      → get_or p i 0 + sum (drop i (estimates (contents s))) ≡ sum (estimates (contents s))
  tail_sum small i h = omega (
    arith,
    get_or-sum s p i v e (omega (arith, length-contents s v)),
    sum-take-drop i (estimates (contents s)),
  )

  total_sum :
      sum (estimates (contents s)) < size_mod → get_or p s.count 0 ≡ sum (estimates (contents s))
  total_sum small = omega (
    arith,
    get_or-sum s p s.count v e (omega arith),
    ap sum (take_all s.count (estimates (contents s)) (omega (arith, length-contents s v))),
  )

  kept_from-Keeps :
      (target i : ℕ)
      → sum (estimates (contents s)) < size_mod
      → target < sum (estimates (contents s))
      → 0 < s.count
      → IsBoundary p (sum (estimates (contents s)) - target) (length (estimates (contents s))) i
      → Keeps (estimates (contents s)) target (kept_from s.count i)
  unfolding kept_from
  kept_from-Keeps target i small h pos b =
      let sums = tail_sum small in
      let n : length (estimates (contents s)) ≡ s.count = length-contents s v in
      let ne = boundary_pos (estimates (contents s)) p sums target i h (omega arith) b in
      elim (Bool-cases (ltb s.count (i + 1))) [
        | inl over ↦
            let one : s.count - s.count + 1 ≡ 1 = omega arith in
            rw (over, one)
              (kept_last (estimates (contents s)) p sums target i h (ground arith) ne b)
        | inr inside ↦
            let k : s.count - (i + 1) + 1 ≡ length (estimates (contents s)) - i = ground arith in
            rw (inside, k)
              (kept_inside (estimates (contents s)) p sums target i h (ground arith) ne b)
      ]

  keep_in-Keeps :
      (target : ℕ)
      → sum (estimates (contents s)) < size_mod
      → 0 < s.count
      → (k : ℕ) × (keep_in s p target ≡ some k) × Keeps (estimates (contents s)) target k
  unfolding keep_in
  keep_in-Keeps target small pos =
      let n : length (estimates (contents s)) ≡ s.count = length-contents s v in
      let total = total_sum small in
      elim (Bool-cases (leb (get_or p s.count 0) target)) [
        | inl all ↦ (
          s.count,
          rw all,
          Keeps-all (estimates (contents s)) target s.count n pos (ground arith),
        )
        | inr part ↦
            let (i, found, b) =
              lower_bound-IsBoundary p (get_or p s.count 0 - target) s.count (s.count + 1) 0 s.count
                (omega arith) (omega arith) (omega arith) (inl refl) (inl refl) in
            (
              kept_from s.count i,
              rw (part, found),
              kept_from-Keeps target i small (ground arith) pos
                  (IsBoundary-eq p i (ap (λ k. k - target) total) (sym n) b),
            )
      ]

pos_of_ne : (n : ℕ) → n == 0 ≡ false → 0 < n
pos_of_ne n h = ground arith

Keeps-none : (xs : List ℕ) (target : ℕ) → length xs ≡ 0 → Keeps xs target 0
Keeps-none [] target h = record {
  in_range = omega arith;
  some_kept = inl refl;
  fits = inr (omega arith);
  maximal = inl refl;
}
Keeps-none (x ∷ xs) target h = absurd (omega arith)

-- In a valid session whose estimates add up to less than 2^64 the search always answers. It keeps
-- nothing of an empty session. Otherwise the number kept is at least 1 and at most the number of
-- messages, the estimates of that many last messages fit the target unless the number is 1, and
-- those of one message more do not fit, unless all are kept.
pub keep_recent_by_tokens-Keeps :
    (s : Session) (target : ℕ)
    → IsValid s
    → sum (estimates (contents s)) < size_mod
    → (k : ℕ) × (keep_recent_by_tokens (some s) target ≡ some k)
      × Keeps (estimates (contents s)) target k
unfolding keep_recent_by_tokens
keep_recent_by_tokens-Keeps s target v small = elim (Bool-cases (s.count == 0)) [
  | inl z ↦
      (0, rw z, Keeps-none (estimates (contents s)) target (ground (arith, length-contents s v)))
  | inr pos ↦ elim (Option-cases s.token_prefix) [
    | inl e ↦ absurd (omega (arith, rw e at v.sums, v.count_in, pos_of_ne s.count pos))
    | inr (p, e) ↦ rw (pos, e) (keep_in-Keeps s p v e target small (pos_of_ne s.count pos))
  ]
]
