-- ===== src/Text/Scan.antt =====
-- The loops `while (i < len)` of the text primitives. A function of `text`, `len` and `i` is one of
-- the bytes from `i` on, and `next_i` is told by how many bytes it lies behind `i`.
use psi_code.Prelude.{ℕ, zero, suc, ◌-◌, ◌≤◌, ◌≡◌, refl, List, [], ◌∷◌, arith, Bytes, drop, ◌∙◌}

-- What a round of a loop does: go on behind some bytes, or leave the loop.
pub data Turn {ℓ κ} (S : Type ℓ) (R : Type κ) : Type (ℓ ⊔ κ) where
  go : ℕ → S → Turn S R
  stop : R → Turn S R

-- How a loop ends: by its test, or by a round that left it.
pub data End {ℓ κ} (S : Type ℓ) (R : Type κ) : Type (ℓ ⊔ κ) where
  ran : S → End S R
  stopped : R → End S R

module _ {ℓ κ} {S : Type ℓ} {R : Type κ} where
  -- The first number counts the bytes that are left up to `next_i`. Each body goes on by 1 at
  -- least, so no round is made twice at one place.
  unfoldable pub scan : (Bytes → S → Turn S R) → ℕ → Bytes → S → End S R
  scan body k [] a = ran a
  scan body (suc k) (b ∷ bs) a = scan body k bs a
  scan body zero (b ∷ bs) a = elim (body (b ∷ bs) a) [
    | go n a' ↦ scan body (n - 1) bs a'
    | stop r ↦ stopped r
  ]

drop-pred {ℓ} :
    {A : Type ℓ} (n : ℕ) (x : A) (xs : List A) → 1 ≤ n → drop n (x ∷ xs) ≡ drop (n - 1) xs
drop-pred zero x xs h = absurd (omega arith)
drop-pred (suc n) x xs h = let e : suc n - 1 ≡ n = omega arith in rw e

module _ {S R : Type 0} (P : Bytes → S → Type 0) (Q : R → Type 0) where
  -- What a round ensures of an invariant `P` of the rest and the state, and of a `Q` of the value
  -- that it leaves with.
  abbrev pub Ensures : Bytes → Turn S R → Type 0
  Ensures s (go n a) = (1 ≤ n) × P (drop n s) a
  Ensures s (stop r) = Q r

  abbrev pub Post : End S R → Type 0
  Post (ran a) = P [] a
  Post (stopped r) = Q r

module _ {S R : Type 0} (P : Bytes → S → Type 0) (Q : R → Type 0) (body : Bytes → S → Turn S R)
    (keep : (b : ℕ) (bs : Bytes) (a : S)
      → P (b ∷ bs) a
      → Ensures P Q (b ∷ bs) (body (b ∷ bs) a)) where
  -- The invariant rule.
  pub scan_rule : (k : ℕ) (s : Bytes) (a : S) → P (drop k s) a → Post P Q (scan body k s a)
  unfolding scan
  scan_rule zero [] a h = h
  scan_rule (suc k) [] a h = h
  scan_rule (suc k) (b ∷ bs) a h = scan_rule k bs a h
  scan_rule zero (b ∷ bs) a h =
      turned (body (b ∷ bs) a) (keep b bs a h) (λ n a'. scan_rule (n - 1) bs a')
    where
      turned :
          (t : Turn S R)
          → Ensures P Q (b ∷ bs) t
          → ((n : ℕ) (a' : S) → P (drop (n - 1) bs) a' → Post P Q (scan body (n - 1) bs a'))
          → Post P Q (elim t [ go n a' ↦ scan body (n - 1) bs a' | stop r ↦ stopped r ])
      turned (go n a') (le, h') rec = rec n a' (rw (drop-pred n b bs le) at h')
      turned (stop r) q rec = q

-- Bytes that are skipped do not matter.
pub scan-drop {ℓ κ} :
    {S : Type ℓ} {R : Type κ} (body : Bytes → S → Turn S R) (k : ℕ) (s : Bytes) (a : S)
    → scan body k s a ≡ scan body 0 (drop k s) a
unfolding scan
scan-drop body zero s a = refl
scan-drop body (suc k) [] a = refl
scan-drop body (suc k) (b ∷ bs) a = scan-drop body k bs a

-- A round that goes on.
pub scan-go {ℓ κ} :
    {S : Type ℓ} {R : Type κ} (body : Bytes → S → Turn S R) (b : ℕ) (bs : Bytes) (a : S) (n : ℕ)
    {a' : S}
    → 1 ≤ n
    → body (b ∷ bs) a ≡ go n a'
    → scan body 0 (b ∷ bs) a ≡ scan body 0 (drop n (b ∷ bs)) a'
unfolding scan
scan-go body b bs a n {a'} le e =
    rw (e, scan) (scan-drop body (n - 1) bs a' ∙ rw (drop-pred n b bs le))
