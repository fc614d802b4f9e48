-- ===== src/Paths/Parent.antt =====
-- `psi_vm_parent_directory` of a path that `psi_vm_path_join` has made.
use psi_code.Prelude.{
  byte_at, ℕ, zero, suc, ◌+◌, ◌-◌, ◌≤◌, ◌<◌, ◌≡◌, refl, ap, ◌∙◌, Bool, true, false, ◌&&◌, some, [],
  ◌∷◌, ◌++◌, arith, Bytes, codes, strcmp_eq, length, length-append, take, ◌==◌, ltb, Bool-cases,
  inl, inr,
}
use psi_code.Paths.{
  is_separator, is_abs_path, joined, path_join, trim, last_component, parent_directory,
}

-- A name is some bytes, none of them a separator.
abbrev pub IsName : Bytes → Type 0
IsName [] = Unit
IsName (c ∷ cs) = (is_separator c ≡ false) × IsName cs

byte_at-append : (s t : Bytes) (k : ℕ) → byte_at (s ++ t) (length s + k) ≡ byte_at t k
unfolding byte_at
byte_at-append [] t k = ap (byte_at t) (omega arith)
byte_at-append (x ∷ s) t k =
    let e : length (x ∷ s) + k ≡ suc (length s + k) = omega arith in rw e (byte_at-append s t k)

byte_at-front : (s t : Bytes) (k : ℕ) → k < length s → byte_at (s ++ t) k ≡ byte_at s k
unfolding byte_at
byte_at-front [] t k h = absurd (omega arith)
byte_at-front (x ∷ s) t zero h = refl
byte_at-front (x ∷ s) t (suc k) h = byte_at-front s t k (omega arith)

name-byte : (name : Bytes) (k : ℕ) → IsName name → is_separator (byte_at name k) ≡ false
unfolding byte_at
name-byte [] k h = refl
name-byte (c ∷ cs) zero (h, hs) = h
name-byte (c ∷ cs) (suc k) (h, hs) = name-byte cs k hs

take-length : (s t : Bytes) → take (length s) (s ++ t) ≡ s
take-length [] t = refl
take-length (x ∷ s) t = ap (λ l. x ∷ l) (take-length s t)

module _ (base name : Bytes) (named : IsName name) where
  abbrev whole : Bytes
  whole = base ++ b'/' ∷ name

  slash-at : byte_at whole (length base) ≡ b'/'
  unfolding byte_at
  slash-at = ap (byte_at whole) (omega arith) ∙ byte_at-append base (b'/' ∷ name) 0

  name-at : (k : ℕ) → is_separator (byte_at whole (suc (length base) + k)) ≡ false
  unfolding byte_at
  name-at k =
      let place : suc (length base) + k ≡ length base + suc k = omega arith in
      rw (place, byte_at-append base (b'/' ∷ name) (suc k)) (name-byte name k named)

  trim-whole : (n : ℕ) → trim whole (suc (suc (length base) + n)) ≡ suc (suc (length base) + n)
  unfolding trim
  trim-whole n =
      let long : ltb 1 (suc (suc (length base) + n)) ≡ true = ground arith in
      rw (name-at n, long, trim) refl

  component-whole : (n : ℕ) → last_component whole (suc (length base) + n) ≡ suc (length base)
  unfolding last_component
  component-whole zero =
      let place : suc (length base) + 0 ≡ suc (length base) = omega arith in
      rw place (rw (slash-at, last_component) refl)
  component-whole (suc n) =
      let place : suc (length base) + suc n ≡ suc (suc (length base) + n) = omega arith in
      rw place (rw (name-at n, last_component) (component-whole n))

  module _ (some_base : 1 ≤ length base)
      (open_end : is_separator (byte_at base (length base - 1)) ≡ false) where
    trim-base : (n : ℕ) → length base ≡ suc n → trim whole (suc (length base)) ≡ length base
    unfolding trim
    trim-base n e =
        let long : ltb 1 (suc (length base)) ≡ true = ground arith in
        let last : length base - 1 ≡ n = omega arith in
        let end : is_separator (byte_at whole n) ≡ false =
          rw (byte_at-front base (b'/' ∷ name) n (omega arith)) (rw last at open_end) in
        rw (slash-at, long, trim)
          (rw e (elim (Bool-cases (ltb 1 (suc n))) [
            | inl more ↦ rw (more, end) refl
            | inr one ↦ rw one refl
          ]))

    trim-separator : trim whole (suc (length base)) ≡ length base
    trim-separator = trim-base (length base - 1) (omega arith)

    not_root : (length base == 1 && is_separator (byte_at whole 0)) ≡ false
    not_root = elim (Bool-cases (length base == 1)) [
      | inr longer ↦ rw longer refl
      | inl one ↦
          let first : length base - 1 ≡ 0 = ground arith in
          rw (one, byte_at-front base (b'/' ∷ name) 0 (omega arith)) (rw first at open_end)
    ]

    last-whole :
        (k : ℕ)
        → length name ≡ suc k
        → last_component whole (trim whole (length whole)) ≡ suc (length base)
    last-whole k e =
        let size : length whole ≡ suc (suc (length base) + k) =
          omega (arith, length-append base (b'/' ∷ name)) in
        let place : suc (suc (length base) + k) ≡ suc (length base) + suc k = omega arith in
        ap (λ n. last_component whole (trim whole n)) size
        ∙ ap (last_component whole) (trim-whole k ∙ place)
        ∙ component-whole (suc k)

    parent-whole : (k : ℕ) → length name ≡ suc k → parent_directory true whole ≡ some base
    unfolding parent_directory
    parent-whole k e =
        let some_path : (length whole == 0) ≡ false =
          ground (arith, length-append base (b'/' ∷ name)) in
        let inside : (suc (length base) == 0) ≡ false = ground arith in
        rw (last-whole k e, some_path, inside, trim-separator, not_root, parent_directory)
          (ap some (take-length base (b'/' ∷ name)))

IsName-relative : (name : Bytes) → IsName name → is_abs_path name ≡ false
unfolding is_abs_path
IsName-relative name h =
    let second = name-byte name 2 h in let first = name-byte name 0 h in ground arith

joined-whole :
    (granted : Bool) (base name p : Bytes)
    → is_separator (byte_at base (length base - 1)) ≡ false
    → joined granted base name ≡ some p
    → p ≡ base ++ b'/' ∷ name
unfolding joined
joined-whole granted base name p h e = let e2 = rw (h, joined) at e in ground arith

-- A name without separators that is joined to a directory has that directory as its parent, for a
-- directory that is not empty, not "." and does not end in a separator, whenever the join
-- succeeds and the copy is granted.
pub parent_directory-path_join :
    (granted : Bool) (base name p : Bytes)
    → 1 ≤ length base
    → strcmp_eq base (codes ".") ≡ false
    → is_separator (byte_at base (length base - 1)) ≡ false
    → 1 ≤ length name
    → IsName name
    → path_join granted (some base) (some name) ≡ some p
    → parent_directory true p ≡ some base
unfolding path_join
parent_directory-path_join granted base name p b dot h n named e =
    let some_base : (length base == 0) ≡ false = ground arith in
    let some_name : (length name == 0) ≡ false = ground arith in
    let put = rw (some_base, IsName-relative name named, dot, some_name, path_join) at e in
    rw (joined-whole granted base name p h put)
      (parent-whole base name named b h (length name - 1) (omega arith))
