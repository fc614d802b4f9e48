-- ===== src/Text/Sgr/Resets.antt =====
-- Which sequences `psi_vm_text_sgr_resets` takes for a reset.
use psi_code.Prelude.{
  ℕ, ◌+◌, ◌-◌, ◌*◌, ◌^◌, ◌≤◌, ◌<◌, ◌≡◌, refl, ap, ◌∙◌, Bool, true, false, ◌||◌, List, [], ◌∷◌, ◌++◌,
  append_assoc, arith, Bytes, length, length-append, ◌==◌, Bool-cases, inl, inr,
}
use psi_code.Text.Escape.{esc}
use psi_code.Text.Sgr.{is_digit, last_byte, is_sgr, next_value, any_zero, sgr_resets}

abbrev pub AreDigits : Bytes → Type 0
AreDigits [] = Unit
AreDigits (d ∷ ds) = (is_digit d ≡ true) × AreDigits ds

-- The number that digits write, behind a value.
abbrev pub number : Bytes → ℕ → ℕ
number [] v = v
number (d ∷ ds) v = number ds (v * 10 + (d - b'0'))

-- A parameter: its first digit, and the others.
pub record Parameter : Type 0 where
  pub first : ℕ
  pub others : Bytes

abbrev pub digits : Parameter → Bytes
digits p = p.first ∷ p.others

-- A parameter in decimal that an `int` holds.
abbrev pub IsInt : Parameter → Type 0
IsInt p = AreDigits (digits p) × (number (digits p) 0 < 2 ^ 31)

-- The parameters with a `;` between them.
abbrev pub separated_behind : Bytes → List Parameter → Bytes
separated_behind others [] = others
separated_behind others (q ∷ qs) = others ++ b';' ∷ q.first ∷ separated_behind q.others qs

abbrev pub separated : Parameter → List Parameter → Bytes
separated p ps = p.first ∷ separated_behind p.others ps

abbrev pub AllInts : Parameter → List Parameter → Type 0
AllInts p [] = IsInt p
AllInts p (q ∷ qs) = IsInt p × AllInts q qs

abbrev pub has_zero : Parameter → List Parameter → Bool
has_zero p [] = number (digits p) 0 == 0
has_zero p (q ∷ qs) = number (digits p) 0 == 0 || has_zero q qs

number-le : (ds : Bytes) (v : ℕ) → v ≤ number ds v
number-le [] v = omega arith
number-le (d ∷ ds) v = omega (arith, number-le ds (v * 10 + (d - b'0')))

next_value-small : (v d : ℕ) → v * 10 + (d - b'0') < 2 ^ 31 → next_value v d ≡ v * 10 + (d - b'0')
next_value-small v d h = omega (arith, h)

-- Digits are read up to what stands behind them.
any_zero-digits :
    (d : ℕ) (ds rest : Bytes) (c v : ℕ) (saw : Bool)
    → AreDigits (d ∷ ds)
    → number (d ∷ ds) v < 2 ^ 31
    → any_zero (d ∷ ds ++ c ∷ rest) v saw ≡ any_zero (c ∷ rest) (number (d ∷ ds) v) true
unfolding any_zero
any_zero-digits d [] rest c v saw (h, hs) small = rw (h, next_value-small v d small, any_zero) refl
any_zero-digits d (e ∷ ds) rest c v saw (h, hs) small =
    let below : v * 10 + (d - b'0') < 2 ^ 31 =
      omega (arith, small, number-le (e ∷ ds) (v * 10 + (d - b'0'))) in
    rw (h, next_value-small v d below, any_zero)
      (any_zero-digits e ds rest c (v * 10 + (d - b'0')) true hs small)

any_zero-semicolon :
    (x : ℕ) (xs : Bytes) (v : ℕ)
    → any_zero (b';' ∷ x ∷ xs) v true ≡ ((v == 0) || any_zero (x ∷ xs) 0 false)
unfolding any_zero
any_zero-semicolon x xs v = elim (Bool-cases (v == 0)) [
  | inl e ↦ rw (e, any_zero) refl
  | inr e ↦ rw (e, any_zero) refl
]

any_zero-separated :
    (p : Parameter) (ps : List Parameter)
    → AllInts p ps
    → any_zero (separated p ps ++ b'm' ∷ []) 0 false ≡ has_zero p ps
unfolding any_zero
any_zero-separated p [] (h, small) = any_zero-digits p.first p.others [] b'm' 0 false h small
any_zero-separated p (q ∷ qs) ((h, small), hs) =
    let end : Bytes = b'm' ∷ [] in
    ap (λ l. any_zero (p.first ∷ l) 0 false) (append_assoc p.others (b';' ∷ separated q qs) end)
    ∙ any_zero-digits p.first p.others (separated q qs ++ end) b';' 0 false h small
    ∙ any_zero-semicolon q.first (separated_behind q.others qs ++ end) (number (digits p) 0)
    ∙ ap (λ z. number (digits p) 0 == 0 || z) (any_zero-separated q qs hs)

last_byte-append : (s : Bytes) (b : ℕ) → last_byte (s ++ b ∷ []) ≡ b
unfolding last_byte
last_byte-append [] b = refl
last_byte-append (x ∷ []) b = refl
last_byte-append (x ∷ y ∷ s) b = last_byte-append (y ∷ s) b

is_sgr-separated :
    (p : Parameter) (ps : List Parameter)
    → is_sgr (esc ∷ b'[' ∷ (separated p ps ++ b'm' ∷ [])) ≡ true
unfolding is_sgr
is_sgr-separated p ps =
    let end = last_byte-append (esc ∷ b'[' ∷ separated p ps) b'm' in ground (arith, end)

-- An SGR sequence written from decimal parameters below 2^31 is taken for a reset exactly when
-- one of the parameters is 0, also when that 0 is a part of a color.
pub sgr_resets-has_zero :
    (p : Parameter) (ps : List Parameter)
    → AllInts p ps
    → sgr_resets (esc ∷ b'[' ∷ (separated p ps ++ b'm' ∷ [])) ≡ has_zero p ps
unfolding sgr_resets
sgr_resets-has_zero p ps h =
    let long : (length (esc ∷ b'[' ∷ (separated p ps ++ b'm' ∷ [])) == 3) ≡ false =
      ground (arith, length-append (separated_behind p.others ps) (b'm' ∷ [])) in
    rw (is_sgr-separated p ps, long, sgr_resets) (any_zero-separated p ps h)
