-- ===== src/Keys/Scanf.antt =====
-- The conversions of `sscanf` that the key table uses: literals, `%u` and `%c`.
use psi_code.Prelude.{
  ℕ, ◌+◌, ◌-◌, ◌*◌, ◌%◌, ◌^◌, Bool, true, false, ◌||◌, Option, none, some, ◌>>=◌, [], ◌∷◌, Bytes,
  ◌==◌, leb, within, if◌then◌else◌,
}

abbrev pub is_digit : ℕ → Bool
is_digit c = within b'0' b'9' c

abbrev pub is_space : ℕ → Bool
is_space c = c == b' ' || within 0x09 0x0d c

unfoldable pub skip_space : Bytes → Bytes
skip_space [] = []
skip_space (c ∷ s) = let rest = skip_space s in if is_space c then rest else c ∷ s

-- The digits from here on, on top of the value so far, and the rest.
unfoldable pub digits_from : ℕ → Bytes → ℕ × Bytes
digits_from n [] = (n, [])
digits_from n (c ∷ s) =
    let further = digits_from (n * 10 + (c - b'0')) s in if is_digit c then further else (n, c ∷ s)

-- At least one digit.
unfoldable pub digits : Bytes → Option (ℕ × Bytes)
unfolding digits_from
digits [] = none
digits (c ∷ s) = if is_digit c then some (digits_from 0 (c ∷ s)) else none

-- An `unsigned int` from `strtoul` with 64 bits, which saturates, and negates behind a minus.
abbrev pub unsigned_of : Bool → ℕ → ℕ
unsigned_of negative n =
    if leb (2 ^ 64) n then 2 ^ 32 - 1 else if negative then (2 ^ 64 - n) % 2 ^ 32 else n % 2 ^ 32

abbrev pub converted : Bool → Option (ℕ × Bytes) → Option (ℕ × Bytes)
converted negative none = none
converted negative (some (n, rest)) = some (unsigned_of negative n, rest)

unfoldable pub behind_space : Bytes → Option (ℕ × Bytes)
unfolding digits
behind_space [] = none
behind_space (c ∷ s) =
    if c == b'-'
    then converted true (digits s)
    else if c == b'+'
    then converted false (digits s)
    else converted false (digits (c ∷ s))

unfoldable pub scan_unsigned : Bytes → Option (ℕ × Bytes)
unfolding skip_space behind_space
scan_unsigned s = behind_space (skip_space s)

unfoldable pub scan_literal : ℕ → Bytes → Option Bytes
scan_literal b [] = none
scan_literal b (c ∷ s) = if c == b then some s else none

unfoldable pub scan_char : Bytes → Option ℕ
scan_char [] = none
scan_char (c ∷ s) = some c

pub record Pair : Type 0 where
  pub first : ℕ
  pub second : ℕ
  pub final : ℕ

pub record Triple : Type 0 where
  pub first : ℕ
  pub second : ℕ
  pub third : ℕ
  pub final : ℕ

-- `"%u;%u;%u%c"`
unfoldable pub scan_numbers : Bytes → Option Triple
unfolding scan_unsigned scan_literal scan_char
scan_numbers s = do
  (first, s1) ← scan_unsigned s
  s2 ← scan_literal b';' s1
  (second, s3) ← scan_unsigned s2
  s4 ← scan_literal b';' s3
  (third, s5) ← scan_unsigned s4
  final ← scan_char s5
  some (record { first = first; second = second; third = third; final = final })

-- `"[%u;%u%c"`
unfoldable pub scan_pair : Bytes → Option Pair
unfolding scan_unsigned scan_literal scan_char
scan_pair s = do
  s1 ← scan_literal b'[' s
  (first, s2) ← scan_unsigned s1
  s3 ← scan_literal b';' s2
  (second, s4) ← scan_unsigned s3
  final ← scan_char s4
  some (record { first = first; second = second; final = final })

-- `"[%u;%u;%u%c"`
unfoldable pub scan_triple : Bytes → Option Triple
unfolding scan_literal scan_numbers
scan_triple s = do s1 ← scan_literal b'[' s; scan_numbers s1

-- `"[<%u;%u;%u%c"`
unfoldable pub scan_mouse : Bytes → Option Triple
unfolding scan_literal scan_numbers
scan_mouse s = do s1 ← scan_literal b'[' s; s2 ← scan_literal b'<' s1; scan_numbers s2
