-- ===== src/Keys/Wheel.antt =====
-- A mouse report from its bytes to the event.
use psi_code.Prelude.{
  Integer, pos, negsuc, ℕ, ◌+◌, ◌-◌, ◌*◌, ◌^◌, ◌≤◌, ◌<◌, ◌≡◌, refl, Bool, true, some, List, [], ◌∷◌,
  ◌++◌, arith, Bytes, length, within,
}
use psi_code.Keys.{Arrival, read_byte}
use psi_code.Keys.Scanf.{is_digit, Triple}
use psi_code.Keys.Event.{normalize_key, poll_key, clamp_timeout}

abbrev pub AllDigits : Bytes → Type 0
AllDigits [] = Unit {0}
AllDigits (d ∷ ds) = (is_digit d ≡ true) × AllDigits ds

-- The number that digits stand for, behind the digits of another.
abbrev pub value_from : ℕ → Bytes → ℕ
value_from n [] = n
value_from n (d ∷ ds) = value_from (n * 10 + (d - b'0')) ds

-- A number of an `unsigned int` in decimal.
pub record IsNumber (ds : Bytes) : Type 0 where
  pub some_digit : 1 ≤ length ds
  pub all_digits : AllDigits ds
  pub small : value_from 0 ds < 2 ^ 32

-- The bytes that a control sequence has in front of its final one: `0` to `?`.
abbrev AllParams : Bytes → Type 0
AllParams [] = Unit {0}
AllParams (p ∷ s) = (within 0x30 0x3f p ≡ true) × AllParams s

read_byte-ready :
    (timeout : Integer) (b : ℕ) (rest : List Arrival)
    → read_byte timeout (record { gap = 0; byte = b } ∷ rest) ≡ (some b, rest)
unfolding read_byte
read_byte-ready (negsuc n) b rest = refl
read_byte-ready (pos n) b rest = ground arith

-- A byte that is there is read whatever the timeout.
pub poll_key-ready :
    (timeout : Integer) (discard : Bool) (b : ℕ) (rest : List Arrival)
    → poll_key timeout discard (record { gap = 0; byte = b } ∷ rest) ≡ normalize_key discard b rest
unfolding poll_key
poll_key-ready timeout discard b rest = rw (read_byte-ready (clamp_timeout timeout) b rest) refl

module _ (bs cs rs : Bytes) (b_number : IsNumber bs) (c_number : IsNumber cs)
    (r_number : IsNumber rs) where
  abbrev report : Triple
  report = record {
    first = value_from 0 bs;
    second = value_from 0 cs;
    third = value_from 0 rs;
    final = b'M';
  }

  abbrev fields : Bytes
  fields = bs ++ (b';' ∷ (cs ++ (b';' ∷ rs)))
