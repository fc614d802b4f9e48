-- ===== src/Keys/Mouse.antt =====
-- Mouse buttons as a terminal numbers them in a report (the SGR coding of xterm), and the keys of
-- src/lua/vm.c for them.
use psi_code.Prelude.{
  ℕ, ◌+◌, ◌%◌, ◌≡◌, refl, ◌∙◌, ap, Bool, true, false, Option, none, some, arith, leb, if◌then◌else◌,
}
use psi_code.Keys.Scanf.{Triple}
use psi_code.Keys.Names.{
  Key, alt_wheel_up, wheel_up, alt_wheel_down, wheel_down, has_bit, mouse_key,
}

-- The wheel turned up, down, to the left or to the right; or the left, middle or right button, or
-- none, as it is pressed.
pub data Part : Type 0 where
  turned_up turned_down turned_left turned_right : Part
  left_button middle_button right_button no_button : Part

-- The modifiers, and whether the mouse was moving.
pub record Button : Type 0 where
  pub part : Part
  pub shift : Bool
  pub meta : Bool
  pub control : Bool
  pub motion : Bool

abbrev pub part_code : Part → ℕ
part_code turned_up = 64
part_code turned_down = 65
part_code turned_left = 66
part_code turned_right = 67
part_code left_button = 0
part_code middle_button = 1
part_code right_button = 2
part_code no_button = 3

abbrev pub weight : Bool → ℕ → ℕ
weight b n = if b then n else 0

-- The number of a report.
abbrev pub button_code : Button → ℕ
button_code b =
    part_code b.part + weight b.shift 4 + weight b.meta 8 + weight b.control 16 + weight b.motion 32

abbrev part_key : Part → Bool → Option Key
part_key turned_up false = some wheel_up
part_key turned_up true = some alt_wheel_up
part_key turned_down false = some wheel_down
part_key turned_down true = some alt_wheel_down
part_key p meta = none

-- The key of a button: the wheel up and down, with Alt or without, and no other.
abbrev pub button_key : Button → Option Key
button_key b = part_key b.part b.meta

-- The three parts of the number that the code looks at.
abbrev is_wheel : Part → Bool
is_wheel p = leb 64 (part_code p)

bit_64 :
    (p : Part) (s m c o : Bool)
    → has_bit 64 (part_code p + weight s 4 + weight m 8 + weight c 16 + weight o 32) ≡ is_wheel p
bit_64 turned_up s m c o = ground arith
bit_64 turned_down s m c o = ground arith
bit_64 turned_left s m c o = ground arith
bit_64 turned_right s m c o = ground arith
bit_64 left_button s m c o = ground arith
bit_64 middle_button s m c o = ground arith
bit_64 right_button s m c o = ground arith
bit_64 no_button s m c o = ground arith

bit_8 :
    (p : Part) (s m c o : Bool)
    → has_bit 8 (part_code p + weight s 4 + weight m 8 + weight c 16 + weight o 32) ≡ m
bit_8 turned_up s m c o = ground arith
bit_8 turned_down s m c o = ground arith
bit_8 turned_left s m c o = ground arith
bit_8 turned_right s m c o = ground arith
bit_8 left_button s m c o = ground arith
bit_8 middle_button s m c o = ground arith
bit_8 right_button s m c o = ground arith
bit_8 no_button s m c o = ground arith

low_two :
    (p : Part) (s m c o : Bool)
    → (part_code p + weight s 4 + weight m 8 + weight c 16 + weight o 32) % 4 ≡ part_code p % 4
low_two p s m c o = ground arith

by_parts :
    (p : Part) (m : Bool) (t : Triple)
    → t.final ≡ b'M'
    → has_bit 64 t.first ≡ is_wheel p
    → has_bit 8 t.first ≡ m
    → t.first % 4 ≡ part_code p % 4
    → mouse_key t ≡ part_key p m
unfolding mouse_key
by_parts turned_up true t f w a l = rw (f, w, a, l) refl
by_parts turned_up false t f w a l = rw (f, w, a, l) refl
by_parts turned_down true t f w a l = rw (f, w, a, l) refl
by_parts turned_down false t f w a l = rw (f, w, a, l) refl
by_parts turned_left m t f w a l = rw (f, w, l) refl
by_parts turned_right m t f w a l = rw (f, w, l) refl
by_parts left_button m t f w a l = rw (f, w) refl
by_parts middle_button m t f w a l = rw (f, w) refl
by_parts right_button m t f w a l = rw (f, w) refl
by_parts no_button m t f w a l = rw (f, w) refl

pub mouse_key-button :
    (b : Button) (t : Triple)
    → t.first ≡ button_code b
    → t.final ≡ b'M'
    → mouse_key t ≡ button_key b
mouse_key-button b t e f =
    by_parts b.part b.meta t f (ap (has_bit 64) e ∙ bit_64 b.part b.shift b.meta b.control b.motion)
      (ap (has_bit 8) e ∙ bit_8 b.part b.shift b.meta b.control b.motion)
      (ap (λ n. n % 4) e ∙ low_two b.part b.shift b.meta b.control b.motion)
