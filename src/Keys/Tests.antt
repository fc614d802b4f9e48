-- ===== src/Keys/Tests.antt =====
-- Runs of the key reader, and its theorems at concrete inputs.
use psi_code.Prelude.{
  pos, negsuc, ◌≡◌, refl, true, false, some, [], ◌∷◌, ◌++◌, arith, codes, strcmp_eq,
}
use psi_code.Text.Utf8.{encode_utf8}
use psi_code.Keys.{
  Arrival, read_byte, collect_escape_sequence, escape_sequence_complete, is_orphan_escape_final,
}
use psi_code.Keys.Names.{ctrl_up, wheel_up, escape, text, mouse_key, escape_sequence_key}
use psi_code.Keys.Event.{polled, nothing, c_string, escape_event, normalize_key, poll_key}
use psi_code.Keys.Collect.{typed, bytes_of, Splits, collect_escape_sequence-Splits}
use psi_code.Keys.Mouse.{Button, turned_down}
use psi_code.Keys.Wheel.{IsNumber}
use psi_code.Keys.Typed.{burst, poll_key-typed}

abbrev esc_now : Arrival
esc_now = record { gap = 0; byte = 27 }

-- ESC [ 1 ; 5 A
ctrl_up_arrow :
    poll_key (negsuc 0) false (esc_now ∷ typed (λ n. 1) (codes "[1;5A")) ≡ polled ctrl_up [] []
unfolding poll_key read_byte normalize_key escape_event collect_escape_sequence
    escape_sequence_complete c_string escape_sequence_key is_orphan_escape_final strcmp_eq
ctrl_up_arrow = refl

-- A letter that comes too late is no part of the sequence.
escape_alone :
    poll_key (pos 100) false (esc_now ∷ typed (λ n. 40) (codes "x"))
    ≡ polled escape [] (typed (λ n. 15) (codes "x"))
unfolding poll_key read_byte normalize_key escape_event collect_escape_sequence
    escape_sequence_complete c_string escape_sequence_key is_orphan_escape_final
escape_alone = refl

-- A sequence without its end swallows a letter of the next call.
orphan : (poll_key (pos 100) false (esc_now ∷ typed (λ n. 6) (codes "["))).discard ≡ true
unfolding poll_key read_byte normalize_key escape_event collect_escape_sequence
    escape_sequence_complete c_string escape_sequence_key is_orphan_escape_final
orphan = refl

orphan_dropped :
    poll_key (pos 100) true (typed (λ n. 6) (codes "Ax"))
    ≡ nothing (typed (λ n. 6) (codes "x")) false
unfolding poll_key read_byte normalize_key is_orphan_escape_final
orphan_dropped = refl

abbrev seventy_three : IsNumber (codes "73")
seventy_three = record {
  some_digit = omega arith;
  all_digits = (refl, (refl, tt));
  small = omega arith;
}

abbrev ten : IsNumber (codes "10")
ten = record { some_digit = omega arith; all_digits = (refl, (refl, tt)); small = omega arith }

-- The wheel turned down with Alt held, each byte with its own gap.
abbrev alt_down : Button
alt_down = record {
  part = turned_down;
  shift = false;
  meta = true;
  control = false;
  motion = false;
}

wheel : mouse_key (record { first = 64; second = 10; third = 10; final = b'M' }) ≡ some wheel_up
unfolding mouse_key
wheel = refl

poll_key-typed_example :
    poll_key (pos 100) true (burst (λ n. 2) (encode_utf8 0x20ac) ++ typed (λ n. 9) (codes "q"))
    ≡ polled text (encode_utf8 0x20ac) (typed (λ n. 9) (codes "q"))
poll_key-typed_example =
    poll_key-typed (pos 100) true 0x20ac (λ n. 2) (typed (λ n. 9) (codes "q")) (omega arith)
      (omega arith) (λ n. omega arith)

collect_escape_sequence-Splits_example :
    Splits
      (bytes_of (typed (λ n. 1) (codes "[A;rest")))
      (collect_escape_sequence (typed (λ n. 1) (codes "[A;rest")))
collect_escape_sequence-Splits_example =
    collect_escape_sequence-Splits (typed (λ n. 1) (codes "[A;rest"))
