-- ===== src/Keys/Names.antt =====
-- The name of an escape sequence: `psi_vm_tui_escape_sequence_key` of src/lua/vm.c.
use psi_code.Prelude.{
  ℕ, ◌/◌, ◌%◌, Bool, not, ◌||◌, ◌&&◌, Option, none, some, List, [], ◌∷◌, Bytes, codes, strcmp_eq,
  ◌==◌, leb, if◌then◌else◌,
}
use psi_code.Keys.Scanf.{Pair, Triple, scan_pair, scan_triple, scan_mouse}

-- The names of the keys.
pub data Key : Type 0 where
  escape alt_b alt_f alt_d alt_y alt_backspace alt_enter : Key
  up down right left shift_tab home end delete paste_start paste_end page_up page_down : Key
  ctrl_up ctrl_down ctrl_right ctrl_left alt_up alt_down alt_right alt_left : Key
  ctrl_home ctrl_end alt_delete ctrl_page_up ctrl_page_down : Key
  alt_wheel_up wheel_up alt_wheel_down wheel_down shift_enter shift_ctrl_p ctrl_minus : Key
  backspace tab ctrl_j enter text : Key
  -- `"ctrl-a"` and the letters behind it, by the letter
  ctrl : ℕ → Key

-- The sequences that are compared as a whole, in the order of the comparisons.
abbrev pub named : List (Bytes × Key)
named =
    (codes "b", alt_b)
    ∷ ((codes "B", alt_b)
        ∷ ((codes "f", alt_f)
            ∷ ((codes "F", alt_f)
                ∷ ((codes "d", alt_d)
                    ∷ ((codes "D", alt_d)
                        ∷ ((codes "y", alt_y)
                            ∷ ((codes "Y", alt_y)
                                ∷ ((0x08 ∷ [], alt_backspace)
                                    ∷ ((0x7f ∷ [], alt_backspace)
                                        ∷ ((0x0d ∷ [], alt_enter)
                                            ∷ ((0x0a ∷ [], alt_enter)
                                                ∷ ((codes "[A", up)
                                                    ∷ ((codes "OA", up)
                                                        ∷ ((codes "[B", down)
                                                            ∷ ((codes "OB", down)
                                                            ∷ ((codes "[C", right)
                                                            ∷ ((codes "OC", right)
                                                            ∷ ((codes "[D", left)
                                                            ∷ ((codes "OD", left)
                                                            ∷ ((codes "[Z", shift_tab)
                                                            ∷ ((codes "[H", home)
                                                            ∷ ((codes "OH", home)
                                                            ∷ ((codes "[1~", home)
                                                            ∷ ((codes "[7~", home)
                                                            ∷ ((codes "[F", end)
                                                            ∷ ((codes "OF", end)
                                                            ∷ ((codes "[4~", end)
                                                            ∷ ((codes "[8~", end)
                                                            ∷ ((codes "[3~", delete)
                                                            ∷ ((codes "[200~", paste_start)
                                                            ∷ ((codes "[201~", paste_end)
                                                            ∷ ((codes "[5~", page_up)
                                                            ∷ ((codes "[6~", page_down)
                                                            ∷ [])))))))))))))))))))))))))))))))))

unfoldable pub lookup : Bytes → List (Bytes × Key) → Option Key
lookup s [] = none
lookup s ((t, k) ∷ m) = if strcmp_eq s t then some k else lookup s m

-- An arrow letter as one of four keys.
abbrev pub arrow : ℕ → Key → Key → Key → Key → Option Key → Option Key
arrow final a b c d other =
    if final == b'A'
    then some a
    else if final == b'B'
    then some b
    else if final == b'C'
    then some c
    else if final == b'D'
    then some d
    else other

-- The modifiers of `PSI_VM_TUI_MODIFIER_*`.
abbrev pub mod_shift : ℕ
mod_shift = 2

abbrev pub mod_alt : ℕ
mod_alt = 3

abbrev pub mod_alt_shift : ℕ
mod_alt_shift = 4

abbrev pub mod_ctrl : ℕ
mod_ctrl = 5

abbrev pub mod_shift_ctrl : ℕ
mod_shift_ctrl = 6

abbrev pub enter_of : ℕ → Key
enter_of modifier =
    if modifier == mod_alt || modifier == mod_alt_shift then alt_enter else shift_enter

-- The pairs behind the mouse: the Enter encodings and the three of CSI-u.
unfoldable pub late_pair : Pair → Option Key
late_pair p =
    if (p.final == b'u' || p.final == b'~')
      && ((p.first == 13 || p.first == 57414) && leb 2 p.second)
    then some (enter_of p.second)
    else if p.final == b'u' && (p.first == 9 && p.second == mod_shift)
    then some shift_tab
    else if p.final == b'u' && (p.first == 112 && p.second == mod_shift_ctrl)
    then some shift_ctrl_p
    else if p.final == b'u' && (p.first == 45 && p.second == mod_ctrl)
    then some ctrl_minus
    else none

-- The pairs in front of the mouse, and `other` where they give no name.
unfoldable pub early_pair : Pair → Option Key → Option Key
early_pair p other =
    let single : Option Key =
      if p.first == 1 && (p.second == mod_ctrl && p.final == b'H')
      then some ctrl_home
      else if p.first == 1 && (p.second == mod_ctrl && p.final == b'F')
      then some ctrl_end
      else if p.first == 3 && (p.second == mod_alt && p.final == b'~')
      then some alt_delete
      else if p.first == 5 && (p.second == mod_ctrl && p.final == b'~')
      then some ctrl_page_up
      else if p.first == 6 && (p.second == mod_ctrl && p.final == b'~')
      then some ctrl_page_down
      else other in
    let alt : Option Key =
      if p.first == 1 && p.second == mod_alt
      then arrow p.final alt_up alt_down alt_right alt_left single
      else single in
    if p.first == 1 && p.second == mod_ctrl
    then arrow p.final ctrl_up ctrl_down ctrl_right ctrl_left alt
    else alt

-- `button & 64` and `button & 8` as tests, and `button & 3`.
abbrev pub has_bit : ℕ → ℕ → Bool
has_bit weight button = not (button / weight % 2 == 0)

-- What a mouse report means: the wheel, or nothing.
unfoldable pub mouse_key : Triple → Option Key
mouse_key m =
    if m.final == b'M' && has_bit 64 m.first
    then if m.first % 4 == 0
      then some (if has_bit 8 m.first then alt_wheel_up else wheel_up)
      else if m.first % 4 == 1
      then some (if has_bit 8 m.first then alt_wheel_down else wheel_down)
      else none
    else none

unfoldable pub legacy_enter : Triple → Option Key → Option Key
legacy_enter m other =
    if m.final == b'~' && (m.first == 27 && (m.third == 13 && leb 2 m.second))
    then some (enter_of m.second)
    else other

abbrev pub with_pair : Option Pair → (Pair → Option Key) → Option Key → Option Key
with_pair none f other = other
with_pair (some p) f other = f p

abbrev pub with_triple : Option Triple → (Triple → Option Key) → Option Key → Option Key
with_triple none f other = other
with_triple (some m) f other = f m

-- From the mouse report on.
unfoldable pub late_key : Bytes → Option Key
unfolding late_pair mouse_key legacy_enter scan_pair scan_triple scan_mouse
late_key s =
    let pairs = with_pair (scan_pair s) late_pair none in
    let enters = with_triple (scan_triple s) (λ m. legacy_enter m pairs) pairs in
    with_triple (scan_mouse s)
      (λ m. if m.final == b'M' || m.final == b'm' then mouse_key m else enters) enters

unfoldable pub escape_sequence_key : Bytes → Option Key
unfolding early_pair late_key lookup scan_pair
escape_sequence_key [] = some escape
escape_sequence_key (b ∷ s) = elim (lookup (b ∷ s) named) [
  | some k ↦ some k
  | none ↦
      let other = late_key (b ∷ s) in with_pair (scan_pair (b ∷ s)) (λ p. early_pair p other) other
]
