-- ===== src/Keys.antt =====
-- The keys of the terminal in src/lua/vm.c: reading bytes with a timeout, and collecting an escape
-- sequence.
pub mod Scanf
pub mod Names
pub mod Event
pub mod Collect
pub mod Mouse
pub mod Wheel
pub mod Typed
pub mod Tests
use psi_code.Prelude.{
  Integer, pos, negsuc, ℕ, ◌+◌, ◌-◌, Bool, true, false, ◌||◌, Option, none, some, List, [], ◌∷◌,
  ◌++◌, Bytes, length, ◌==◌, leb, within, if◌then◌else◌,
}

-- A byte of the input and the milliseconds that pass before it can be read.
pub record Arrival : Type 0 where
  pub gap : ℕ
  pub byte : ℕ

-- `psi_vm_tui_read_byte`: `none` is -1. A negative timeout waits for ever, and behind the last byte
-- the input is closed.
unfoldable pub read_byte : Integer → List Arrival → Option ℕ × List Arrival
read_byte timeout [] = (none, [])
read_byte (negsuc n) (a ∷ rest) = (some a.byte, rest)
read_byte (pos ms) (a ∷ rest) =
    if leb a.gap ms then (some a.byte, rest) else (none, record a { gap = a.gap - ms } ∷ rest)

unfoldable pub is_csi_final : ℕ → Bool
is_csi_final ch = within 0x40 0x7e ch

unfoldable pub is_orphan_escape_final : ℕ → Bool
is_orphan_escape_final ch = ch == b'~' || (within b'A' b'Z' ch || within b'a' b'z' ch)

unfoldable pub has_final : Bytes → Bool
unfolding is_csi_final
has_final [] = false
has_final (b ∷ s) = is_csi_final b || has_final s

unfoldable pub escape_sequence_complete : Bytes → Bool
unfolding has_final
escape_sequence_complete [] = true
escape_sequence_complete (b ∷ s) =
    if b == b'[' then has_final s else if b == b'O' then leb 1 (length s) else true

-- `PSI_VM_TUI_ESCAPE_SEQUENCE_MAX`
abbrev pub sequence_max : ℕ
sequence_max = 64

abbrev pub initial_timeout : ℕ
initial_timeout = 25

abbrev pub continue_timeout : ℕ
continue_timeout = 5

-- The loop of `psi_vm_tui_collect_escape_sequence`, each round by what `read_byte` answers. The byte
-- that finds the buffer full has been read and is lost.
unfoldable pub collect : ℕ → Bytes → List Arrival → Bytes × List Arrival
unfolding escape_sequence_complete
collect timeout held [] = (held, [])
collect timeout held (a ∷ rest) =
    let further = collect continue_timeout (held ++ (a.byte ∷ [])) rest in
    if leb a.gap timeout
    then if leb sequence_max (length held + 1)
      then (held, rest)
      else if escape_sequence_complete (held ++ (a.byte ∷ []))
      then (held ++ (a.byte ∷ []), rest)
      else further
    else (held, record a { gap = a.gap - timeout } ∷ rest)

unfoldable pub collect_escape_sequence : List Arrival → Bytes × List Arrival
unfolding collect
collect_escape_sequence input = collect initial_timeout [] input
