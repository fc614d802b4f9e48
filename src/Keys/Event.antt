-- ===== src/Keys/Event.antt =====
-- A key event from the bytes of the terminal: `psi_vm_tui_normalize_key` and `lfn_tui_poll_key` of
-- src/lua/vm.c.
use psi_code.Prelude.{
  Integer, pos, negsuc, ℕ, zero, suc, ◌+◌, ◌-◌, Bool, true, false, ◌||◌, ◌&&◌, Option, none, some,
  List, [], ◌∷◌, ◌++◌, Bytes, ◌==◌, leb, ltb, within, if◌then◌else◌,
}
use psi_code.Keys.{
  Arrival, read_byte, is_orphan_escape_final, escape_sequence_complete, collect_escape_sequence,
}
use psi_code.Keys.Names.{
  Key, backspace, tab, ctrl_j, enter, text, ctrl, ctrl_minus, escape_sequence_key,
}

pub record Event : Type 0 where
  pub key : Key
  pub text : Bytes

-- What a call leaves: the event, the input, and `psi_vm_tui_discard_escape_final`.
pub record Polled : Type 0 where
  pub event : Option Event
  pub input : List Arrival
  pub discard : Bool

-- A C string ends at the first NUL.
unfoldable pub c_string : Bytes → Bytes
c_string [] = []
c_string (b ∷ s) = let rest = c_string s in if b == 0 then [] else b ∷ rest

abbrev pub tail_timeout : Integer
tail_timeout = pos 25

-- A round of the loop of `psi_vm_tui_read_utf8_tail`: a byte that does not continue is lost.
abbrev pub continue_with :
    (Bytes → List Arrival → Option Bytes × List Arrival)
    → Bytes
    → Option ℕ × List Arrival
    → Option Bytes × List Arrival
continue_with more out (none, rest) = (none, rest)
continue_with more out (some ch, rest) =
    if within 0x80 0xbf ch then more (out ++ (ch ∷ [])) rest else (none, rest)

-- So many continuation bytes behind what has been read.
unfoldable pub read_continuations : ℕ → Bytes → List Arrival → Option Bytes × List Arrival
unfolding read_byte
read_continuations zero out input = (some out, input)
read_continuations (suc n) out input =
    continue_with (read_continuations n) out (read_byte tail_timeout input)

unfoldable pub read_utf8_tail : ℕ → List Arrival → Option Bytes × List Arrival
unfolding read_continuations
read_utf8_tail lead input =
    if ltb lead 0xc2 || ltb 0xf4 lead
    then (none, input)
    else read_continuations (if leb lead 0xdf then 1 else if leb lead 0xef then 2 else 3)
        (lead ∷ []) input

abbrev pub polled : Key → Bytes → List Arrival → Polled
polled key typed input = record {
  event = some (record { key = key; text = typed });
  input = input;
  discard = false;
}

abbrev pub nothing : List Arrival → Bool → Polled
nothing input discard = record { event = none; input = input; discard = discard }

abbrev pub reported : Option Key → List Arrival → Polled
reported none rest = nothing rest false
reported (some key) rest = polled key [] rest

-- Behind an ESC.
unfoldable pub escape_event : List Arrival → Polled
escape_event input =
    let (held, rest) = collect_escape_sequence input in
    let sequence = c_string held in
    if escape_sequence_complete sequence
    then reported (escape_sequence_key sequence) rest
    else nothing rest true

abbrev pub typed_text : Option Bytes × List Arrival → Polled
typed_text (none, rest) = nothing rest false
typed_text (some bytes, rest) = polled text bytes rest

unfoldable pub text_event : ℕ → List Arrival → Polled
unfolding read_utf8_tail
text_event ch input = typed_text (read_utf8_tail ch input)

-- `isprint` is that of the C and the UTF-8 locales.
unfoldable pub normalize_key : Bool → ℕ → List Arrival → Polled
normalize_key discard ch input =
    if discard && is_orphan_escape_final ch
    then nothing input false
    else if ch == 27
    then escape_event input
    else if ch == 127 || ch == 8
    then polled backspace [] input
    else if ch == 0x09
    then polled tab (0x09 ∷ []) input
    else if ch == 0x0d || ch == 0x0a
    then polled (if ch == 0x0a then ctrl_j else enter) (ch ∷ []) input
    else if ch == 31
    then polled ctrl_minus [] input
    else if within 1 26 ch
    then polled (ctrl (b'a' + ch - 1)) [] input
    else if leb 0xc2 ch
    then text_event ch input
    else if within 0x20 0x7e ch
    then polled text (ch ∷ []) input
    else nothing input false

-- The wait of `lfn_tui_poll_key`, at most an hour when it is bounded.
abbrev pub clamp_timeout : Integer → Integer
clamp_timeout (negsuc n) = negsuc 0
clamp_timeout (pos n) = if ltb 3600000 n then pos 3600000 else pos n

abbrev pub on_answer : Bool → Option ℕ × List Arrival → Polled
on_answer discard (none, rest) = nothing rest discard
on_answer discard (some ch, rest) = normalize_key discard ch rest

unfoldable pub poll_key : Integer → Bool → List Arrival → Polled
poll_key timeout_ms discard input = on_answer discard (read_byte (clamp_timeout timeout_ms) input)
