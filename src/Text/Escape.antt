-- ===== src/Text/Escape.antt =====
-- Terminal escape sequences: `psi_vm_text_read_escape`, the line ends of
-- `psi_vm_text_hard_newline_end`, and the stripping of `lfn_tui_text_strip_ansi`.
pub mod Strip
use psi_code.Prelude.{
  ℕ, zero, suc, ◌+◌, ◌-◌, ◌≤◌, ◌<◌, ◌≡◌, ◌≢◌, refl, ap, ◌∙◌, sym, Bool, true, false, ◌&&◌, ◌||◌,
  Option, none, some, List, [], ◌∷◌, ◌++◌, arith, Bytes, drop, take, length, ◌==◌, leb, within,
  if◌then◌else◌, Bool-cases, append_assoc, inl, inr, ◌⊎◌,
}
use psi_code.Text.Scan.{Turn, go, stop, End, ran, stopped, scan, scan_rule, scan-drop}

abbrev pub esc : ℕ
esc = 0x1b

abbrev pub bel : ℕ
bel = 0x07

-- `PSI_VM_TEXT_CSI_FINAL_MIN` to `PSI_VM_TEXT_CSI_FINAL_MAX`
abbrev pub is_csi_final : ℕ → Bool
is_csi_final b = within 0x40 0x7e b

-- the loop behind `ESC [`: the bytes up to and with the final byte, or all
unfoldable pub csi_length : Bytes → ℕ
csi_length [] = 0
csi_length (b ∷ bs) = let rest = csi_length bs in if is_csi_final b then 1 else rest + 1

-- `text[j + 1] == '\\'` within the text
abbrev pub backslash_next : Bytes → Bool
backslash_next [] = false
backslash_next (b ∷ bs) = b == b'\\'

-- the loop behind `ESC ]` and `ESC _`: up to and with BEL or `ESC \`, or all
unfoldable pub string_length : Bytes → ℕ
string_length [] = 0
string_length (b ∷ bs) =
    let rest = string_length bs in
    if b == bel then 1 else if b == esc && backslash_next bs then 2 else rest + 1

-- the bytes behind an ESC that belong to its sequence
unfoldable pub behind_esc : Bytes → ℕ
unfolding csi_length string_length
behind_esc [] = 0
behind_esc (b ∷ bs) =
    if b == b'['
    then csi_length bs + 1
    else if b == b']' || b == b'_'
    then string_length bs + 1
    else if b == b'=' || b == b'>'
    then 1
    else 1

-- The length of the sequence that begins here. `none` is the return of 0.
unfoldable pub read_escape : Bytes → Option ℕ
unfolding behind_esc
read_escape [] = none
read_escape (b ∷ bs) = if b == esc then some (behind_esc bs + 1) else none

unfoldable pub hard_newline_end : Bytes → Option ℕ
hard_newline_end [] = none
hard_newline_end (b ∷ bs) =
    if b == 0x0d
    then some (elim bs [ [] ↦ 1 | c ∷ cs ↦ if c == 0x0a then 2 else 1 ])
    else if b == 0x0a
    then some 1
    else none

unfoldable pub strip_body : Bytes → Bytes → Turn Bytes ℕ
strip_body [] out = go 1 out
strip_body (b ∷ bs) out = elim (read_escape (b ∷ bs)) [
  | none ↦ go 1 (out ++ (b ∷ []))
  | some n ↦ go n out
]

-- The loop has no exit but its test.
unfoldable pub finished : End Bytes ℕ → Bytes
finished (ran out) = out
finished (stopped n) = []

unfoldable pub strip_ansi : Bytes → Bytes
unfolding strip_body finished
strip_ansi text = finished (scan strip_body 0 text [])

csi_length-le : (s : Bytes) → csi_length s ≤ length s
unfolding csi_length
csi_length-le [] = omega arith
csi_length-le (b ∷ bs) = ground (arith, csi_length-le bs)

string_length-le : (s : Bytes) → string_length s ≤ length s
unfolding string_length
string_length-le [] = omega arith
string_length-le (b ∷ []) = ground arith
string_length-le (b ∷ c ∷ cs) = ground (arith, string_length-le (c ∷ cs))

behind_esc-le : (s : Bytes) → behind_esc s ≤ length s
unfolding behind_esc
behind_esc-le [] = omega arith
behind_esc-le (b ∷ bs) = ground (arith, csi_length-le bs, string_length-le bs)

-- A sequence that is read has at least one byte, and ends within the text.
pub read_escape_bounds : (s : Bytes) (n : ℕ) → read_escape s ≡ some n → (1 ≤ n) × (n ≤ length s)
unfolding read_escape
read_escape_bounds [] n e = cc
read_escape_bounds (b ∷ bs) n e = ground (arith, behind_esc-le bs)

-- No byte of `s` is one of a kind.
abbrev pub Avoids : (ℕ → Bool) → Bytes → Type 0
Avoids p [] = Unit
Avoids p (b ∷ bs) = (p b ≡ false) × Avoids p bs

csi_length-final :
    (params rest : Bytes) (final : ℕ)
    → Avoids is_csi_final params
    → is_csi_final final ≡ true
    → csi_length (params ++ final ∷ rest) ≡ length params + 1
unfolding csi_length
csi_length-final [] rest final a f = ground arith
csi_length-final (p ∷ ps) rest final (h, a) f = ground (arith, csi_length-final ps rest final a f)

-- A complete control sequence is read whole and no further, whatever follows it.
pub read_escape-csi :
    (params rest : Bytes) (final : ℕ)
    → Avoids is_csi_final params
    → is_csi_final final ≡ true
    → read_escape (esc ∷ b'[' ∷ (params ++ final ∷ rest)) ≡ some (length params + 3)
unfolding read_escape
read_escape-csi params rest final a f = ground (arith, csi_length-final params rest final a f)

-- The bytes that may end an operating system command.
abbrev pub ends_string : ℕ → Bool
ends_string b = b == bel || b == esc

string_length-bel :
    (payload rest : Bytes)
    → Avoids ends_string payload
    → string_length (payload ++ bel ∷ rest) ≡ length payload + 1
unfolding string_length
string_length-bel [] rest a = refl
string_length-bel (p ∷ ps) rest (h, a) = ground (arith, string_length-bel ps rest a)

string_length-st :
    (payload rest : Bytes)
    → Avoids ends_string payload
    → string_length (payload ++ esc ∷ b'\\' ∷ rest) ≡ length payload + 2
unfolding string_length
string_length-st [] rest a = refl
string_length-st (p ∷ ps) rest (h, a) = ground (arith, string_length-st ps rest a)

-- A command string whose payload holds neither BEL nor ESC is read whole and no further, with
-- either terminator.
read_escape-osc :
    (payload rest : Bytes)
    → Avoids ends_string payload
    → (read_escape (esc ∷ b']' ∷ (payload ++ bel ∷ rest)) ≡ some (length payload + 3))
      × (read_escape (esc ∷ b']' ∷ (payload ++ esc ∷ b'\\' ∷ rest)) ≡ some (length payload + 4))
unfolding read_escape
read_escape-osc payload rest a =
    ground (arith, string_length-bel payload rest a, string_length-st payload rest a)
