-- ===== src/Text/Tests.antt =====
-- Runs of the text primitives, and their theorems at concrete texts.
use psi_code.Prelude.{
  List, pos, ℕ, ◌≡◌, ◌≤◌, ◌<◌, refl, Bool, true, false, some, [], ◌∷◌, ◌++◌, arith, Bytes, codes,
  length,
}
use psi_code.Wcwidth.{Tables, wcwidth, in_table, search}
use psi_code.Text.Escape.{esc, strip_ansi}
use psi_code.Text.Escape.Strip.{strip_ansi-csi}
use psi_code.Text.Utf8.{decode_utf8, encode_utf8, decode_utf8-encode_utf8}
use psi_code.Text.Scan.{scan}
use psi_code.Text.Cluster.{next_cluster, is_zero_width_cluster_modifier, codepoint_width}
use psi_code.Text.Cluster.Bounds.{IsWithin, next_cluster-IsWithin}
use psi_code.Text.Width.{visible_width, byte_index_for_width}
use psi_code.Text.Width.Fits.{byte_index_for_width-fits}
use psi_code.Text.Width.Ascii.{ascii_table, zero_width_joiner}
use psi_code.Text.Builder.{Builder, append}
use psi_code.Text.Sgr.{sgr_resets, update_sgr_flags}
use psi_code.Text.Sgr.Resets.{Parameter, separated, sgr_resets-has_zero}
use psi_code.Text.Fill.{wrap_ansi}
use psi_code.Text.Fill.Ascii.{Cut, wrap_ansi-Cut}

abbrev tables : Tables
tables = record {
  ascii = ascii_table;
  private_use = [];
  nonprint = [];
  nonchar = [];
  combining = record { lo = 0x300; hi = 0x36f } ∷ [];
  combining_letters = [];
  doublewide = record { lo = 0x1100; hi = 0x115f } ∷ [];
  ambiguous = [];
  unassigned = [];
  widened = [];
}

abbrev red : Bytes
red = esc ∷ codes "[31m"

strip_ansi-csi_example :
    strip_ansi (codes "a" ++ esc ∷ b'[' ∷ (codes "31" ++ b'm' ∷ codes "hi"))
    ≡ codes "a" ++ strip_ansi (codes "hi")
strip_ansi-csi_example =
    strip_ansi-csi (codes "a") (codes "31") (codes "hi") b'm' (refl, tt) (refl, (refl, tt)) refl

decode_utf8-encode_utf8_example :
    decode_utf8 (encode_utf8 0x1f600 ++ codes "!")
    ≡ record { code = 0x1f600; used = length (encode_utf8 0x1f600) }
decode_utf8-encode_utf8_example = decode_utf8-encode_utf8 0x1f600 (codes "!") (omega arith)

encode_utf8-smile : encode_utf8 0x1f600 ≡ 0xf0 ∷ 0x9f ∷ 0x98 ∷ 0x80 ∷ []
unfolding encode_utf8
encode_utf8-smile = refl

next_cluster-IsWithin_example : IsWithin 3 (next_cluster tables (b'e' ∷ 0xcc ∷ 0x81 ∷ []))
next_cluster-IsWithin_example = next_cluster-IsWithin tables b'e' (0xcc ∷ 0x81 ∷ [])

next_cluster-accent :
    next_cluster tables (b'e' ∷ 0xcc ∷ 0x81 ∷ b'x' ∷ []) ≡ record { used = 3; width = 1 }
unfolding next_cluster wcwidth in_table search scan is_zero_width_cluster_modifier codepoint_width
next_cluster-accent = refl

visible_width-red : visible_width tables (red ++ codes "hi") ≡ 2
unfolding visible_width next_cluster wcwidth in_table search scan is_zero_width_cluster_modifier
    codepoint_width
visible_width-red = refl

byte_index_for_width-fits_example :
    (visible_width tables (codes "hello") ≤ 3
      → byte_index_for_width tables (codes "hello") (pos 3) ≡ 5)
    × (3 < visible_width tables (codes "hello")
        → byte_index_for_width tables (codes "hello") (pos 3) < 5)
byte_index_for_width-fits_example =
    byte_index_for_width-fits tables (codes "hello") 3 (omega arith) (omega arith)

-- The sequence behind the joiner is measured as four cells of text.
visible_width-joiner : visible_width tables (b'a' ∷ (zero_width_joiner ++ red)) ≡ 6
unfolding visible_width next_cluster wcwidth in_table search scan is_zero_width_cluster_modifier
    codepoint_width
visible_width-joiner = refl

abbrev granting : ℕ → ℕ → Bool
granting buffer n = true

abbrev two_bytes : Builder
two_bytes = record { text = codes "ab"; cap = 64; alloc = granting 0; asked = 1 }

wrap_ansi-Cut_example :
    Cut 3 (codes "a bcd") (wrap_ansi tables granting (codes "a bcd") (pos 3) true)
wrap_ansi-Cut_example =
    wrap_ansi-Cut tables 3 (codes "a bcd") refl (omega arith) (omega arith) granting (λ i n. refl)
      (refl, (refl, (refl, (refl, (refl, tt)))))

wrap_ansi-cut :
    wrap_ansi tables granting (codes "a bcd") (pos 3) true ≡ some (codes "a b" ∷ codes "cd" ∷ [])
unfolding wrap_ansi next_cluster wcwidth in_table search scan is_zero_width_cluster_modifier
    codepoint_width append
wrap_ansi-cut = refl

wrap_ansi-words :
    wrap_ansi tables granting (codes "ab cd ef") (pos 5) false
    ≡ some (codes "ab cd" ∷ codes "ef" ∷ [])
unfolding wrap_ansi next_cluster wcwidth in_table search scan is_zero_width_cluster_modifier
    codepoint_width append
wrap_ansi-words = refl

-- Each line begins with the color that is active.
wrap_ansi-color :
    wrap_ansi tables granting (red ++ codes "ab cd") (pos 3) false
    ≡ some ((red ++ codes "ab") ∷ (red ++ codes "cd") ∷ [])
unfolding wrap_ansi next_cluster wcwidth in_table search scan is_zero_width_cluster_modifier
    codepoint_width append update_sgr_flags sgr_resets
wrap_ansi-color = refl

-- `38;5;0`, the color 0 of the palette
abbrev palette_black : List Parameter
palette_black = record { first = b'5'; others = [] } ∷ record { first = b'0'; others = [] } ∷ []

sgr_resets-has_zero_example :
    sgr_resets (
      esc
      ∷ b'['
      ∷ (separated (record { first = b'3'; others = b'8' ∷ [] }) palette_black ++ b'm' ∷ []))
    ≡ true
sgr_resets-has_zero_example =
    sgr_resets-has_zero (record { first = b'3'; others = b'8' ∷ [] }) palette_black
      (((refl, (refl, tt)), omega arith), (((refl, tt), omega arith), ((refl, tt), omega arith)))
