-- ===== src/Text/Cluster.antt =====
-- `psi_vm_text_next_cluster`: which bytes stand together on the screen, and in how many cells.
pub mod Bounds
use psi_code.Prelude.{
  ℕ, zero, suc, ◌+◌, ◌-◌, ◌*◌, ◌≤◌, ◌<◌, ◌≡◌, refl, Bool, true, false, not, ◌&&◌, ◌||◌, List, [],
  ◌∷◌, ◌++◌, arith, Bytes, length, drop, ◌==◌, ltb, leb, if◌then◌else◌, max,
}
use psi_code.Wcwidth.{Tables, Width, minus_one, cells, wcwidth}
use psi_code.Text.Scan.{Turn, go, stop, End, ran, stopped, scan}
use psi_code.Text.Utf8.{Decoded, decode_utf8}
use psi_code.Text.Classes.{
  is_regional_indicator, is_emoji_modifier, is_indic_linker, is_indic_consonant, is_control,
}

abbrev pub unicode_max : ℕ
unicode_max = 0x10ffff

-- `width <= 0`, `width >= PSI_VM_TEXT_WIDTH_WIDE` and the rest
abbrev clamp_width : Width → ℕ
clamp_width minus_one = 0
clamp_width (cells n) = if n == 0 then 0 else if leb 2 n then 2 else 1

unfoldable pub codepoint_width : Tables → ℕ → ℕ
unfolding is_control
codepoint_width t cp =
    if cp == 0x09
    then 3
    else if ltb unicode_max cp || is_control cp
    then (if ltb unicode_max cp then 1 else 0)
    else clamp_width (wcwidth t cp)

abbrev is_zero : Width → Bool
is_zero minus_one = false
is_zero (cells n) = n == 0

unfoldable pub is_zero_width_cluster_modifier : Tables → ℕ → Bool
unfolding is_control is_emoji_modifier
is_zero_width_cluster_modifier t cp =
    if cp == 0x200d || ltb unicode_max cp || is_control cp
    then false
    else is_emoji_modifier cp || is_zero (wcwidth t cp)

-- What the loop behind the first code point keeps, with the bytes that it has taken.
pub record Chain : Type 0 where
  pub width : ℕ
  pub chain_valid : Bool
  pub linker_pending : Bool
  pub saw_zwj : Bool
  pub taken : ℕ

pub record Cluster : Type 0 where
  pub used : ℕ
  pub width : ℕ

module _ (t : Tables) (cluster_is_indic : Bool) where
  -- One round, for the code point `cp` of `n` bytes. A round that takes nothing leaves the loop.
  unfoldable pub extend : ℕ → ℕ → Chain → Turn Chain Chain
  unfolding is_indic_linker is_indic_consonant
  extend cp n c =
      let on : Chain = record c { taken = c.taken + n } in
      if c.chain_valid && is_indic_linker cp
      then go n (record on { linker_pending = true })
      else if cp == 0x200c
      then go n (record on { chain_valid = false; linker_pending = false; saw_zwj = false })
      else if is_zero_width_cluster_modifier t cp
      then go n on
      else if cp == 0x200d
      then go n (record on { saw_zwj = not cluster_is_indic || c.saw_zwj })
      else if c.chain_valid && c.linker_pending && is_indic_consonant cp
      then go n (record on { width = c.width + codepoint_width t cp; linker_pending = false })
      else if c.saw_zwj
      then go n (record on { width = max 2 (max c.width (codepoint_width t cp)); saw_zwj = false })
      else stop c

  unfoldable pub cluster_body : Bytes → Chain → Turn Chain Chain
  unfolding extend decode_utf8
  cluster_body s c = let d = decode_utf8 s in extend d.code d.used c

-- The loop is left by its test or by `break`, with the same variables.
abbrev pub left_with : End Chain Chain → Cluster
left_with (ran c) = record { used = c.taken; width = c.width }
left_with (stopped c) = record { used = c.taken; width = c.width }

-- The bytes of the first code point, or of a flag's two.
unfoldable pub first_codepoints : Tables → Bytes → Cluster
unfolding is_regional_indicator decode_utf8
first_codepoints t s =
    let d = decode_utf8 s in
    let second = decode_utf8 (drop d.used s) in
    if is_regional_indicator d.code
    then (if is_regional_indicator second.code
        then record { used = d.used + second.used; width = 2 }
        else record { used = d.used; width = 2 })
    else record { used = d.used; width = codepoint_width t d.code }

unfoldable pub next_cluster : Tables → Bytes → Cluster
unfolding cluster_body first_codepoints is_indic_consonant decode_utf8
next_cluster t s =
    let first = first_codepoints t s in
    let indic : Bool = is_indic_consonant (decode_utf8 s).code in
    left_with (
      scan (cluster_body t indic) first.used s (record {
        width = first.width;
        chain_valid = indic;
        linker_pending = false;
        saw_zwj = false;
        taken = first.used;
      }))
