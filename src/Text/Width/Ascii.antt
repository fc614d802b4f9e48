-- ===== src/Text/Width/Ascii.antt =====
-- The measures of a line of printable ASCII.
use psi_code.Prelude.{
  pos, ℕ, zero, suc, ◌+◌, ◌-◌, ◌≤◌, ◌≡◌, refl, true, false, none, List, [], ◌∷◌, ◌++◌, arith, Bytes,
  length, length-append, ◌==◌, ltb, within, if◌then◌else◌, max,
}
use psi_code.Wcwidth.{Range, Tables, in_table, cells, wcwidth}
use psi_code.Text.Scan.{stop, scan}
use psi_code.Text.Escape.{esc, read_escape}
use psi_code.Text.Utf8.{decode_utf8}
use psi_code.Text.Classes.{is_regional_indicator, is_indic_consonant}
use psi_code.Text.Cluster.{
  Chain, extend, cluster_body, first_codepoints, codepoint_width, is_zero_width_cluster_modifier,
  next_cluster,
}
use psi_code.Text.Cluster.Bounds.{scan-takes}
use psi_code.Text.Width.{unit, visible_width, spaces, pad_line}
use psi_code.Text.Width.Fits.{visible_width-unit}

-- The table `widechar_ascii_table`.
abbrev pub ascii_table : List Range
ascii_table = record { lo = 0x20; hi = 0x7e } ∷ []

abbrev pub IsPrintable : Bytes → Type 0
IsPrintable [] = Unit
IsPrintable (b ∷ bs) = (within 0x20 0x7e b ≡ true) × IsPrintable bs

decode-printable :
    (b : ℕ) (bs : Bytes)
    → within 0x20 0x7e b ≡ true
    → decode_utf8 (b ∷ bs) ≡ record { code = b; used = 1 }
unfolding decode_utf8
decode-printable b bs h = ground arith

pub escape-printable :
    (b : ℕ) (bs : Bytes) → within 0x20 0x7e b ≡ true → read_escape (b ∷ bs) ≡ none
unfolding read_escape
escape-printable b bs h = ground arith

in_ascii_table : (b : ℕ) → within 0x20 0x7e b ≡ true → in_table ascii_table b ≡ true
unfolding in_table
in_ascii_table b h = ground arith

wcwidth-printable :
    (t : Tables) (b : ℕ) → t.ascii ≡ ascii_table → within 0x20 0x7e b ≡ true → wcwidth t b ≡ cells 1
unfolding wcwidth
wcwidth-printable t b a h =
    let found : in_table t.ascii b ≡ true = rw a (in_ascii_table b h) in rw (found, wcwidth) refl

is_not_indic : (b : ℕ) → within 0x20 0x7e b ≡ true → is_indic_consonant b ≡ false
unfolding is_indic_consonant
is_not_indic b h = let low : ltb b 0x0915 ≡ true = ground arith in rw (low, is_indic_consonant) refl

width-printable :
    (t : Tables) (b : ℕ)
    → t.ascii ≡ ascii_table
    → within 0x20 0x7e b ≡ true
    → codepoint_width t b ≡ 1
unfolding codepoint_width
width-printable t b a h = ground (arith, wcwidth-printable t b a h)

modifier-printable :
    (t : Tables) (b : ℕ)
    → t.ascii ≡ ascii_table
    → within 0x20 0x7e b ≡ true
    → is_zero_width_cluster_modifier t b ≡ false
unfolding is_zero_width_cluster_modifier
modifier-printable t b a h = ground (arith, wcwidth-printable t b a h)

first-printable :
    (t : Tables) (b : ℕ) (bs : Bytes)
    → t.ascii ≡ ascii_table
    → within 0x20 0x7e b ≡ true
    → first_codepoints t (b ∷ bs) ≡ record { used = 1; width = 1 }
unfolding first_codepoints is_regional_indicator
first-printable t b bs a h =
    let no_flag : is_regional_indicator b ≡ false = ground arith in
    rw (decode-printable b bs h, no_flag, width-printable t b a h, first_codepoints) refl

abbrev one_cell : Chain
one_cell = record {
  width = 1;
  chain_valid = false;
  linker_pending = false;
  saw_zwj = false;
  taken = 1;
}

extend-printable :
    (t : Tables) (b n : ℕ)
    → t.ascii ≡ ascii_table
    → within 0x20 0x7e b ≡ true
    → extend t false b n one_cell ≡ stop one_cell
unfolding extend
extend-printable t b n a h =
    let no_modifier = modifier-printable t b a h in
    let no_zwnj : (b == 0x200c) ≡ false = ground arith in
    let no_zwj : (b == 0x200d) ≡ false = ground arith in
    rw (no_zwnj, no_modifier, no_zwj, extend) refl

pub cluster-printable :
    (t : Tables) (b : ℕ) (bs : Bytes)
    → t.ascii ≡ ascii_table
    → IsPrintable (b ∷ bs)
    → next_cluster t (b ∷ bs) ≡ record { used = 1; width = 1 }
unfolding next_cluster scan cluster_body
cluster-printable t b [] a (h, hs) = rw (first-printable t b [] a h, next_cluster) refl
cluster-printable t b (c ∷ cs) a (h, (k, ks)) =
    let left : cluster_body t false (c ∷ cs) one_cell ≡ stop one_cell =
      rw (decode-printable c cs k, cluster_body) (extend-printable t c 1 a k) in
    rw
      (
        first-printable t b (c ∷ cs) a h,
        decode-printable b (c ∷ cs) h,
        is_not_indic b h,
        left,
        next_cluster,
        scan,
      )
      refl

-- The encoding of U+200D.
abbrev pub zero_width_joiner : Bytes
zero_width_joiner = 0xe2 ∷ 0x80 ∷ 0x8d ∷ []

-- When the first table is that of printable ASCII, the cluster of a printable ASCII byte with a
-- zero width joiner and an ESC behind it takes the ESC in.
next_cluster-joiner :
    (t : Tables) (b : ℕ) (rest : Bytes)
    → t.ascii ≡ ascii_table
    → within 0x20 0x7e b ≡ true
    → 5 ≤ (next_cluster t (b ∷ (zero_width_joiner ++ esc ∷ rest))).used
unfolding next_cluster scan cluster_body extend decode_utf8 is_zero_width_cluster_modifier
    codepoint_width
next_cluster-joiner t b rest a h =
    let s : Bytes = zero_width_joiner ++ esc ∷ rest in
    let joined : Chain = record one_cell { width = 2; taken = 5 } in
    rw (first-printable t b s a h, decode-printable b s h, is_not_indic b h, next_cluster)
      (scan-takes t false rest joined (omega arith))

unit-printable :
    (t : Tables) (b : ℕ) (bs : Bytes)
    → t.ascii ≡ ascii_table
    → IsPrintable (b ∷ bs)
    → unit t (b ∷ bs) ≡ record { used = 1; width = 1 }
unfolding unit
unit-printable t b bs a (h, hs) =
    rw (escape-printable b bs h, unit) (cluster-printable t b bs a (h, hs))

visible_width-printable :
    (t : Tables) (b : ℕ) (bs : Bytes)
    → t.ascii ≡ ascii_table
    → IsPrintable (b ∷ bs)
    → visible_width t (b ∷ bs) ≡ 1 + visible_width t bs
visible_width-printable t b bs a h = rw (unit-printable t b bs a h) at (visible_width-unit t b bs)

visible_width-nil : (t : Tables) → visible_width t [] ≡ 0
unfolding visible_width scan
visible_width-nil t = refl

-- A text of printable ASCII is as wide as it has bytes.
visible_width-ascii :
    (t : Tables) (text : Bytes)
    → t.ascii ≡ ascii_table
    → IsPrintable text
    → visible_width t text ≡ length text
visible_width-ascii t [] a h = visible_width-nil t
visible_width-ascii t (b ∷ bs) a h =
    omega (arith, visible_width-printable t b bs a h, visible_width-ascii t bs a h.1)

IsPrintable-append : (s t : Bytes) → IsPrintable s → IsPrintable t → IsPrintable (s ++ t)
IsPrintable-append [] t h k = k
IsPrintable-append (b ∷ s) t (h, hs) k = (h, IsPrintable-append s t hs k)

IsPrintable-spaces : (n : ℕ) → IsPrintable (spaces n)
unfolding spaces
IsPrintable-spaces zero = tt
IsPrintable-spaces (suc n) = (refl, IsPrintable-spaces n)

length-spaces : (n : ℕ) → length (spaces n) ≡ n
unfolding spaces
length-spaces zero = refl
length-spaces (suc n) = omega (arith, length-spaces n)

-- When the first table is that of printable ASCII, a line of printable ASCII padded to a positive
-- width is as wide as that width or as the text is long, whichever is more.
pad_line-visible_width :
    (t : Tables) (text : Bytes) (width : ℕ)
    → t.ascii ≡ ascii_table
    → 1 ≤ width
    → IsPrintable text
    → visible_width t (pad_line t text (pos width)) ≡ max width (length text)
unfolding pad_line
pad_line-visible_width t text width a w h =
    let missing : ℕ =
      if ltb (visible_width t text) width then width - visible_width t text else 0 in
    let padded =
      visible_width-ascii t (text ++ spaces missing) a
        (IsPrintable-append text (spaces missing) h (IsPrintable-spaces missing)) in
    ground (
      arith,
      padded,
      length-append text (spaces missing),
      length-spaces missing,
      visible_width-ascii t text a h,
    )
