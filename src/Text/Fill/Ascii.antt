-- ===== src/Text/Fill/Ascii.antt =====
-- `psi_vm_text_wrap_preserve` on printable ASCII.
use psi_code.Prelude.{
  size_max, pos, ℕ, ◌+◌, ◌≤◌, ◌<◌, ◌≡◌, refl, sym, ap, ◌∙◌, Bool, true, false, ◌&&◌, ◌||◌, Option,
  none, some, ◌>>=◌, List, [], ◌∷◌, ◌++◌, append_assoc, append-nil, arith, Bytes, length,
  length-append, ◌==◌, ltb, within, if◌then◌else◌, Bool-cases, inl, inr,
}
use psi_code.Wcwidth.{Tables}
use psi_code.Text.Scan.{End, ran, stopped, scan, scan_rule, Ensures, Post}
use psi_code.Text.Escape.{hard_newline_end}
use psi_code.Text.Width.Ascii.{ascii_table, IsPrintable, escape-printable, cluster-printable}
use psi_code.Text.Builder.Growth.{append-granted}
use psi_code.Text.Wrap.{
  Wrap, wrap_context_init, on_line, round, wrapped, store_line, wrap_push_line, soft_wrap,
  wrap_append_piece,
}
use psi_code.Text.Fill.{preserve_body, wrap_preserve, wrap_ansi}

-- The lines one behind the other.
abbrev pub unbroken : List Bytes → Bytes
unbroken [] = []
unbroken (l ∷ ls) = l ++ unbroken ls

-- No line is longer than the width.
abbrev pub AtMost : ℕ → List Bytes → Type 0
AtMost width [] = Unit
AtMost width (l ∷ ls) = (length l ≤ width) × AtMost width ls

unbroken-append : (xs : List Bytes) (l : Bytes) → unbroken (xs ++ l ∷ []) ≡ unbroken xs ++ l
unbroken-append [] l = append-nil l
unbroken-append (x ∷ xs) l =
    ap (λ r. x ++ r) (unbroken-append xs l) ∙ sym (append_assoc x (unbroken xs) l)

AtMost-append :
    (width : ℕ) (xs : List Bytes) (l : Bytes)
    → AtMost width xs
    → length l ≤ width
    → AtMost width (xs ++ l ∷ [])
AtMost-append width [] l a h = (h, tt)
AtMost-append width (x ∷ xs) l (a, rest) h = (a, AtMost-append width xs l rest h)

-- The lines, the line that is being filled and the rest of the text are the text, and nothing is
-- active.
record Filling (width : ℕ) (text s : Bytes) (w : Wrap) : Type 0 where
  whole : unbroken w.lines ++ (w.line.text ++ s) ≡ text
  stored : AtMost width w.lines
  measured : w.line_width ≡ length w.line.text
  fits : length w.line.text ≤ width
  wide : w.width ≡ width
  no_sgr : w.active_sgr.text ≡ []
  no_link : w.active_hyperlink.text ≡ []
  no_underline : w.active_underline ≡ false
  granted : (n : ℕ) → w.line.alloc n ≡ true
  printable : IsPrintable s

module _ (width : ℕ) (text : Bytes) (s : Bytes) (w : Wrap) (f : Filling width text s w) where
  push-plain : (final : Bool) → wrap_push_line final w ≡ some (store_line w)
  unfolding wrap_push_line
  push-plain true = refl
  push-plain false =
      let no_sgr : ltb 0 (length w.active_sgr.text) ≡ false = rw f.no_sgr refl in
      let no_link : ltb 0 (length w.active_hyperlink.text) ≡ false = rw f.no_link refl in
      let no_underline = f.no_underline in
      elim (Bool-cases (ltb 0 (length w.line.text))) [
        | inl e ↦ simp (e, no_underline, no_link, no_sgr, wrap_push_line)
        | inr e ↦ simp (e, no_sgr, no_link, wrap_push_line)
      ]

  -- A new line, with the old one stored.
  abbrev next_line : Wrap
  next_line = record (store_line w) { line_width = 0; soft_wrapped = true }

  wrap-plain : soft_wrap w ≡ some next_line
  unfolding soft_wrap
  wrap-plain = rw (push-plain false, soft_wrap) refl

  next_line-Filling : Filling width text s next_line
  next_line-Filling = record {
    whole = simp (unbroken-append, append_assoc, ← f.whole);
    stored = AtMost-append width w.lines w.line.text f.stored f.fits;
    measured = refl;
    fits = omega arith;
    wide = f.wide;
    no_sgr = f.no_sgr;
    no_link = f.no_link;
    no_underline = f.no_underline;
    granted = f.granted;
    printable = f.printable;
  }

-- The end of `wrap_append_piece`, for one cell.
abbrev put : ℕ → Wrap → Option Wrap
put b w = do
  v ← on_line (b ∷ []) w
  some (record v { line_width = v.line_width + 1; soft_wrapped = false })

module _ (width : ℕ) (text : Bytes) (b : ℕ) (bs : Bytes) (low : 1 ≤ width)
    (high : width < size_max) where
  put-Filling :
      (w : Wrap)
      → Filling width text (b ∷ bs) w
      → w.line_width + 1 ≤ width
      → (u : Wrap) × (put b w ≡ some u) × Filling width text bs u
  put-Filling w f room =
      let (line, e, appended, granted) =
        append-granted w.line b [] f.granted (omega (arith, f.measured)) in
      let grown = length-append w.line.text (b ∷ []) in
      let longer : length line.text ≡ w.line_width + 1 =
        omega (arith, ap length appended, grown, f.measured) in
      (
        record w { line = line; line_width = w.line_width + 1; soft_wrapped = false },
        rw e refl,
        record {
          whole = simp (appended, append_assoc, f.whole);
          stored = f.stored;
          measured = sym longer;
          fits = omega arith;
          wide = f.wide;
          no_sgr = f.no_sgr;
          no_link = f.no_link;
          no_underline = f.no_underline;
          granted = granted;
          printable = f.printable.1;
        },
      )

  piece-Filling :
      (w : Wrap)
      → Filling width text (b ∷ bs) w
      → (u : Wrap) × (wrap_append_piece (b ∷ []) 1 w ≡ some u) × Filling width text bs u
  unfolding wrap_append_piece
  piece-Filling w f = elim (Bool-cases (ltb 0 w.line_width && ltb w.width (w.line_width + 1))) [
    | inl full ↦
        let next = next_line width text (b ∷ bs) w f in
        rw (full, wrap-plain width text (b ∷ bs) w f, wrap_append_piece)
          (put-Filling next (next_line-Filling width text (b ∷ bs) w f) low)
    | inr room ↦ rw (room, wrap_append_piece) (put-Filling w f (ground (arith, f.wide)))
  ]

length-nil : (xs : Bytes) → length xs ≡ 0 → xs ≡ []
length-nil [] h = refl
length-nil (x ∷ xs) h = absurd (omega arith)

-- The lines are made, they are the text again, and none is longer than the width.
abbrev pub Cut : ℕ → Bytes → Option (List Bytes) → Type 0
Cut width text none = ⊥
Cut width text (some lines) = (unbroken lines ≡ text) × AtMost width lines

no_newline : (b : ℕ) (bs : Bytes) → within 0x20 0x7e b ≡ true → hard_newline_end (b ∷ bs) ≡ none
unfolding hard_newline_end
no_newline b bs h = ground arith

module _ (t : Tables) (width : ℕ) (text : Bytes) (a : t.ascii ≡ ascii_table) (low : 1 ≤ width)
    (high : width < size_max) where
  body-plain :
      (b : ℕ) (bs : Bytes) (w : Wrap)
      → IsPrintable (b ∷ bs)
      → preserve_body t (b ∷ bs) w ≡ round 1 (wrap_append_piece (b ∷ []) 1 w)
  unfolding preserve_body
  body-plain b bs w (h, hs) =
      rw
        (
          escape-printable b bs h,
          no_newline b bs h,
          cluster-printable t b bs a (h, hs),
          preserve_body,
        )
        refl

  keep :
      (b : ℕ) (bs : Bytes) (w : Wrap)
      → Filling width text (b ∷ bs) w
      → Ensures (Filling width text) (λ (u : Unit {0}). ⊥) (b ∷ bs) (preserve_body t (b ∷ bs) w)
  keep b bs w f =
      let (u, e, next) = piece-Filling width text b bs low high w f in
      rw (body-plain b bs w f.printable, e) (omega arith, next)

  lines_of : Option Wrap → Option (List Bytes)
  lines_of r = do
    u ← r
    v ← if ltb 0 (length u.line.text) || u.line_count == 0 then wrap_push_line true u else some u
    some v.lines

  lines_of-Cut :
      (e : End Wrap (Unit {0}))
      → Post (Filling width text) (λ (u : Unit {0}). ⊥) e
      → Cut width text (lines_of (wrapped e))
  unfolding lines_of wrap_push_line
  lines_of-Cut (stopped u) h = h
  lines_of-Cut (ran w) f =
      let g : Filling width text [] w = f in
      let all = unbroken-append w.lines w.line.text ∙ (rw append-nil at g.whole) in
      elim (Bool-cases (ltb 0 (length w.line.text) || w.line_count == 0)) [
        | inl more ↦ rw more (all, AtMost-append width w.lines w.line.text g.stored g.fits)
        | inr done ↦
            let empty = length-nil w.line.text (ground arith) in
            let whole = rw (empty, append-nil) at g.whole in rw done (whole, g.stored)
      ]

  module _ (allocs : ℕ → ℕ → Bool) (granted : (i n : ℕ) → allocs i n ≡ true)
      (p : IsPrintable text) where
    start-Filling : Filling width text text (wrap_context_init allocs width)
    unfolding wrap_context_init
    start-Filling = record {
      whole = refl;
      stored = tt;
      measured = refl;
      fits = omega arith;
      wide = refl;
      no_sgr = refl;
      no_link = refl;
      no_underline = refl;
      granted = granted 0;
      printable = p;
    }

    -- With an allocator that never refuses, wrap_ansi that preserves whitespace turns printable
    -- ASCII into lines that are the text again, one behind the other, and none longer than the
    -- width, for a width of at least 1 below (size_t)-1.
    pub wrap_ansi-Cut : Cut width text (wrap_ansi t allocs text (pos width) true)
    unfolding wrap_ansi wrap_preserve lines_of
    wrap_ansi-Cut =
        let start = wrap_context_init allocs width in
        let some_width : ltb width 1 ≡ false = ground arith in
        rw (some_width, wrap_ansi)
          (lines_of-Cut (scan (preserve_body t) 0 text start) (
            scan_rule (Filling width text) (λ (u : Unit {0}). ⊥) (preserve_body t) keep 0 text start
              start-Filling))
