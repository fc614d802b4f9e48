-- ===== src/Text/Fill/Lines.antt =====
-- The lines that `lfn_tui_text_wrap_ansi` returns, for any text.
use psi_code.Prelude.{
  ℕ, zero, suc, ◌+◌, ◌≤◌, ◌≡◌, refl, Integer, Bool, true, false, not, ◌&&◌, ◌||◌, Option, none,
  some, ◌>>=◌, List, [], ◌∷◌, ◌++◌, arith, Bytes, byte_at, length, length-append, take, ◌==◌, ltb,
  leb, if◌then◌else◌,
}
use psi_code.Wcwidth.{Tables}
use psi_code.Text.Scan.{scan, Ensures}
use psi_code.Text.Escape.{read_escape, hard_newline_end, read_escape_bounds}
use psi_code.Text.Cluster.{next_cluster}
use psi_code.Text.Cluster.Bounds.{next_cluster-IsWithin}
use psi_code.Text.Width.{at_least_one}
use psi_code.Text.Wrap.{
  Wrap, wrap_context_init, on_line, on_word, wrapped, wrap_push_line, soft_wrap, wrap_append_piece,
}
use psi_code.Text.Fill.{
  append_spaces, flush_space, break_body, flush_letters, wrap_flush_word, preserve_body,
  wrap_preserve, hard_break, blank, fill_body, wrap_fill, wrap_ansi,
}
use psi_code.Text.Wrap.Counted.{
  Counted, Kept, In, Out, kept, bind, choose, on_line-Kept, on_word-Kept, escape-Kept,
  push_line-Kept, soft_wrap-Kept, piece-Kept, round-Ensures, scan-Kept, pick, active-Kept,
}

newline-Moves : (s : Bytes) (n : ℕ) → hard_newline_end s ≡ some n → 1 ≤ n
unfolding hard_newline_end
newline-Moves [] n e = cc
newline-Moves (b ∷ []) n e = ground arith
newline-Moves (b ∷ c ∷ cs) n e = ground arith

spaces-Kept : (n : ℕ) (w : Wrap) → Counted w → Kept (append_spaces n w)
unfolding append_spaces
spaces-Kept zero w c = kept w c
spaces-Kept (suc n) w c =
    bind (on_line (b' ' ∷ []) w) _ (on_line-Kept (b' ' ∷ []) w c) λ u cu. spaces-Kept n u cu

space-Kept : (w : Wrap) → Counted w → Kept (flush_space w)
unfolding flush_space
space-Kept w c =
    let n : ℕ = if ltb 0 w.pending_space_width then w.pending_space_width else 1 in
    choose (not w.pending_space) (some w) _ (kept w c) (
      choose (w.line_width == 0 && w.soft_wrapped) (some w) _ (kept w c) (
        choose (ltb 0 w.line_width && ltb w.width (w.line_width + n + w.word_width)) (soft_wrap w) _
          (soft_wrap-Kept w c) (bind (append_spaces n w) _ (spaces-Kept n w c) λ u cu. kept _ cu)))

module _ (t : Tables) where
  cluster-Moves : (b : ℕ) (bs : Bytes) → 1 ≤ (next_cluster t (b ∷ bs)).used
  cluster-Moves b bs = (next_cluster-IsWithin t b bs).1

  break-Ensures :
      (b : ℕ) (bs : Bytes) (w : Wrap)
      → Counted w
      → Ensures In Out (b ∷ bs) (break_body t (b ∷ bs) w)
  unfolding break_body
  break-Ensures b bs w c =
      let s : Bytes = b ∷ bs in
      let x = next_cluster t s in
      pick s (read_escape s) _ _
        (λ n e. round-Ensures s n _ (read_escape_bounds s n e).0 (
          bind (on_line (take n s) w) _ (on_line-Kept (take n s) w c)
            λ u cu. escape-Kept (take n s) u cu))
        (round-Ensures s x.used _ (cluster-Moves b bs) (piece-Kept (take x.used s) x.width w c))

  letters-Kept : (w : Wrap) → Counted w → Kept (flush_letters t w)
  unfolding flush_letters
  letters-Kept w c =
      choose (leb w.word_width w.width) _ _
        (bind (wrap_append_piece w.word.text w.word_width w) _
          (piece-Kept w.word.text w.word_width w c) λ u cu. active-Kept u.word.text u cu)
        (scan-Kept (break_body t) break-Ensures w.word.text w c)

  word-Kept : (w : Wrap) → Counted w → Kept (wrap_flush_word t w)
  unfolding wrap_flush_word
  word-Kept w c = choose (length w.word.text == 0) (some w) _ (kept w c) (
      bind (flush_space w) _ (space-Kept w c) λ u cu.
        bind (flush_letters t (record u { pending_space = false; pending_space_width = 0 })) _
          (letters-Kept (record u { pending_space = false; pending_space_width = 0 }) cu)
          λ v cv. kept _ cv)

  break_line-Kept : (w : Wrap) → Counted w → Kept (hard_break t w)
  unfolding hard_break
  break_line-Kept w c =
      bind (wrap_flush_word t w) _ (word-Kept w c)
        λ u cu. bind (wrap_push_line false u) _ (push_line-Kept false u cu) λ v cv. kept _ cv

  blank-Kept : (n : ℕ) (w : Wrap) → Counted w → Kept (blank t n w)
  unfolding blank
  blank-Kept n w c = bind (wrap_flush_word t w) _ (word-Kept w c) λ u cu. kept _ cu

  preserve-Ensures :
      (b : ℕ) (bs : Bytes) (w : Wrap)
      → Counted w
      → Ensures In Out (b ∷ bs) (preserve_body t (b ∷ bs) w)
  unfolding preserve_body
  preserve-Ensures b bs w c =
      let s : Bytes = b ∷ bs in
      let x = next_cluster t s in
      pick s (read_escape s) _ _
        (λ n e. round-Ensures s n _ (read_escape_bounds s n e).0 (
          bind (on_line (take n s) w) _ (on_line-Kept (take n s) w c)
            λ u cu. escape-Kept (take n s) u cu))
        (pick s (hard_newline_end s) _ _
          (λ n e.
            round-Ensures s n _ (newline-Moves s n e)
              (bind (wrap_push_line false w) _ (push_line-Kept false w c) λ u cu. kept _ cu))
          (round-Ensures s x.used _ (cluster-Moves b bs) (piece-Kept (take x.used s) x.width w c)))

  fill-Ensures :
      (b : ℕ) (bs : Bytes) (w : Wrap) → Counted w → Ensures In Out (b ∷ bs) (fill_body t (b ∷ bs) w)
  unfolding fill_body
  fill-Ensures b bs w c =
      let s : Bytes = b ∷ bs in
      let x = next_cluster t s in
      pick s (read_escape s) _ _
        (λ n e. round-Ensures s n _ (read_escape_bounds s n e).0 (on_word-Kept (take n s) w c))
        (pick s (hard_newline_end s) _ _
          (λ n e. round-Ensures s n _ (newline-Moves s n e) (break_line-Kept w c))
          (round-Ensures s x.used _ (cluster-Moves b bs) (
            choose (byte_at s 0 == b' ' || byte_at s 0 == 0x09) (blank t x.width w) _
              (blank-Kept x.width w c)
              (bind (on_word (take x.used s) w) _ (on_word-Kept (take x.used s) w c)
                λ u cu. kept _ cu))))

  text-Kept :
      (preserve : Bool) (text : Bytes) (w : Wrap)
      → Counted w
      → Kept (if preserve then wrap_preserve t text w else wrap_fill t text w)
  unfolding wrap_preserve wrap_fill
  text-Kept true text w c = scan-Kept (preserve_body t) preserve-Ensures text w c
  text-Kept false text w c =
      bind (wrapped (scan (fill_body t) 0 text w)) _ (scan-Kept (fill_body t) fill-Ensures text w c)
        λ u cu. word-Kept u cu

  last_line :
      (b : Bool) (u : Wrap)
      → Counted u
      → (b ≡ false → 1 ≤ u.line_count)
      → (lines : List Bytes)
      → (do v ← if b then wrap_push_line true u else some u; some v.lines) ≡ some lines
      → 1 ≤ length lines
  unfolding wrap_push_line
  last_line true u c h lines e =
      let e' : some (u.lines ++ (u.line.text ∷ [])) ≡ some lines = e in
      let stored : length (u.lines ++ (u.line.text ∷ [])) ≡ length lines = cc in
      omega (arith, length-append u.lines (u.line.text ∷ []))
  last_line false u c h lines e =
      let same : length u.lines ≡ length lines = cc in
      let some_line : 1 ≤ u.line_count = h refl in omega arith

  first_line :
      (r : Option Wrap)
      → Kept r
      → (lines : List Bytes)
      → (do
        u ← r
        v ←
            if ltb 0 (length u.line.text) || u.line_count == 0
            then wrap_push_line true u
            else some u
        some v.lines)
        ≡ some lines
      → 1 ≤ length lines
  first_line none k lines e = cc
  first_line (some u) k lines e =
      last_line (ltb 0 (length u.line.text) || u.line_count == 0) u k.held (λ h. ground arith) lines
        e

  -- Whatever the text, its escapes and the mode, `lfn_tui_text_wrap_ansi` returns at least one line when the allocator lets it return.
  wrap_ansi-nonempty :
      (allocs : ℕ → ℕ → Bool) (text : Bytes) (width : Integer) (preserve : Bool)
      (lines : List Bytes)
      → wrap_ansi t allocs text width preserve ≡ some lines
      → 1 ≤ length lines
  unfolding wrap_ansi wrap_context_init
  wrap_ansi-nonempty allocs text width preserve lines e =
      let start = wrap_context_init allocs (at_least_one width) in
      first_line (if preserve then wrap_preserve t text start else wrap_fill t text start)
        (text-Kept preserve text start refl) lines e
