-- ===== src/Text/Fill.antt =====
-- `lfn_tui_text_wrap_ansi`: the words of a text, put on lines of a width.
pub mod Ascii
pub mod Lines
use psi_code.Prelude.{
  byte_at, Integer, pos, negsuc, ℕ, zero, suc, ◌+◌, ◌-◌, ◌*◌, ◌≤◌, ◌<◌, ◌≡◌, refl, Bool, true,
  false, not, ◌&&◌, ◌||◌, Option, none, some, ◌>>=◌, List, [], ◌∷◌, ◌++◌, arith, Bytes, length,
  drop, take, codes, ◌==◌, ltb, leb, if◌then◌else◌,
}
use psi_code.Wcwidth.{Tables}
use psi_code.Text.Scan.{Turn, go, stop, End, ran, stopped, scan}
use psi_code.Text.Escape.{read_escape, hard_newline_end}
use psi_code.Text.Cluster.{Cluster, next_cluster}
use psi_code.Text.Width.{at_least_one}
use psi_code.Text.Builder.{Builder, clear, append_char}
use psi_code.Text.Wrap.{
  Wrap, wrap_context_init, on_line, on_word, round, wrapped, update_active_escape,
  update_active_from_text, wrap_push_line, soft_wrap, wrap_append_piece,
}

-- `for (k = 0; k < space_width; k++)`
unfoldable pub append_spaces : ℕ → Wrap → Option Wrap
append_spaces zero w = some w
append_spaces (suc k) w = do u ← on_line (b' ' ∷ []) w; append_spaces k u

-- The whitespace in front of the word: dropped, turned into a new line, or kept.
unfoldable pub flush_space : Wrap → Option Wrap
unfolding append_spaces soft_wrap
flush_space w =
    let space_width : ℕ = if ltb 0 w.pending_space_width then w.pending_space_width else 1 in
    if not w.pending_space
    then some w
    else if w.line_width == 0 && w.soft_wrapped
    then some w
    else if ltb 0 w.line_width && ltb w.width (w.line_width + space_width + w.word_width)
    then soft_wrap w
    else (do
      u ← append_spaces space_width w
      some (record u { line_width = u.line_width + space_width }))

module _ (t : Tables) where
  -- A round over a word that is too wide for a line.
  unfoldable pub break_body : Bytes → Wrap → Turn Wrap (Unit {0})
  unfolding read_escape update_active_escape next_cluster wrap_append_piece
  break_body s w = elim (read_escape s) [
    | some n ↦ round n (do u ← on_line (take n s) w; update_active_escape (take n s) u)
    | none ↦ let c = next_cluster t s in round c.used (wrap_append_piece (take c.used s) c.width w)
  ]

  -- The word on the line, or on as many lines as it needs.
  unfoldable pub flush_letters : Wrap → Option Wrap
  unfolding wrap_append_piece update_active_from_text break_body
  flush_letters w =
      if leb w.word_width w.width
      then (do
        u ← wrap_append_piece w.word.text w.word_width w
        update_active_from_text u.word.text u)
      else wrapped (scan break_body 0 w.word.text w)

  unfoldable pub wrap_flush_word : Wrap → Option Wrap
  unfolding flush_space flush_letters
  wrap_flush_word w = if length w.word.text == 0 then some w else (do
    u ← flush_space w
    v ← flush_letters (record u { pending_space = false; pending_space_width = 0 })
    some (record v { word = clear v.word; word_width = 0 }))

  unfoldable pub preserve_body : Bytes → Wrap → Turn Wrap (Unit {0})
  unfolding read_escape update_active_escape hard_newline_end wrap_push_line next_cluster
      wrap_append_piece
  preserve_body s w = elim (read_escape s) [
    | some n ↦ round n (do u ← on_line (take n s) w; update_active_escape (take n s) u)
    | none ↦ elim (hard_newline_end s) [
      | some n ↦ round n (do u ← wrap_push_line false w; some (record u { line_width = 0 }))
      | none ↦
          let c = next_cluster t s in round c.used (wrap_append_piece (take c.used s) c.width w)
    ]
  ]

  unfoldable pub wrap_preserve : Bytes → Wrap → Option Wrap
  unfolding preserve_body
  wrap_preserve text w = wrapped (scan preserve_body 0 text w)

  -- A hard newline: the word, the line, and a fresh start.
  unfoldable pub hard_break : Wrap → Option Wrap
  unfolding wrap_flush_word wrap_push_line
  hard_break w = do
    u ← wrap_flush_word w
    v ← wrap_push_line false u
    some (record v {
      line_width = 0;
      pending_space = false;
      pending_space_width = 0;
      soft_wrapped = false;
    })

  unfoldable pub blank : ℕ → Wrap → Option Wrap
  unfolding wrap_flush_word
  blank cluster_width w = do
    u ← wrap_flush_word w
    some (record u {
      pending_space = true;
      pending_space_width =
          u.pending_space_width + (if ltb 0 cluster_width then cluster_width else 1);
    })

  unfoldable pub fill_body : Bytes → Wrap → Turn Wrap (Unit {0})
  unfolding read_escape hard_newline_end byte_at next_cluster hard_break blank
  fill_body s w = elim (read_escape s) [
    | some n ↦ round n (on_word (take n s) w)
    | none ↦ elim (hard_newline_end s) [
      | some n ↦ round n (hard_break w)
      | none ↦
          let c = next_cluster t s in
          round c.used (
            if byte_at s 0 == b' ' || byte_at s 0 == 0x09 then blank c.width w else (do
              u ← on_word (take c.used s) w
              some (record u { word_width = u.word_width + c.width })))
    ]
  ]

  unfoldable pub wrap_fill : Bytes → Wrap → Option Wrap
  unfolding fill_body wrap_flush_word
  wrap_fill text w = do u ← wrapped (scan fill_body 0 text w); wrap_flush_word u

  -- `lfn_tui_text_wrap_ansi`, whose `none` is the error "out of memory".
  unfoldable pub wrap_ansi : (ℕ → ℕ → Bool) → Bytes → Integer → Bool → Option (List Bytes)
  unfolding wrap_context_init wrap_preserve wrap_fill wrap_push_line
  wrap_ansi allocs text width_arg preserve_whitespace =
      let start = wrap_context_init allocs (at_least_one width_arg) in
      do
        u ← if preserve_whitespace then wrap_preserve text start else wrap_fill text start
        v ←
            if ltb 0 (length u.line.text) || u.line_count == 0
            then wrap_push_line true u
            else some u
        some v.lines
