-- ===== src/Screen/Refused.antt =====
-- `lfn_tui_render_lines` when the copy of a line is refused.
use psi_code.Prelude.{
  ℕ, ◌+◌, ◌<◌, ◌≡◌, refl, ◌∙◌, Bool, true, false, some, List, [], ◌∷◌, Bytes, length, ◌==◌, ◌||◌,
  arith, strcmp_eq, strcmp_eq_refl, Bool-cases, inl, inr,
}
use psi_code.Screen.{Output, draw_changed, draw_frame_line}
use psi_code.Screen.Render.{
  Cache, Frame, Grants, compare_lines, any, frame_lines, top_of, cursor_changed, cached, framed,
  cursor_output, render_lines, render_reuse,
}
use psi_code.Screen.Terminal.{Terminal, run, run-append, shown, over, draw_frame_line-Written}
use psi_code.Screen.Shows.{Shows, Granted, opened, compare_lines-granted}

draw_changed-below :
    (row : ℕ) (bs : List Bool) (ls : List Bytes) (t : Terminal) (r : ℕ)
    → r < row
    → (run (draw_changed row bs ls) t).rows r ≡ t.rows r
unfolding draw_changed run
draw_changed-below row [] ls t r h = refl
draw_changed-below row (b ∷ bs) [] t r h = refl
draw_changed-below row (false ∷ bs) (l ∷ ls) t r h =
    draw_changed-below (row + 1) bs ls t r (omega arith)
draw_changed-below row (true ∷ bs) (l ∷ ls) t r h =
    let drawn = draw_frame_line row l in
    let w = draw_frame_line-Written row l t in
    rw (run-append drawn (draw_changed (row + 1) bs ls) t)
      (draw_changed-below (row + 1) bs ls (run drawn t) r (omega arith) ∙ ground (arith, w.rows r))

framed-rows :
    (f : Frame) (drawn : List Output) (t : Terminal) (r : ℕ)
    → (run (framed drawn (cursor_output f)) t).rows r ≡ (run drawn (opened t)).rows r
unfolding run
framed-rows f drawn t r = elim (Bool-cases f.cursor_visible) [
  | inl v ↦ rw (v, run, run-append drawn _ (opened t))
  | inr v ↦ rw (v, run, run-append drawn _ (opened t))
]

compare_head :
    (copy : ℕ → Bool) (m : Bytes) (old next : List Bytes)
    → compare_lines copy 0 (m ∷ old) (m ∷ next) ≡ (
        let r = compare_lines copy 1 old next in
        record { lines = m ∷ r.lines; changed = false ∷ r.changed; granted = r.granted })
unfolding compare_lines
compare_head copy m old next = rw (strcmp_eq_refl m)

module _ (base : Frame) (m n : Bytes) (rest : List Bytes) (a b : Bytes) (old : List Bytes)
    (tall : length old ≡ length rest) where
  abbrev pub requested : Frame
  requested = record base { lines = m ∷ (n ∷ rest); force_full = false }

  abbrev pub held : Cache
  held = cached requested (a ∷ (b ∷ old))

  abbrev left : Cache
  left = record held { lines = some (m ∷ (b ∷ old)) }

  refused :
      (g : Grants)
      → g.calloc ≡ true
      → g.copy 0 ≡ true
      → g.copy 1 ≡ false
      → strcmp_eq a m ≡ false
      → strcmp_eq b n ≡ false
      → render_lines requested g held ≡ record { cache = left; output = []; returned = false }
  unfolding render_lines render_reuse frame_lines compare_lines
  refused g calloc first second new other =
      let one_height : (length (a ∷ (b ∷ old)) == length (m ∷ (n ∷ rest))) ≡ true = ground arith in
      rw (one_height, calloc, new, first, other, second) refl

  tried_again :
      (g : Grants) (t : Terminal)
      → Granted g
      → (render_lines requested g left).returned ≡ true
        × (run (render_lines requested g left).output t).rows (top_of base) ≡ t.rows (top_of base)
  unfolding render_lines render_reuse frame_lines draw_changed run
  tried_again g t granted =
      let one_height : (length (m ∷ (b ∷ old)) == length (m ∷ (n ∷ rest))) ≡ true = ground arith in
      let same_top : (top_of base == top_of base) ≡ true = ground arith in
      let r = compare_lines g.copy 1 (b ∷ old) (n ∷ rest) in
      let copied = compare_lines-granted g.copy 1 (b ∷ old) (n ∷ rest) granted.1 in
      let drawn = draw_changed (top_of base + 1) r.changed r.lines in
      let other : Bool = cursor_changed requested left || any (false ∷ r.changed) in
      elim (Bool-cases other) [
        | inl e ↦
            rw
              (
                one_height,
                granted.0,
                compare_head g.copy m (b ∷ old) (n ∷ rest),
                copied,
                same_top,
                e,
              )
              (
                refl,
                framed-rows requested drawn t (top_of base)
                    ∙ draw_changed-below (top_of base + 1) r.changed r.lines (opened t)
                        (top_of base) (omega arith),
              )
        | inr e ↦
            rw
              (
                one_height,
                granted.0,
                compare_head g.copy m (b ∷ old) (n ∷ rest),
                copied,
                same_top,
                e,
              )
              (refl, refl)
      ]

  -- When the first two lines of a frame of at least two lines change, with no forced redraw and
  -- with the height, the top row and the cursor as they were, and the copy of the second line is
  -- refused, the call fails; the same frame drawn again with its allocations granted returns, and
  -- its first row still shows the old line.
  pub retry-stale :
      (g g' : Grants) (t : Terminal)
      → Shows held t
      → g.calloc ≡ true
      → g.copy 0 ≡ true
      → g.copy 1 ≡ false
      → strcmp_eq a m ≡ false
      → strcmp_eq b n ≡ false
      → Granted g'
      → (let r = render_lines requested g held in
          let r' = render_lines requested g' r.cache in
          (r.returned ≡ false)
          × (r'.returned ≡ true)
          × ((run r'.output (run r.output t)).rows (top_of base) ≡ shown a))
  unfolding run over
  retry-stale g g' t s calloc first second new other granted =
      let u = tried_again g' t granted in
      rw (refused g calloc first second new other)
        (refl, u.0, u.1 ∙ s.rows (top_of base) ∙ ground arith)
