-- ===== src/Screen/Shows.antt =====
-- What is on the screen behind the calls of the renderer.
use psi_code.Prelude.{
  ℕ, ◌+◌, ◌-◌, ◌≡◌, refl, sym, ap, ◌∙◌, Bool, true, false, not, ◌||◌, Option, none, some, List, [],
  ◌∷◌, ◌++◌, map, arith, Bytes, length, ◌==◌, if◌then◌else◌, Bool-cases, inl, inr,
}
use psi_code.Screen.{Output, sync_begin, cursor_hide, draw_changed, draw_all, clear_rows}
use psi_code.Screen.Render.{
  Cache, Frame, Grants, Rendered, Compared, compare_lines, any, all_copied, frame_lines, top_of,
  cursor_row_of, cursor_col_of, cursor_changed, bool_eq, old_viewport, cursor_output, framed,
  cached, render_new, render_reuse, render_lines, clear, reset_render_cache,
}
use psi_code.Screen.Terminal.{
  Terminal, apply, run, run-append, shown, over, over-base, over-over, over-blank_lines,
  length-blank_lines, length-shown, blank, blank_lines, draw_all-Drawn, clear_rows-Drawn,
}
use psi_code.Screen.Compare.{compare_lines-next, compare_lines-same, draw_changed-over}

-- The rows that a cache stands for.
abbrev pub rows_of : Cache → ℕ → Bytes
rows_of c r = elim c.lines [ none ↦ [] | some ls ↦ over c.top (map shown ls) blank r ]

-- The cursor that a cache stands for, when it has one.
abbrev pub PointsAt : Cache → Terminal → Type 0
PointsAt c t = elim c.lines [
  | none ↦ Unit {0}
  | some ls ↦
      (t.visible ≡ c.cursor_visible)
      × (c.cursor_visible ≡ true → t.row ≡ c.top + c.cursor_row - 1)
      × (c.cursor_visible ≡ true → t.col ≡ some c.cursor_col)
]

-- The screen shows the cached lines at their rows and nothing else, with no update open.
pub record Shows (c : Cache) (t : Terminal) : Type 0 where
  pub rows : (r : ℕ) → t.rows r ≡ rows_of c r
  pub points : PointsAt c t
  pub sync : t.sync ≡ false

abbrev pub opened : Terminal → Terminal
opened t = apply cursor_hide (apply sync_begin t)

framed-Shows :
    (f : Frame) (drawn : List Output) (lines : List Bytes) (t : Terminal)
    → ((r : ℕ) → (run drawn (opened t)).rows r ≡ over (top_of f) (map shown lines) blank r)
    → Shows (cached f lines) (run (framed drawn (cursor_output f)) t)
unfolding run
framed-Shows f drawn lines t e = elim (Bool-cases f.cursor_visible) [
  | inl v ↦
      rw (v, run, run-append drawn _ (opened t))
        record { rows = e; points = (refl, λ h. refl, λ h. refl); sync = refl }
  | inr v ↦
      rw (v, run, run-append drawn _ (opened t))
        record { rows = e; points = (refl, λ h. cc, λ h. cc); sync = refl }
]

-- Lines as many as a frame has, drawn where the old viewport has been cleared as far as need be.
module _ (f : Frame) (c : Cache) (t : Terminal) (lines : List Bytes)
    (h : length lines ≡ length (frame_lines f.lines)) where
  covered_from :
      (held : Option (List Bytes))
      → ((r : ℕ) → t.rows r ≡ rows_of (record c { lines = held }) r)
      → (r : ℕ)
      → over
          (top_of f)
          (map shown lines)
          (run (old_viewport f (record c { lines = held })) t).rows
          r
        ≡ over (top_of f) (map shown lines) blank r
  unfolding run old_viewport
  covered_from none e r = over-base (top_of f) (map shown lines) t.rows blank e r
  covered_from (some old) e r =
      elim (Bool-cases
        (not (c.top == top_of f) || not (length old == length (frame_lines f.lines)))) [
          | inl moved ↦
              let d = clear_rows-Drawn c.top old t in
              let cleared : (q : ℕ) → (run (clear_rows c.top old) t).rows q ≡ [] = λ q.
                d.drawn q
                ∙ over-base c.top (blank_lines old) t.rows _ e q
                ∙ over-over c.top (blank_lines old) (map shown old) blank q (length-blank_lines old)
                ∙ over-blank_lines c.top old q in
              rw moved (over-base (top_of f) (map shown lines) _ blank cleared r)
          | inr stays ↦
              let top : c.top ≡ top_of f = ground arith in
              let same : length (map shown lines) ≡ length (map shown old) =
                ground (arith, length-shown lines, length-shown old) in
              rw stays (
                over-base (top_of f) (map shown lines) t.rows _ e r
                ∙ ap (λ n. over (top_of f) (map shown lines) (over n (map shown old) blank) r) top
                ∙ over-over (top_of f) (map shown lines) (map shown old) blank r same)
        ]

  covered :
      ((r : ℕ) → t.rows r ≡ rows_of c r)
      → (r : ℕ)
      → over (top_of f) (map shown lines) (run (old_viewport f c) t).rows r
        ≡ over (top_of f) (map shown lines) blank r
  covered e r = covered_from c.lines e r

  redrawn :
      ((r : ℕ) → t.rows r ≡ rows_of c r)
      → (r : ℕ)
      → (run (old_viewport f c ++ draw_all (top_of f) lines) t).rows r
        ≡ over (top_of f) (map shown lines) blank r
  redrawn e r =
      let u = run (old_viewport f c) t in
      rw (run-append (old_viewport f c) (draw_all (top_of f) lines) t)
        ((draw_all-Drawn (top_of f) lines u).drawn r ∙ covered e r)

-- A frame whose allocations are granted.
abbrev pub Granted : Grants → Type 0
Granted g = (g.calloc ≡ true) × ((i : ℕ) → g.copy i ≡ true)

all_copied-granted :
    (copy : ℕ → Bool) (i : ℕ) (ls : List Bytes)
    → ((n : ℕ) → copy n ≡ true)
    → all_copied copy i ls ≡ true
unfolding all_copied
all_copied-granted copy i [] h = refl
all_copied-granted copy i (l ∷ ls) h = ground (arith, h i, all_copied-granted copy (i + 1) ls h)

pub compare_lines-granted :
    (copy : ℕ → Bool) (i : ℕ) (old next : List Bytes)
    → ((n : ℕ) → copy n ≡ true)
    → (compare_lines copy i old next).granted ≡ true
unfolding compare_lines
compare_lines-granted copy i [] next h = refl
compare_lines-granted copy i (p ∷ ps) [] h = refl
compare_lines-granted copy i (p ∷ ps) (n ∷ ns) h =
    ground (arith, h i, compare_lines-granted copy (i + 1) ps ns h)

-- What a call that returns has done: the screen shows the frame, and the cache is the frame.
pub record Renders (f : Frame) (r : Rendered) (t : Terminal) : Type 0 where
  pub returned : r.returned ≡ true
  pub cache : r.cache ≡ cached f (frame_lines f.lines)
  pub shows : Shows r.cache (run r.output t)

render_new-Renders :
    (f : Frame) (g : Grants) (c : Cache) (t : Terminal)
    → Granted g
    → Shows c t
    → Renders f (render_new f g c) t
unfolding render_new
render_new-Renders f g c t (k, copies) s =
    let lines = frame_lines f.lines in
    rw (k, all_copied-granted g.copy 0 lines copies)
      record {
        returned = refl;
        cache = refl;
        shows =
            framed-Shows f (old_viewport f c ++ draw_all (top_of f) lines) lines t
              (redrawn f c (opened t) lines refl s.rows);
      }

module _ (f : Frame) (g : Grants) (c : Cache) (old : List Bytes) (t : Terminal)
    (granted : Granted g) (tall : length old ≡ length (frame_lines f.lines))
    (s : Shows (record c { lines = some old }) t) where
  abbrev compared : Compared
  compared = compare_lines g.copy 0 old (frame_lines f.lines)

  copied : compared.granted ≡ true
  copied = compare_lines-granted g.copy 0 old (frame_lines f.lines) granted.1

  renewed : compared.lines ≡ frame_lines f.lines
  renewed = compare_lines-next g.copy 0 old (frame_lines f.lines) tall copied

  changed-over :
      c.top ≡ top_of f
      → (r : ℕ)
      → (run (draw_changed (top_of f) compared.changed compared.lines) (opened t)).rows r
        ≡ over (top_of f) (map shown (frame_lines f.lines)) blank r
  changed-over top r =
      draw_changed-over g.copy 0 (top_of f) old (frame_lines f.lines) blank (opened t) tall copied
        (λ q. s.rows q ∙ ap (λ n. over n (map shown old) blank q) top) r

  unchanged :
      c.top ≡ top_of f
      → cursor_changed f (record c { lines = some old }) ≡ false
      → any compared.changed ≡ false
      → Shows (cached f (frame_lines f.lines)) t
  unfolding cursor_changed bool_eq
  unchanged top still none_changed =
      let same = compare_lines-same g.copy 0 old (frame_lines f.lines) tall copied none_changed in
      let row : c.cursor_row ≡ cursor_row_of f = ground arith in
      let col : c.cursor_col ≡ cursor_col_of f = ground arith in
      let seen : c.cursor_visible ≡ f.cursor_visible = ground arith in
      let (visible, at_row, at_col) = s.points in
      record {
        rows = λ r.
            s.rows r
            ∙ ap (λ n. over n (map shown old) blank r) top
            ∙ ap (λ ls. over (top_of f) (map shown ls) blank r) same;
        points = (
          visible ∙ seen,
          λ h. let e = at_row (seen ∙ h) in ground arith,
          λ h. at_col (seen ∙ h) ∙ ap some col,
        );
        sync = s.sync;
      }

  render_reuse-Renders : Renders f (render_reuse f g (record c { lines = some old }) old) t
  unfolding render_reuse run
  render_reuse-Renders =
      let held : Cache = record c { lines = some old } in
      let lines = frame_lines f.lines in
      let full : Bool = f.force_full || not (c.top == top_of f) in
      let other : Bool = cursor_changed f held || any compared.changed in
      elim (Bool-cases full) [
        | inl e ↦
            rw (granted.0, copied, renewed, e)
              record {
                returned = refl;
                cache = refl;
                shows =
                    framed-Shows f (old_viewport f held ++ draw_all (top_of f) lines) lines t
                      (redrawn f held (opened t) lines refl s.rows);
              }
        | inr e ↦
            let top : c.top ≡ top_of f = ground arith in
            elim (Bool-cases other) [
              | inl o ↦
                  rw (granted.0, copied, e, o)
                    record {
                      returned = refl;
                      cache = ap (cached f) renewed;
                      shows =
                          framed-Shows f (draw_changed (top_of f) compared.changed compared.lines)
                            compared.lines t
                            λ r.
                              changed-over top r
                              ∙ ap (λ ls. over (top_of f) (map shown ls) blank r) (sym renewed);
                    }
              | inr o ↦
                  rw (granted.0, copied, renewed, e, o)
                    record {
                      returned = refl;
                      cache = refl;
                      shows = unchanged top (ground arith) (ground arith);
                    }
            ]
      ]

either :
    (f : Frame) (b : Bool) (x y : Rendered) (t : Terminal)
    → (b ≡ true → Renders f x t)
    → (b ≡ false → Renders f y t)
    → Renders f (if b then x else y) t
either f true x y t h k = h refl
either f false x y t h k = k refl

render_from :
    (f : Frame) (g : Grants) (c : Cache) (held : Option (List Bytes)) (t : Terminal)
    → Granted g
    → Shows (record c { lines = held }) t
    → Renders f (render_lines f g (record c { lines = held })) t
unfolding render_lines
render_from f g c none t granted s = render_new-Renders f g (record c { lines = none }) t granted s
render_from f g c (some old) t granted s =
    let held : Cache = record c { lines = some old } in
    either f (length old == length (frame_lines f.lines)) (render_reuse f g held old)
      (render_new f g held) t (λ tall. render_reuse-Renders f g c old t granted (ground arith) s)
      (λ other. render_new-Renders f g held t granted s)

-- With its allocations granted, a call makes the screen show the frame.
pub render_lines-Renders :
    (f : Frame) (g : Grants) (c : Cache) (t : Terminal)
    → Granted g
    → Shows c t
    → Renders f (render_lines f g c) t
render_lines-Renders f g c t granted s = render_from f g c c.lines t granted s

-- `psi.tui_clear(true)` makes any screen the empty one.
pub clear-Shows :
    (c : Cache) (t : Terminal) → t.sync ≡ false → Shows (clear true c).0 (run (clear true c).1 t)
unfolding clear reset_render_cache run
clear-Shows c t h = record { rows = λ r. refl; points = tt; sync = h }
