-- ===== src/Screen/Run.antt =====
-- Sequences of calls of `psi.tui_clear` and `psi.tui_render_lines`.
use psi_code.Prelude.{ℕ, ◌+◌, ◌-◌, ◌≡◌, Bool, true, false, some, List, [], ◌∷◌, map}
use mathlib.Core.Path.{subst}
use psi_code.Screen.Render.{
  Cache, Frame, Grants, frame_lines, top_of, cursor_row_of, cursor_col_of, render_lines, clear,
}
use psi_code.Screen.Terminal.{Terminal, run, shown, over, blank}
use psi_code.Screen.Shows.{Shows, Granted, render_lines-Renders, clear-Shows}

pub data Request : Type 0 where
  wipe : Bool → Request
  draw : Frame → Grants → Request

pub record Screen : Type 0 where
  pub cache : Cache
  pub terminal : Terminal

abbrev pub step : Request → Screen → Screen
step (wipe force) s =
    let (cache, output) = clear force s.cache in
    record { cache = cache; terminal = run output s.terminal }
step (draw f g) s =
    let r = render_lines f g s.cache in
    record { cache = r.cache; terminal = run r.output s.terminal }

abbrev pub steps : List Request → Screen → Screen
steps [] s = s
steps (q ∷ qs) s = steps qs (step q s)

abbrev pub AllGranted : List Request → Type 0
AllGranted [] = Unit {0}
AllGranted (wipe force ∷ qs) = AllGranted qs
AllGranted (draw f g ∷ qs) = Granted g × AllGranted qs

wipe-Shows :
    (force : Bool) (s : Screen)
    → Shows s.cache s.terminal
    → Shows (clear force s.cache).0 (run (clear force s.cache).1 s.terminal)
unfolding clear run
wipe-Shows true s h = clear-Shows s.cache s.terminal h.sync
wipe-Shows false s h = h

steps-Shows :
    (qs : List Request) (s : Screen)
    → AllGranted qs
    → Shows s.cache s.terminal
    → Shows (steps qs s).cache (steps qs s).terminal
steps-Shows [] s g h = h
steps-Shows (wipe force ∷ qs) s g h = steps-Shows qs (step (wipe force) s) g (wipe-Shows force s h)
steps-Shows (draw f a ∷ qs) s (g, gs) h =
    steps-Shows qs (step (draw f a) s) gs (render_lines-Renders f a s.cache s.terminal g h).shows

-- What a frame asks for.
pub record IsFrame (f : Frame) (t : Terminal) : Type 0 where
  pub rows : (r : ℕ) → t.rows r ≡ over (top_of f) (map shown (frame_lines f.lines)) blank r
  pub visible : t.visible ≡ f.cursor_visible
  pub row : f.cursor_visible ≡ true → t.row ≡ top_of f + cursor_row_of f - 1
  pub col : f.cursor_visible ≡ true → t.col ≡ some (cursor_col_of f)
  pub sync : t.sync ≡ false

Renders-IsFrame :
    (f : Frame) (c : Cache) (t : Terminal)
    → c ≡ record {
      lines = some (frame_lines f.lines);
      top = top_of f;
      cursor_row = cursor_row_of f;
      cursor_col = cursor_col_of f;
      cursor_visible = f.cursor_visible;
      frame_active = false;
    }
    → Shows c t
    → IsFrame f t
Renders-IsFrame f c t e s =
    let s' = subst (λ x. Shows x t) e s in
    let (visible, row, col) = s'.points in
    record { rows = s'.rows; visible = visible; row = row; col = col; sync = s'.sync }

-- Whatever frames are drawn and whatever is cleared behind psi.tui_clear(true), when the
-- allocations are granted and no update was open the last frame drawn is on the screen: each of
-- its lines at its row with the line breaks as blanks, every other row empty, the cursor as
-- asked, and no update left open.
pub steps-IsFrame :
    (qs : List Request) (f : Frame) (g : Grants) (s : Screen)
    → s.terminal.sync ≡ false
    → AllGranted qs
    → Granted g
    → IsFrame f (step (draw f g) (steps qs (step (wipe true) s))).terminal
steps-IsFrame qs f g s h gs granted =
    let cleared = step (wipe true) s in
    let before = steps qs cleared in
    let shows = steps-Shows qs cleared gs (clear-Shows s.cache s.terminal h) in
    let r = render_lines-Renders f g before.cache before.terminal granted shows in
    Renders-IsFrame f (render_lines f g before.cache).cache _ r.cache r.shows
