-- ===== src/Screen/Render.antt =====
-- The cache of the drawn lines, and `lfn_tui_render_lines` of src/lua/vm.c.
use psi_code.Prelude.{
  Integer, ℕ, ◌+◌, ◌-◌, min, Bool, true, false, not, ◌&&◌, ◌||◌, Option, none, some, List, [], ◌∷◌,
  ◌++◌, Bytes, length, strcmp_eq, ◌==◌, if◌then◌else◌,
}
use psi_code.Text.Width.{at_least_one}
use psi_code.Screen.{
  Output, sync_begin, sync_end, cursor_hide, cursor_show, clear_screen, move, clear_rows, draw_all,
  draw_changed,
}

-- The statics of the renderer. `previous_line_count` is the length of the lines.
pub record Cache : Type 0 where
  pub lines : Option (List Bytes)
  pub top : ℕ
  pub cursor_row : ℕ
  pub cursor_col : ℕ
  pub cursor_visible : Bool
  pub frame_active : Bool

unfoldable pub reset_render_cache : Cache → Cache
reset_render_cache c = record c {
  lines = none;
  top = 1;
  cursor_row = 0;
  cursor_col = 0;
  cursor_visible = false;
}

-- The arguments of `psi.tui_render_lines`. An entry that is no string is the empty line.
pub record Frame : Type 0 where
  pub lines : List Bytes
  pub cursor_row_arg : Integer
  pub cursor_col_arg : Integer
  pub cursor_visible : Bool
  pub force_full : Bool
  pub top_arg : Integer

-- The answers of the allocator: to `calloc`, and to the copy of each line.
pub record Grants : Type 0 where
  pub calloc : Bool
  pub copy : ℕ → Bool

-- How a call ends; `returned` is false for the Lua error "out of memory".
pub record Rendered : Type 0 where
  pub cache : Cache
  pub output : List Output
  pub returned : Bool

-- An empty table makes one empty line.
unfoldable pub frame_lines : List Bytes → List Bytes
frame_lines [] = [] ∷ []
frame_lines (l ∷ ls) = l ∷ ls

-- What the loop over the cached lines leaves: the lines, the flags `changed`, and whether every copy
-- was granted.
pub record Compared : Type 0 where
  pub lines : List Bytes
  pub changed : List Bool
  pub granted : Bool

unfoldable pub compare_lines : (ℕ → Bool) → ℕ → List Bytes → List Bytes → Compared
compare_lines copy i [] next = record { lines = []; changed = []; granted = true }
compare_lines copy i (p ∷ ps) [] = record { lines = p ∷ ps; changed = []; granted = true }
compare_lines copy i (p ∷ ps) (n ∷ ns) =
    let rest = compare_lines copy (i + 1) ps ns in
    let kept : Compared = record rest { lines = p ∷ rest.lines; changed = false ∷ rest.changed } in
    let copied : Compared = record rest { lines = n ∷ rest.lines; changed = true ∷ rest.changed } in
    let refused : Compared = record { lines = p ∷ ps; changed = []; granted = false } in
    if strcmp_eq p n then kept else if copy i then copied else refused

unfoldable pub any : List Bool → Bool
any [] = false
any (b ∷ bs) = b || any bs

-- The copies of all lines of a frame of another height.
unfoldable pub all_copied : (ℕ → Bool) → ℕ → List Bytes → Bool
all_copied copy i [] = true
all_copied copy i (l ∷ ls) = copy i && all_copied copy (i + 1) ls

abbrev pub cursor_row_of : Frame → ℕ
cursor_row_of f = min (at_least_one f.cursor_row_arg) (length (frame_lines f.lines))

abbrev pub cursor_col_of : Frame → ℕ
cursor_col_of f = at_least_one f.cursor_col_arg

abbrev pub top_of : Frame → ℕ
top_of f = at_least_one f.top_arg

unfoldable pub bool_eq : Bool → Bool → Bool
bool_eq true b = b
bool_eq false b = not b

unfoldable pub cursor_changed : Frame → Cache → Bool
unfolding bool_eq
cursor_changed f c =
    not (c.cursor_row == cursor_row_of f)
    || (not (c.cursor_col == cursor_col_of f) || not (bool_eq c.cursor_visible f.cursor_visible))

-- `previous_top` and the rows of the viewport that is left behind.
unfoldable pub old_viewport : Frame → Cache → List Output
unfolding clear_rows
old_viewport f c = elim c.lines [
  | none ↦ []
  | some old ↦
      if not (c.top == top_of f) || not (length old == length (frame_lines f.lines))
      then clear_rows c.top old
      else []
]

abbrev pub cursor_output : Frame → List Output
cursor_output f =
    if f.cursor_visible
    then move (top_of f + cursor_row_of f - 1) (cursor_col_of f) ∷ (cursor_show ∷ [])
    else cursor_hide ∷ []

-- A frame between the two marks of a synchronised update.
abbrev pub framed : List Output → List Output → List Output
framed drawn cursor = sync_begin ∷ (cursor_hide ∷ (drawn ++ (cursor ++ (sync_end ∷ []))))

abbrev pub cached : Frame → List Bytes → Cache
cached f lines = record {
  lines = some lines;
  top = top_of f;
  cursor_row = cursor_row_of f;
  cursor_col = cursor_col_of f;
  cursor_visible = f.cursor_visible;
  frame_active = false;
}

-- A frame of another height, or the first one.
unfoldable pub render_new : Frame → Grants → Cache → Rendered
unfolding draw_all all_copied frame_lines old_viewport
render_new f g c =
    let lines = frame_lines f.lines in
    if g.calloc && all_copied g.copy 0 lines
    then record {
      cache = cached f lines;
      output = framed (old_viewport f c ++ draw_all (top_of f) lines) (cursor_output f);
      returned = true;
    }
    else record { cache = c; output = []; returned = false }

-- A frame of the same height as the cached one, whose lines are `old`.
unfoldable pub render_reuse : Frame → Grants → Cache → List Bytes → Rendered
unfolding draw_all draw_changed compare_lines any frame_lines cursor_changed old_viewport
render_reuse f g c old =
    let r = compare_lines g.copy 0 old (frame_lines f.lines) in
    let full_redraw : Bool = f.force_full || not (c.top == top_of f) in
    let drawn =
      if full_redraw
      then old_viewport f c ++ draw_all (top_of f) r.lines
      else draw_changed (top_of f) r.changed r.lines in
    if not g.calloc
    then record { cache = c; output = []; returned = false }
    else if not r.granted
    then record { cache = record c { lines = some r.lines }; output = []; returned = false }
    else record {
      cache = cached f r.lines;
      output =
          if full_redraw || (cursor_changed f c || any r.changed)
          then framed drawn (cursor_output f)
          else [];
      returned = true;
    }

unfoldable pub render_lines : Frame → Grants → Cache → Rendered
unfolding render_new render_reuse frame_lines
render_lines f g c = elim c.lines [
  | none ↦ render_new f g c
  | some old ↦
      if length old == length (frame_lines f.lines)
      then render_reuse f g c old
      else render_new f g c
]

-- `lfn_tui_clear`
unfoldable pub clear : Bool → Cache → Cache × List Output
unfolding reset_render_cache
clear force c = if force then (reset_render_cache c, clear_screen ∷ []) else (c, [])
