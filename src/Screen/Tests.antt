-- ===== src/Screen/Tests.antt =====
-- Runs of the renderer, and its theorems at concrete frames.
use psi_code.Prelude.{
  pos, negsuc, ◌≡◌, refl, true, false, some, none, [], ◌∷◌, Bytes, codes, length, ◌==◌, strcmp_eq,
}
use psi_code.Text.Escape.{esc}
use psi_code.Screen.{move, chunk, bytes_of, write_frame_line_text}
use psi_code.Screen.Render.{Cache, Frame, Grants, frame_lines, cached, render_lines}
use psi_code.Screen.Terminal.{Terminal, run, shown, over, blank}
use psi_code.Screen.Shows.{Shows, Granted}
use psi_code.Screen.Run.{wipe, draw, step, steps, IsFrame, steps-IsFrame}
use psi_code.Screen.Refused.{requested, held, retry-stale}

abbrev granting : Grants
granting = record { calloc = true; copy = λ i. true }

abbrev second_refused : Grants
second_refused = record { calloc = true; copy = λ i. i == 0 }

abbrev all_granted : Granted granting
all_granted = (refl, λ i. refl)

abbrev empty_cache : Cache
empty_cache = record {
  lines = none;
  top = 1;
  cursor_row = 0;
  cursor_col = 0;
  cursor_visible = false;
  frame_active = false;
}

abbrev empty_terminal : Terminal
empty_terminal = record { rows = blank; row = 1; col = some 1; visible = true; sync = false }

abbrev two_lines : Bytes → Bytes → Frame
two_lines a b = record {
  lines = a ∷ (b ∷ []);
  cursor_row_arg = pos 9;
  cursor_col_arg = negsuc 0;
  cursor_visible = true;
  force_full = false;
  top_arg = pos 3;
}

move_bytes : bytes_of (move 12 1) ≡ esc ∷ codes "[12;1H"
unfolding bytes_of
move_bytes = refl

frame_text :
    write_frame_line_text (0x61 ∷ (0x0d ∷ (0x0a ∷ (0x62 ∷ []))))
    ≡ chunk (codes "a") ∷ (chunk (codes " ") ∷ (chunk (codes "b") ∷ []))
unfolding write_frame_line_text
frame_text = refl

steps-IsFrame_example :
    IsFrame
      (two_lines (codes "a") (codes "c"))
      (step (draw (two_lines (codes "a") (codes "c")) granting) (
        steps
          (draw (two_lines (codes "a") (codes "b")) granting ∷ [])
          (step (wipe true) (record { cache = empty_cache; terminal = empty_terminal })))).terminal
steps-IsFrame_example =
    steps-IsFrame (draw (two_lines (codes "a") (codes "b")) granting ∷ [])
      (two_lines (codes "a") (codes "c")) granting
      (record { cache = empty_cache; terminal = empty_terminal }) refl (all_granted, tt) all_granted

-- Only the changed line is written.
one_line_drawn :
    length
      (render_lines
        (two_lines (codes "a") (codes "c"))
        granting
        (cached (two_lines (codes "a") (codes "b")) (codes "a" ∷ (codes "b" ∷ [])))).output
    ≡ 10
unfolding render_lines frame_lines strcmp_eq
one_line_drawn = refl

abbrev old_frame : Cache
old_frame = held (two_lines [] []) (codes "m") (codes "n") [] (codes "a") (codes "b") [] refl

abbrev old_terminal : Terminal
old_terminal = record {
  rows = over 3 (codes "a" ∷ (codes "b" ∷ [])) blank;
  row = 4;
  col = some 1;
  visible = true;
  sync = false;
}

old_frame-Shows : Shows old_frame old_terminal
unfolding over shown frame_lines
old_frame-Shows = record { rows = λ r. refl; points = (refl, λ h. refl, λ h. refl); sync = refl }

retry-stale_example :
    let f =
      requested (two_lines [] []) (codes "m") (codes "n") [] (codes "a") (codes "b") [] refl in
    let r = render_lines f second_refused old_frame in
    let r' = render_lines f granting r.cache in
    (r.returned ≡ false)
    × (r'.returned ≡ true)
    × ((run r'.output (run r.output old_terminal)).rows 3 ≡ shown (codes "a"))
unfolding strcmp_eq
retry-stale_example =
    retry-stale (two_lines [] []) (codes "m") (codes "n") [] (codes "a") (codes "b") [] refl
      second_refused granting old_terminal old_frame-Shows refl refl refl refl refl all_granted
