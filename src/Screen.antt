-- ===== src/Screen.antt =====
-- What the renderer of src/lua/vm.c writes to the terminal.
pub mod Render
pub mod Terminal
pub mod Compare
pub mod Shows
pub mod Run
pub mod Refused
pub mod Tests
use psi_code.Prelude.{
  ℕ, zero, suc, ◌+◌, ◌-◌, ◌*◌, ◌/◌, ◌%◌, min, Bool, true, false, not, ◌&&◌, ◌||◌, Option, none,
  some, List, [], ◌∷◌, ◌++◌, map, Bytes, codes, length, strcmp_eq, ◌==◌, ltb, if◌then◌else◌,
}
use psi_code.Text.Escape.{esc, bel}

-- One piece of what is written to the terminal.
pub data Output : Type 0 where
  sync_begin sync_end cursor_hide cursor_show reset_style clear_line close_osc8 clear_screen :
      Output
  -- `"\033[%ld;%ldH"`
  move : ℕ → ℕ → Output
  chunk : Bytes → Output

-- The digits of `%ld`, with as much fuel as the number has digits.
digits : ℕ → ℕ → Bytes
digits zero n = []
digits (suc fuel) n =
    let front = digits fuel (n / 10) in
    if ltb n 10 then (b'0' + n) ∷ [] else front ++ ((b'0' + n % 10) ∷ [])

unfoldable pub decimal : ℕ → Bytes
unfolding digits
decimal n = digits 20 n

unfoldable pub bytes_of : Output → Bytes
unfolding decimal
bytes_of sync_begin = esc ∷ codes "[?2026h"
bytes_of sync_end = esc ∷ codes "[?2026l"
bytes_of cursor_hide = esc ∷ codes "[?25l"
bytes_of cursor_show = esc ∷ codes "[?25h"
bytes_of reset_style = esc ∷ codes "[0m"
bytes_of clear_line = esc ∷ codes "[2K"
bytes_of close_osc8 = esc ∷ (codes "]8;;" ++ (bel ∷ []))
bytes_of clear_screen = esc ∷ (codes "[2J" ++ (esc ∷ (codes "[3J" ++ (esc ∷ codes "[H"))))
bytes_of (move row col) = esc ∷ (b'[' ∷ (decimal row ++ (b';' ∷ (decimal col ++ (b'H' ∷ [])))))
bytes_of (chunk s) = s

-- `if (cursor > chunk)`
abbrev pub flushed : Bytes → List Bytes → List Bytes
flushed [] out = out
flushed (b ∷ bs) out = (b ∷ bs) ∷ out

-- What the loop writes from `cursor` on, where `held` are the bytes from `chunk` up to it.
unfoldable pub line_chunks : Bytes → Bytes → List Bytes
line_chunks held [] = flushed held []
line_chunks held (c ∷ []) =
    if c == 0x0d || c == 0x0a
    then flushed held ((b' ' ∷ []) ∷ [])
    else flushed (held ++ (c ∷ [])) []
line_chunks held (c ∷ (d ∷ s)) =
    let behind_pair = flushed held ((b' ' ∷ []) ∷ line_chunks [] s) in
    let behind_newline = flushed held ((b' ' ∷ []) ∷ line_chunks [] (d ∷ s)) in
    let further = line_chunks (held ++ (c ∷ [])) (d ∷ s) in
    if c == 0x0d || c == 0x0a
    then if c == 0x0d && d == 0x0a then behind_pair else behind_newline
    else further

unfoldable pub write_frame_line_text : Bytes → List Output
unfolding line_chunks
write_frame_line_text text = map chunk (line_chunks [] text)

unfoldable pub draw_raw_line : ℕ → Bytes → List Output
unfolding write_frame_line_text
draw_raw_line row text =
    move row 1 ∷ (clear_line ∷ (write_frame_line_text text ++ (reset_style ∷ [])))

unfoldable pub draw_frame_line : ℕ → Bytes → List Output
unfolding write_frame_line_text
draw_frame_line row text =
    move row 1 ∷ (clear_line ∷ (write_frame_line_text text ++ (reset_style ∷ (close_osc8 ∷ []))))

unfoldable pub clear_rows : ℕ → List Bytes → List Output
clear_rows row [] = []
clear_rows row (l ∷ ls) = move row 1 ∷ (clear_line ∷ clear_rows (row + 1) ls)

unfoldable pub draw_all : ℕ → List Bytes → List Output
unfolding draw_frame_line
draw_all row [] = []
draw_all row (l ∷ ls) = draw_frame_line row l ++ draw_all (row + 1) ls

unfoldable pub draw_changed : ℕ → List Bool → List Bytes → List Output
unfolding draw_frame_line
draw_changed row [] ls = []
draw_changed row (b ∷ bs) [] = []
draw_changed row (b ∷ bs) (l ∷ ls) =
    (if b then draw_frame_line row l else []) ++ draw_changed (row + 1) bs ls
