-- ===== src/Driver/Run.antt =====
-- The life of a terminal session: entering, suspending, resuming and leaving, and
-- `psi_run_tui_mode` with its exit handler, all of src/runtime/tui_mode.c.
use psi_code.Prelude.{
  ℕ, Bool, true, false, not, ◌||◌, Option, none, some, List, [], ◌∷◌, if◌then◌else◌,
}
use psi_code.Driver.{
  File, terminal, Descriptors, answer, asked, close, opened, stdio_guard_end, stdio_guard_begin,
}

-- The parts of a `struct termios` that raw mode sets; `rest` stands for all else.
pub record Attrs : Type 0 where
  pub brkint : Bool
  pub icrnl : Bool
  pub inpck : Bool
  pub istrip : Bool
  pub ixon : Bool
  pub opost : Bool
  pub cs8 : Bool
  pub echo : Bool
  pub icanon : Bool
  pub iexten : Bool
  pub isig : Bool
  pub vmin : ℕ
  pub vtime : ℕ
  pub rest : ℕ

unfoldable pub apply_raw_mode : Attrs → Attrs
apply_raw_mode a = record a {
  brkint = false;
  icrnl = false;
  inpck = false;
  istrip = false;
  ixon = false;
  opost = false;
  cs8 = true;
  echo = false;
  icanon = false;
  iexten = false;
  isig = false;
  vmin = 0;
  vtime = 0;
}

-- The modes of the terminal that the sequences turn on and off.
pub record Modes : Type 0 where
  pub alt_screen : Bool
  pub mouse : Bool
  pub paste : Bool
  pub sync : Bool
  pub cursor : Bool

-- The descriptors, the terminal and the statics of the file. `reset` says whether the system grants
-- the return to the original attributes.
pub record World : Type 0 where
  pub io : Descriptors
  pub attrs : Attrs
  pub modes : Modes
  pub original : Option Attrs
  pub alt_flag : Bool
  pub terminal_fd : Option ℕ
  pub reset : Bool

abbrev pub is_terminal : Option File → Bool
is_terminal (some terminal) = true
is_terminal f = false

-- A sequence reaches the terminal through a descriptor that is open on it.
abbrev pub through : Option ℕ → (Modes → Modes) → World → World
through none f w = w
through (some n) f w = record w { modes = if is_terminal (w.io.fds n) then f w.modes else w.modes }

-- `fputs(..., stdout)`
abbrev pub put : (Modes → Modes) → World → World
put f w = through (some 1) f w

-- `PSI_TUI_ENTER_SEQ`
abbrev pub enter_seq : Modes → Modes
enter_seq m = record m { alt_screen = true; mouse = true; paste = true; cursor = true }

-- `PSI_TUI_ENABLE_BRACKETED_PASTE`
abbrev pub enable_paste : Modes → Modes
enable_paste m = record m { paste = true }

-- `PSI_TUI_LEAVE_SEQ`
abbrev pub leave_seq : Modes → Modes
leave_seq m = record m {
  alt_screen = false;
  mouse = false;
  paste = false;
  sync = false;
  cursor = true;
}

-- `PSI_TUI_LEAVE_INLINE_SEQ`
abbrev pub leave_inline_seq : Modes → Modes
leave_inline_seq m = record m { paste = false; sync = false; cursor = true }

abbrev pub asks : World → Bool × World
asks w = (answer w.io.answers, record w { io = asked w.io })

-- The rest of a function behind a call that may fail.
abbrev pub and_then : Bool × World → (World → Bool × World) → Bool × World
and_then (false, w) f = (false, w)
and_then (true, w) f = f w

-- Raw mode, made from the original attributes.
abbrev pub set_raw : Attrs → World → Bool × World
set_raw a w = (
  answer w.io.answers,
  record w { io = asked w.io; attrs = if answer w.io.answers then apply_raw_mode a else w.attrs },
)

unfoldable pub enter_terminal : World → Bool × World
enter_terminal w = and_then (asks w) λ w1.
    and_then (set_raw w1.attrs (record w1 { original = some w1.attrs }))
      λ w2. (true, put enable_paste w2)

abbrev pub back_to : Option Attrs → World → Attrs
back_to none w = w.attrs
back_to (some a) w = if w.reset then a else w.attrs

abbrev pub leaving : World → World
leaving w = put (if w.alt_flag then leave_seq else leave_inline_seq) w

unfoldable pub leave_terminal : World → World
leave_terminal w = record (leaving w) { attrs = back_to w.original w; alt_flag = false }

abbrev pub end_guard : World → World
end_guard w = record w { io = stdio_guard_end w.io }

abbrev pub has_original : Option Attrs → Bool
has_original none = false
has_original (some a) = true

unfoldable pub suspend_terminal : World → Bool × World
suspend_terminal w =
    let out = leaving (end_guard w) in
    (not (has_original w.original) || w.reset, record out { attrs = back_to w.original w })

abbrev pub begin_guard : World → Bool × World
begin_guard w = let (done, io) = stdio_guard_begin w.io in (done, record w { io = io })

abbrev pub resume_with : Option Attrs → World → Bool × World
resume_with none w = (false, w)
resume_with (some a) w =
    and_then (set_raw a w)
      λ w1. begin_guard (put (if w1.alt_flag then enter_seq else enable_paste) w1)

unfoldable pub resume_terminal : World → Bool × World
resume_terminal w = resume_with w.original w

-- The close of `psi_tui_terminal_fd`.
abbrev pub close_terminal : World → World
close_terminal w = record w {
  io = record w.io { fds = close w.terminal_fd w.io.fds };
  terminal_fd = none;
}

unfoldable pub release : World → World
unfolding leave_terminal
release w = close_terminal (record (leave_terminal (end_guard w)) { original = none })

-- `psi_tui_atexit_restore`
unfoldable pub atexit_restore : World → World
unfolding leave_terminal
atexit_restore w =
    let ended = end_guard w in
    close_terminal
      (if has_original w.original then record (leave_terminal ended) { original = none } else ended)

-- What Lua asks of the driver while it runs: the terminal handed over to another program, by
-- `psi.tui_suspend` and `psi.tui_external_editor`, and the other screen, by
-- `psi.tui_set_alt_screen_active` and the sequence that Lua writes along with it. The other program is taken to
-- leave the terminal as it found it.
pub data Op : Type 0 where
  hand_over : Op
  set_alt_screen : Bool → Op

unfoldable pub perform : Op → World → World
perform hand_over w = (and_then (suspend_terminal w) resume_terminal).1
perform (set_alt_screen enter) w =
    record (through w.terminal_fd (if enter then enter_seq else leave_seq) w) { alt_flag = enter }

abbrev pub perform_all : List Op → World → World
perform_all [] w = w
perform_all (op ∷ ops) w = perform_all ops (perform op w)

-- Whether the Lua program returns or, by `exit`, ends the process.
pub data Ending : Type 0 where
  returns exits : Ending

abbrev pub ended_by : Ending → World → World
ended_by returns w = release w
ended_by exits w = w

abbrev pub with_guard : Ending → List Op → Bool × World → World
with_guard ending ops (false, w) = release w
with_guard ending ops (true, w) = ended_by ending (perform_all ops w)

abbrev pub with_terminal : Ending → List Op → World → Option ℕ × Descriptors → World
with_terminal ending ops w (none, io) = release (record w { io = io })
with_terminal ending ops w (some fd, io) =
    with_guard ending ops (begin_guard (record w { io = io; terminal_fd = some fd }))

-- Behind `psi_tui_enter_terminal`.
abbrev pub owned : Ending → List Op → Bool × World → World
owned ending ops (false, w) = w
owned ending ops (true, w) = with_terminal ending ops w (opened (w.io.fds 1) w.io)

-- Behind `psi_tui_install_atexit`: the exit handler runs when the process ends.
unfoldable pub session : Ending → List Op → World → World
session ending ops w = atexit_restore (owned ending ops (enter_terminal w))

-- `psi_run_tui_mode` and the end of the process: the two `isatty`, `psi_vm_init` and `atexit` in front.
unfoldable pub run_tui_mode : Ending → List Op → World → World
unfolding session
run_tui_mode ending ops w =
    (and_then (asks w) λ w1.
      and_then (asks w1)
        λ w2. and_then (asks w2) λ w3. and_then (asks w3) λ w4. (true, session ending ops w4)).1
