-- ===== src/Driver/Tests.antt =====
-- Runs of the terminal driver, src/runtime/tui_mode.c.
use psi_code.Prelude.{
  ℕ, ◌≡◌, refl, Bool, true, false, Option, none, some, List, [], ◌∷◌, arith, ltb, if◌then◌else◌,
}
use psi_code.Driver.{
  File, terminal, debug_log, Descriptors, stdio_guard_begin, stdio_guard_end, open_log, save_both,
  redirect_both,
}
use psi_code.Driver.Run.{Attrs, Modes, World, Op, hand_over, set_alt_screen, exits, run_tui_mode}
use psi_code.Driver.Left.{Restored}
use psi_code.Driver.Fresh.{Fresh}
use psi_code.Driver.Restored.{run_tui_mode-Restored}

abbrev on_terminal : ℕ → Option File
on_terminal n = if ltb n 3 then some terminal else none

abbrev at_start : List Bool → Descriptors
at_start answers = record {
  fds = on_terminal;
  next = 3;
  answers = answers;
  active = false;
  stdout_saved = none;
  stderr_saved = none;
  log_fd = none;
}

abbrev cooked : Attrs
cooked = record {
  brkint = true;
  icrnl = true;
  inpck = false;
  istrip = false;
  ixon = true;
  opost = true;
  cs8 = true;
  echo = true;
  icanon = true;
  iexten = true;
  isig = true;
  vmin = 1;
  vtime = 0;
  rest = 0;
}

abbrev shell_modes : Modes
shell_modes = record {
  alt_screen = false;
  mouse = false;
  paste = false;
  sync = false;
  cursor = true;
}

abbrev shell : List Bool → World
shell answers = record {
  io = at_start answers;
  attrs = cooked;
  modes = shell_modes;
  original = none;
  alt_flag = false;
  terminal_fd = none;
  reset = true;
}

shell-Fresh : (answers : List Bool) → Fresh (shell answers)
shell-Fresh answers = record {
  active = refl;
  saved = (refl, refl, refl);
  fresh = λ n h. ground (arith, h);
  behind = omega arith;
  standard = refl;
  plain = record { alt_screen = refl; mouse = refl; paste = refl; sync = refl };
  alt_flag = refl;
  original = refl;
  terminal_fd = refl;
  reset = refl;
}

-- The other screen is on when the editor runs, and the terminal cannot be reclaimed.
abbrev refused : List Bool
refused =
    true
    ∷ (true
        ∷ (true
            ∷ (true
                ∷ (true
                    ∷ (true
                        ∷ (true ∷ (true ∷ (true ∷ (true ∷ (true ∷ (true ∷ (false ∷ []))))))))))))

abbrev ops : List Op
ops = set_alt_screen true ∷ (hand_over ∷ (set_alt_screen true ∷ []))

run_tui_mode-Restored_example : Restored cooked on_terminal (run_tui_mode exits ops (shell refused))
run_tui_mode-Restored_example =
    run_tui_mode-Restored exits ops (shell refused) (shell-Fresh refused)

-- Standard output goes to the log while the guard stands.
guarded_stdout : (stdio_guard_begin (at_start [])).1.fds 1 ≡ some debug_log
unfolding stdio_guard_begin open_log save_both redirect_both
guarded_stdout = refl

ended_stdout : (stdio_guard_end (stdio_guard_begin (at_start [])).1).fds 1 ≡ some terminal
unfolding stdio_guard_begin stdio_guard_end open_log save_both redirect_both
ended_stdout = refl

-- Without a second descriptor stderr stays.
half_guarded : (stdio_guard_begin (at_start (true ∷ (true ∷ (false ∷ []))))).0 ≡ false
unfolding stdio_guard_begin open_log save_both redirect_both
half_guarded = refl
