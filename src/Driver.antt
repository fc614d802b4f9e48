-- ===== src/Driver.antt =====
-- The terminal driver, src/runtime/tui_mode.c: the standard descriptors that are redirected while
-- Lua draws.
pub mod Saved
pub mod Guard
pub mod Run
pub mod Drives
pub mod Left
pub mod Fresh
pub mod Restored
pub mod Tests
use psi_code.Prelude.{
  ℕ, ◌+◌, Bool, true, false, not, ◌&&◌, Option, none, some, List, [], ◌∷◌, ◌==◌, if◌then◌else◌,
  Status, ok, error,
}

-- What a descriptor is open on.
pub data File : Type 0 where
  terminal debug_log dev_null : File
  other : ℕ → File

-- The descriptors of the process, with `psi_tui_guard`. `answers` says for each call in turn whether
-- the system grants it. A new descriptor is one that was never open, where the kernel takes the
-- lowest that is not.
pub record Descriptors : Type 0 where
  pub fds : ℕ → Option File
  pub next : ℕ
  pub answers : List Bool
  pub active : Bool
  pub stdout_saved : Option ℕ
  pub stderr_saved : Option ℕ
  pub log_fd : Option ℕ

-- The answer to a call; behind the last one everything is granted.
abbrev pub answer : List Bool → Bool
answer [] = true
answer (a ∷ rest) = a

abbrev pub later : List Bool → List Bool
later [] = []
later (a ∷ rest) = rest

abbrev pub asked : Descriptors → Descriptors
asked w = record w { answers = later w.answers }

abbrev pub set : ℕ → Option File → (ℕ → Option File) → ℕ → Option File
set n f fds m = if m == n then f else fds m

abbrev pub close : Option ℕ → (ℕ → Option File) → ℕ → Option File
close none fds = fds
close (some n) fds = set n none fds

-- A new descriptor on a file, if the system grants one.
abbrev pub opened : Option File → Descriptors → Option ℕ × Descriptors
opened f w =
    if answer w.answers
    then (
      some w.next,
      record w { fds = set w.next f w.fds; next = w.next + 1; answers = later w.answers },
    )
    else (none, asked w)

-- `dup2(saved, n)` and `close(saved)`
abbrev pub put_back : ℕ → Option ℕ → (ℕ → Option File) → ℕ → Option File
put_back n none fds = fds
put_back n (some saved) fds = set saved none (set n (fds saved) fds)

unfoldable pub stdio_guard_end : Descriptors → Descriptors
stdio_guard_end w = record w {
  fds = close w.log_fd (put_back 2 w.stderr_saved (put_back 1 w.stdout_saved w.fds));
  active = false;
  stdout_saved = none;
  stderr_saved = none;
  log_fd = none;
}

-- `dup2(log_fd, n)`
abbrev pub redirect : ℕ → Option File → Descriptors → Descriptors
redirect n f w = record (asked w) { fds = set n f w.fds }

-- The debug log, or else `/dev/null`.
abbrev pub or_else :
    Option ℕ × Descriptors → (Descriptors → Option ℕ × Descriptors) → Option ℕ × Descriptors
or_else (some n, w) f = (some n, w)
or_else (none, w) f = f w

unfoldable pub open_log : Descriptors → Option ℕ × Descriptors
open_log w = or_else (opened (some debug_log) w) (opened (some dev_null))

abbrev pub failed : Descriptors → Bool × Descriptors
failed w = (false, stdio_guard_end w)

-- The last part: both standard descriptors on the log, or the guard is ended.
unfoldable pub redirect_both : ℕ → Descriptors → Bool × Descriptors
unfolding stdio_guard_end
redirect_both log w =
    if answer w.answers
    then (let w1 = redirect 1 (w.fds log) w in
        if answer w1.answers
        then (true, record (redirect 2 (w1.fds log) w1) { active = true })
        else failed (asked w1))
    else failed (asked w)

-- The guard holds what has been saved, and is ended where that is not both.
abbrev pub with_saved : ℕ → Option ℕ → Option ℕ × Descriptors → Bool × Descriptors
with_saved log none (err, w) =
    failed (record w { stdout_saved = none; stderr_saved = err; log_fd = some log })
with_saved log (some o) (none, w) =
    failed (record w { stdout_saved = some o; stderr_saved = none; log_fd = some log })
with_saved log (some o) (some e, w) =
    redirect_both log (record w { stdout_saved = some o; stderr_saved = some e; log_fd = some log })

abbrev pub with_out : ℕ → Option ℕ × Descriptors → Bool × Descriptors
with_out log (out, w) = with_saved log out (opened (w.fds 2) w)

unfoldable pub save_both : ℕ → Descriptors → Bool × Descriptors
unfolding redirect_both stdio_guard_end
save_both log w = with_out log (opened (w.fds 1) w)

abbrev pub with_log : Option ℕ × Descriptors → Bool × Descriptors
with_log (none, w) = (false, w)
with_log (some log, w) = save_both log w

unfoldable pub stdio_guard_begin : Descriptors → Bool × Descriptors
stdio_guard_begin w = if w.active then (true, w) else with_log (open_log w)
