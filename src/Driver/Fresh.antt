-- ===== src/Driver/Fresh.antt =====
-- A process that has not called the driver yet, src/runtime/tui_mode.c.
use psi_code.Prelude.{ℕ, ◌≤◌, ◌≡◌, refl, Bool, true, false, none, some, if◌then◌else◌}
use psi_code.Driver.{terminal, stdio_guard_end}
use psi_code.Driver.Guard.{Guarded}
use psi_code.Driver.Run.{Modes, World, enable_paste, asks, and_then}
use psi_code.Driver.Left.{Plain, Restored, Done}
use psi_code.Driver.Drives.{Known}

-- Before the first call: no guard, nothing kept, the terminal plain and on stdout.
pub record Fresh (w : World) : Type 0 where
  pub active : w.io.active ≡ false
  pub saved : (w.io.stdout_saved ≡ none) × (w.io.stderr_saved ≡ none) × (w.io.log_fd ≡ none)
  pub fresh : (n : ℕ) → w.io.next ≤ n → w.io.fds n ≡ none
  pub behind : 3 ≤ w.io.next
  pub standard : w.io.fds 1 ≡ some terminal
  pub plain : Plain w.modes
  pub alt_flag : w.alt_flag ≡ false
  pub original : w.original ≡ none
  pub terminal_fd : w.terminal_fd ≡ none
  pub reset : w.reset ≡ true

pub asks-Fresh : (w : World) → Fresh w → Fresh (asks w).1
asks-Fresh w f = record {
  active = f.active;
  saved = f.saved;
  fresh = f.fresh;
  behind = f.behind;
  standard = f.standard;
  plain = f.plain;
  alt_flag = f.alt_flag;
  original = f.original;
  terminal_fd = f.terminal_fd;
  reset = f.reset;
}

pub Plain-Known : (flag : Bool) (m : Modes) → Plain m → Known flag m
Plain-Known flag m p = record {
  alt_screen = λ h. absurd (cc (h, p.alt_screen));
  mouse = λ h. absurd (cc (h, p.mouse));
}

pub Fresh-Guarded : (w : World) → Fresh w → Guarded w.io.fds w.io
unfolding stdio_guard_end
Fresh-Guarded w f =
    let (out, err, log) = f.saved in
    record {
      fds = λ n. rw (out, err, log) refl;
      fresh = f.fresh;
      standard = f.behind;
      kept = λ n x s h. h;
      idle = λ i. f.saved;
    }

pub Fresh-Done : (w : World) → Fresh w → Done w.attrs w.io.fds w
Fresh-Done w f = record {
  ended = (Fresh-Guarded w f).fds;
  attrs = refl;
  plain = f.plain;
  original = f.original;
  terminal_fd = f.terminal_fd;
}

pub Fresh-Restored : (w : World) → Fresh w → Restored w.attrs w.io.fds w
Fresh-Restored w f = record { fds = λ n. refl; attrs = refl; plain = f.plain }

-- Either the first call fails or the rest runs.
pub and_then-by :
    (Q : Bool × World → Type 0) (r : Bool × World) (f : World → Bool × World)
    → Q (false, r.1)
    → Q (f r.1)
    → Q (and_then r f)
and_then-by Q (false, w) f h k = h
and_then-by Q (true, w) f h k = k

pub paste-Known :
    (reached flag : Bool) (m : Modes)
    → Known flag m
    → Known flag (if reached then enable_paste m else m)
paste-Known true flag m k = record { alt_screen = k.alt_screen; mouse = k.mouse }
paste-Known false flag m k = k
