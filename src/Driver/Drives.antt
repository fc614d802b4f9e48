-- ===== src/Driver/Drives.antt =====
-- While the terminal is owned, through every operation of src/runtime/tui_mode.c that Lua reaches.
use psi_code.Prelude.{
  ℕ, ◌≤◌, ◌≡◌, refl, ap, ◌∙◌, Bool, true, false, Option, none, some, List, [], ◌∷◌, if◌then◌else◌,
}
use psi_code.Driver.{File, terminal, Descriptors, asked, stdio_guard_end}
use psi_code.Driver.Guard.{Guarded, stdio_guard_end-Guarded, stdio_guard_begin-Guarded}
use psi_code.Driver.Run.{
  Attrs, Modes, World, is_terminal, through, put, enter_seq, enable_paste, leave_seq,
  leave_inline_seq, and_then, set_raw, suspend_terminal, begin_guard, resume_with, resume_terminal,
  Op, hand_over, set_alt_screen, perform, perform_all,
}

-- The other screen and the mouse are on at most where the flag says so.
pub record Known (flag : Bool) (m : Modes) : Type 0 where
  pub alt_screen : m.alt_screen ≡ true → flag ≡ true
  pub mouse : m.mouse ≡ true → flag ≡ true

-- `base` are the descriptors with the guard ended, `t` is `psi_tui_terminal_fd`.
pub record Drives (orig : Attrs) (base : ℕ → Option File) (t : Option ℕ) (w : World) : Type 0 where
  pub io : Guarded base w.io
  pub known : Known w.alt_flag w.modes
  pub original : w.original ≡ some orig
  pub reset : w.reset ≡ true
  pub terminal_fd : w.terminal_fd ≡ t

pub put-modes :
    (f : Modes → Modes) (w : World) → w.io.fds 1 ≡ some terminal → (put f w).modes ≡ f w.modes
put-modes f w h = rw h refl

pub asked-Guarded :
    (base : ℕ → Option File) (io : Descriptors) → Guarded base io → Guarded base (asked io)
unfolding stdio_guard_end
asked-Guarded base io g = record {
  fds = g.fds;
  fresh = g.fresh;
  standard = g.standard;
  kept = g.kept;
  idle = g.idle;
}

true-Known : (m : Modes) → Known true m
true-Known m = record { alt_screen = λ h. refl; mouse = λ h. refl }

leave-Known :
    (flag : Bool) (m : Modes)
    → Known flag m
    → Known flag ((if flag then leave_seq else leave_inline_seq) m)
leave-Known true m k = true-Known _
leave-Known false m k = record { alt_screen = k.alt_screen; mouse = k.mouse }

enter-Known :
    (flag : Bool) (m : Modes)
    → Known flag m
    → Known flag ((if flag then enter_seq else enable_paste) m)
enter-Known true m k = true-Known _
enter-Known false m k = record { alt_screen = k.alt_screen; mouse = k.mouse }

switch-Known : (enter : Bool) (m : Modes) → Known enter ((if enter then enter_seq else leave_seq) m)
switch-Known true m = true-Known _
switch-Known false m = record { alt_screen = λ h. h; mouse = λ h. h }

-- A sequence that the terminal may or may not have seen.
reach-Known :
    (reached flag : Bool) (m n : Modes)
    → Known flag m
    → Known flag n
    → Known flag (if reached then n else m)
reach-Known true flag m n k l = l
reach-Known false flag m n k l = k

module _ (orig : Attrs) (base : ℕ → Option File) (t : Option ℕ) where
  and_then-Drives :
      (r : Bool × World) (f : World → Bool × World)
      → Drives orig base t r.1
      → ((w : World) → Drives orig base t w → Drives orig base t (f w).1)
      → Drives orig base t (and_then r f).1
  and_then-Drives (false, w) f d h = d
  and_then-Drives (true, w) f d h = h w d

  suspend_terminal-Drives :
      (w : World) → Drives orig base t w → Drives orig base t (suspend_terminal w).1
  unfolding suspend_terminal
  suspend_terminal-Drives w d = record {
    io = stdio_guard_end-Guarded base w.io d.io;
    known =
        reach-Known (is_terminal ((stdio_guard_end w.io).fds 1)) w.alt_flag w.modes _ d.known
          (leave-Known w.alt_flag w.modes d.known);
    original = d.original;
    reset = d.reset;
    terminal_fd = d.terminal_fd;
  }

  set_raw-Drives :
      (a : Attrs) (w : World) → Drives orig base t w → Drives orig base t (set_raw a w).1
  set_raw-Drives a w d = record {
    io = asked-Guarded base w.io d.io;
    known = d.known;
    original = d.original;
    reset = d.reset;
    terminal_fd = d.terminal_fd;
  }

  pub begin_guard-Drives : (w : World) → Drives orig base t w → Drives orig base t (begin_guard w).1
  begin_guard-Drives w d = record {
    io = stdio_guard_begin-Guarded base w.io d.io;
    known = d.known;
    original = d.original;
    reset = d.reset;
    terminal_fd = d.terminal_fd;
  }

  put-Drives :
      (w : World)
      → Drives orig base t w
      → Drives orig base t (put (if w.alt_flag then enter_seq else enable_paste) w)
  put-Drives w d = record {
    io = d.io;
    known =
        reach-Known (is_terminal (w.io.fds 1)) w.alt_flag w.modes _ d.known
          (enter-Known w.alt_flag w.modes d.known);
    original = d.original;
    reset = d.reset;
    terminal_fd = d.terminal_fd;
  }

  resume_with-Drives :
      (o : Option Attrs) (w : World) → Drives orig base t w → Drives orig base t (resume_with o w).1
  resume_with-Drives none w d = d
  resume_with-Drives (some a) w d =
      and_then-Drives (set_raw a w)
        (λ w1. begin_guard (put (if w1.alt_flag then enter_seq else enable_paste) w1))
        (set_raw-Drives a w d) (λ w1 d1. begin_guard-Drives _ (put-Drives w1 d1))

-- `fd` is open on the terminal, behind the standard descriptors.
module _ (orig : Attrs) (base : ℕ → Option File) (fd : ℕ) (behind : 3 ≤ fd)
    (own : base fd ≡ some terminal) where
  reaches : (w : World) → Drives orig base (some fd) w → w.io.fds fd ≡ some terminal
  reaches w d = d.io.kept fd terminal behind own

  through_own :
      (o : Option ℕ) (f : Modes → Modes) (w : World)
      → o ≡ some fd
      → Drives orig base (some fd) w
      → (through o f w).modes ≡ f w.modes
  through_own none f w e d = absurd (cc)
  through_own (some n) f w e d =
      let h : w.io.fds n ≡ some terminal = cc (e, reaches w d) in rw h refl

  through_rest :
      (o : Option ℕ) (f : Modes → Modes) (w : World)
      → through o f w ≡ record w { modes = (through o f w).modes }
  through_rest none f w = refl
  through_rest (some n) f w = refl

  switch-Drives :
      (enter : Bool) (w u : World)
      → Drives orig base (some fd) w
      → u ≡ record w { modes = (if enter then enter_seq else leave_seq) w.modes }
      → Drives orig base (some fd) (record u { alt_flag = enter })
  switch-Drives enter w u d e = rw e record {
    io = d.io;
    known = switch-Known enter w.modes;
    original = d.original;
    reset = d.reset;
    terminal_fd = d.terminal_fd;
  }

  perform-Drives :
      (op : Op) (w : World)
      → Drives orig base (some fd) w
      → Drives orig base (some fd) (perform op w)
  unfolding perform resume_terminal
  perform-Drives hand_over w d =
      and_then-Drives orig base (some fd) (suspend_terminal w) (λ w1. resume_with w1.original w1)
        (suspend_terminal-Drives orig base (some fd) w d)
        (λ w1 d1. resume_with-Drives orig base (some fd) w1.original w1 d1)
  perform-Drives (set_alt_screen enter) w d =
      let f = if enter then enter_seq else leave_seq in
      switch-Drives enter w (through w.terminal_fd f w) d (
        through_rest w.terminal_fd f w
        ∙ ap (λ m. record w { modes = m }) (through_own w.terminal_fd f w d.terminal_fd d))

  pub perform_all-Drives :
      (ops : List Op) (w : World)
      → Drives orig base (some fd) w
      → Drives orig base (some fd) (perform_all ops w)
  perform_all-Drives [] w d = d
  perform_all-Drives (op ∷ ops) w d = perform_all-Drives ops (perform op w) (perform-Drives op w d)
