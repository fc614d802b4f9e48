-- ===== src/Driver/Left.antt =====
-- What `psi_tui_leave_terminal` and the exit handler of src/runtime/tui_mode.c leave behind.
use psi_code.Prelude.{
  ℕ, ◌≡◌, refl, sym, ap, ◌∙◌, Bool, true, false, Option, none, some, ◌==◌, if◌then◌else◌,
}
use psi_code.Driver.{File, terminal, close, stdio_guard_end}
use psi_code.Driver.Run.{
  Attrs, Modes, World, put, leave_seq, leave_inline_seq, back_to, leave_terminal, end_guard,
  has_original, close_terminal, release, atexit_restore,
}
use psi_code.Driver.Drives.{Known, Drives, put-modes}

-- No mode of the terminal is on but the cursor's.
pub record Plain (m : Modes) : Type 0 where
  pub alt_screen : m.alt_screen ≡ false
  pub mouse : m.mouse ≡ false
  pub paste : m.paste ≡ false
  pub sync : m.sync ≡ false

-- The descriptors and the attributes as they were, and the terminal plain.
pub record Restored (orig : Attrs) (base : ℕ → Option File) (w : World) : Type 0 where
  pub fds : (n : ℕ) → w.io.fds n ≡ base n
  pub attrs : w.attrs ≡ orig
  pub plain : Plain w.modes

-- The same, with nothing left for the exit handler.
pub record Done (orig : Attrs) (base : ℕ → Option File) (w : World) : Type 0 where
  pub ended : (n : ℕ) → (stdio_guard_end w.io).fds n ≡ base n
  pub attrs : w.attrs ≡ orig
  pub plain : Plain w.modes
  pub original : w.original ≡ none
  pub terminal_fd : w.terminal_fd ≡ none

not_set : (b : Bool) → (b ≡ true → ◌≡◌ {A = Bool} false true) → b ≡ false
not_set false h = refl
not_set true h = sym (h refl)

left-Plain :
    (flag : Bool) (m : Modes)
    → Known flag m
    → Plain ((if flag then leave_seq else leave_inline_seq) m)
left-Plain true m k = record { alt_screen = refl; mouse = refl; paste = refl; sync = refl }
left-Plain false m k = record {
  alt_screen = not_set m.alt_screen k.alt_screen;
  mouse = not_set m.mouse k.mouse;
  paste = refl;
  sync = refl;
}

back_to-original :
    (o : Option Attrs) (orig : Attrs) (w : World)
    → o ≡ some orig
    → w.reset ≡ true
    → back_to o w ≡ orig
back_to-original o orig w e h = rw (e, h) refl

module _ (orig : Attrs) (base : ℕ → Option File) (t : Option ℕ) (w : World)
    (d : Drives orig base t w) (standard : base 1 ≡ some terminal) where
  left_over : Plain (put (if w.alt_flag then leave_seq else leave_inline_seq) (end_guard w)).modes
  left_over =
      rw
        (put-modes (if w.alt_flag then leave_seq else leave_inline_seq) (end_guard w)
          (d.io.fds 1 ∙ standard))
        (left-Plain w.alt_flag w.modes d.known)

  closed : (n : ℕ) → close w.terminal_fd (stdio_guard_end w.io).fds n ≡ close t base n
  closed n = rw d.terminal_fd (close_same t)
    where
      close_same : (t : Option ℕ) → close t (stdio_guard_end w.io).fds n ≡ close t base n
      close_same none = d.io.fds n
      close_same (some m) = ap (λ f. if n == m then none else f) (d.io.fds n)

  pub release-Done : Done orig (close t base) (release w)
  unfolding release leave_terminal stdio_guard_end
  release-Done = record {
    ended = closed;
    attrs = back_to-original w.original orig _ d.original d.reset;
    plain = left_over;
    original = refl;
    terminal_fd = refl;
  }

  atexit_restore-release : atexit_restore w ≡ release w
  unfolding atexit_restore release leave_terminal stdio_guard_end
  atexit_restore-release = handled w.original d.original
    where
      handled :
          (o : Option Attrs)
          → o ≡ some orig
          → close_terminal (
              if has_original o
              then record (leave_terminal (end_guard w)) { original = none }
              else end_guard w)
            ≡ close_terminal (record (leave_terminal (end_guard w)) { original = none })
      handled none e = absurd (cc)
      handled (some a) e = refl

  pub atexit_restore-Drives : Restored orig (close t base) (atexit_restore w)
  unfolding release leave_terminal stdio_guard_end
  atexit_restore-Drives =
      let r = release-Done in
      rw atexit_restore-release record { fds = r.ended; attrs = r.attrs; plain = r.plain }

-- The exit handler behind a world that holds nothing more.
pub atexit_restore-Done :
    (orig : Attrs) (base : ℕ → Option File) (w : World)
    → Done orig base w
    → Restored orig base (atexit_restore w)
unfolding atexit_restore
atexit_restore-Done orig base w d =
    rw (d.original, d.terminal_fd) record { fds = d.ended; attrs = d.attrs; plain = d.plain }
