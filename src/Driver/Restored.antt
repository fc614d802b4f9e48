-- ===== src/Driver/Restored.antt =====
-- What `psi_run_tui_mode` of src/runtime/tui_mode.c leaves behind.
use psi_code.Prelude.{
  ℕ, ◌+◌, ◌≡◌, refl, ◌∙◌, Bool, true, false, Option, none, some, List, arith, Bool-cases, inl, inr,
}
use psi_code.Driver.{File, terminal, Descriptors, answer, later, asked, set, close}
use psi_code.Driver.Guard.{Guarded}
use psi_code.Driver.Run.{
  World, is_terminal, put, enable_paste, asks, set_raw, enter_terminal, begin_guard, release,
  atexit_restore, Op, perform_all, Ending, returns, exits, ended_by, with_guard, owned, session,
  run_tui_mode,
}
use psi_code.Driver.Guard.{opened-Guarded}
use psi_code.Driver.Left.{Restored, release-Done, atexit_restore-Drives, atexit_restore-Done}
use psi_code.Driver.Fresh.{
  Fresh, asks-Fresh, Plain-Known, Fresh-Guarded, Fresh-Done, Fresh-Restored, and_then-by,
  paste-Known,
}
use psi_code.Driver.Drives.{Drives, asked-Guarded, begin_guard-Drives, perform_all-Drives}

-- With the original attributes kept, before the copy of stdout is taken.
module _ (w : World) (f : Fresh w) where
  raw : World
  raw = (set_raw w.attrs (record w { original = some w.attrs })).1

  raw-Guarded : Guarded w.io.fds (asked w.io)
  raw-Guarded = Fresh-Guarded (asks w).1 (asks-Fresh w f)

  raw-Drives : Drives w.attrs w.io.fds none raw
  unfolding raw
  raw-Drives = record {
    io = raw-Guarded;
    known = Plain-Known w.alt_flag w.modes f.plain;
    original = refl;
    reset = f.reset;
    terminal_fd = f.terminal_fd;
  }

  entered : World
  unfolding raw
  entered = put enable_paste raw

  entered-Drives :
      (io : Descriptors)
      → Guarded w.io.fds io
      → Drives w.attrs w.io.fds none (record entered { io = io })
  unfolding entered raw
  entered-Drives io g = record {
    io = g;
    known =
        paste-Known (is_terminal (w.io.fds 1)) w.alt_flag w.modes
          (Plain-Known w.alt_flag w.modes f.plain);
    original = refl;
    reset = f.reset;
    terminal_fd = f.terminal_fd;
  }

  own : ℕ → Option File
  own = set w.io.next (some terminal) w.io.fds

  -- The copy of stdout has been granted.
  owned_io : Descriptors
  owned_io = record w.io {
    fds = set w.io.next (w.io.fds 1) w.io.fds;
    next = w.io.next + 1;
    answers = later (later w.io.answers);
  }

  owned-Drives :
      Drives w.attrs own
        (some w.io.next)
        (record entered { io = owned_io; terminal_fd = some w.io.next })
  unfolding entered raw owned_io own
  owned-Drives =
      let d = entered-Drives (asked w.io) raw-Guarded in
      record {
        io = opened-Guarded w.io.fds (asked w.io) raw-Guarded f.active (some terminal) f.standard;
        known = d.known;
        original = refl;
        reset = f.reset;
        terminal_fd = refl;
      }

  own_next : own w.io.next ≡ some terminal
  unfolding own
  own_next = ground arith

  own_standard : own 1 ≡ some terminal
  unfolding own
  own_standard = ground (arith, f.behind, f.standard)

  own_closed : (n : ℕ) → close (some w.io.next) own n ≡ w.io.fds n
  unfolding own
  own_closed n = ground (arith, f.fresh n)

  back_to_own :
      (u : World) → Restored w.attrs (close (some w.io.next) own) u → Restored w.attrs w.io.fds u
  back_to_own u r = record { fds = λ n. r.fds n ∙ own_closed n; attrs = r.attrs; plain = r.plain }

  released :
      (u : World)
      → Drives w.attrs own (some w.io.next) u
      → Restored w.attrs w.io.fds (atexit_restore (release u))
  released u d = back_to_own _ (
      atexit_restore-Done w.attrs _ (release u)
        (release-Done w.attrs own (some w.io.next) u d own_standard))

  ended :
      (ending : Ending) (u : World)
      → Drives w.attrs own (some w.io.next) u
      → Restored w.attrs w.io.fds (atexit_restore (ended_by ending u))
  ended returns u d = released u d
  ended exits u d =
      back_to_own _ (atexit_restore-Drives w.attrs own (some w.io.next) u d own_standard)

  guarded :
      (ending : Ending) (ops : List Op) (r : Bool × World)
      → Drives w.attrs own (some w.io.next) r.1
      → Restored w.attrs w.io.fds (atexit_restore (with_guard ending ops r))
  guarded ending ops (false, u) d = released u d
  guarded ending ops (true, u) d =
      ended ending (perform_all ops u)
        (perform_all-Drives w.attrs own w.io.next f.behind own_next ops u d)

  entered-Restored :
      (ending : Ending) (ops : List Op)
      → Restored w.attrs w.io.fds (atexit_restore (owned ending ops (true, entered)))
  unfolding entered raw owned_io
  entered-Restored ending ops = elim (Bool-cases (answer (later w.io.answers))) [
    | inl a ↦ rw a (
        guarded ending ops
          (begin_guard (record entered { io = owned_io; terminal_fd = some w.io.next }))
          (begin_guard-Drives w.attrs own (some w.io.next) _ owned-Drives))
    | inr a ↦ rw a (
        atexit_restore-Done w.attrs _ _ (
          release-Done w.attrs w.io.fds none _
            (entered-Drives (asked (asked w.io)) (asked-Guarded w.io.fds (asked w.io) raw-Guarded))
            f.standard))
  ]

session-Restored :
    (ending : Ending) (ops : List Op) (w : World)
    → Fresh w
    → Restored w.attrs w.io.fds (session ending ops w)
unfolding session enter_terminal entered raw
session-Restored ending ops w f =
    let w1 = (asks w).1 in
    let f1 = asks-Fresh w f in
    let Q : Bool × World → Type 0 =
      λ r. Restored w.attrs w.io.fds (atexit_restore (owned ending ops r)) in
    and_then-by Q (asks w) _ (atexit_restore-Done w.attrs w.io.fds w1 (Fresh-Done w1 f1)) (
      and_then-by Q (set_raw w1.attrs (record w1 { original = some w1.attrs })) _
        (atexit_restore-Drives w.attrs w.io.fds none _ (raw-Drives w1 f1) f.standard)
        (entered-Restored w1 f1 ending ops))

-- On a terminal that is plain, with no descriptor open from the next new one on, when the dup2 of
-- a saved descriptor and the return to the original attributes are granted, psi_run_tui_mode and
-- the exit handler leave every descriptor open on what it was open on, the attributes as they
-- were, and the other screen, the mouse, bracketed paste and synchronized output off: whichever
-- other calls fail, whatever Lua asks of the driver, and whether the Lua program returns or
-- exits.
pub run_tui_mode-Restored :
    (ending : Ending) (ops : List Op) (w : World)
    → Fresh w
    → Restored w.attrs w.io.fds (run_tui_mode ending ops w)
unfolding run_tui_mode
run_tui_mode-Restored ending ops w f =
    let Q : Bool × World → Type 0 = λ r. Restored w.attrs w.io.fds r.1 in
    let w1 = (asks w).1 in
    let w2 = (asks w1).1 in
    let w3 = (asks w2).1 in
    let w4 = (asks w3).1 in
    let f1 = asks-Fresh w f in
    let f2 = asks-Fresh w1 f1 in
    let f3 = asks-Fresh w2 f2 in
    let f4 = asks-Fresh w3 f3 in
    and_then-by Q (asks w) _ (Fresh-Restored w1 f1) (
      and_then-by Q (asks w1) _ (Fresh-Restored w2 f2) (
        and_then-by Q (asks w2) _ (Fresh-Restored w3 f3)
          (and_then-by Q (asks w3) _ (Fresh-Restored w4 f4) (session-Restored ending ops w4 f4))))
