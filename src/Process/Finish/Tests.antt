-- ===== src/Process/Finish/Tests.antt =====
-- Runs of the end of a child, src/core/process.c.
use psi_code.Prelude.{
  ℕ, ◌*◌, ◌≡◌, refl, max, Bool, true, false, none, some, [], ◌∷◌, ◌++◌, codes, replicate, arith, ok,
  pos,
}
use psi_code.Process.Poll.{Handle}
use psi_code.Process.Finish.{
  exited, signaled, unknown, collected, Finished, starting, reap_loop, exit_code, finish, delay_ms,
  wait_limit_ms,
}
use psi_code.Process.Finish.Escalate.{Reaps, sent_from, quiet, stop, reap_loop-escalates}
use psi_code.Process.Finish.Ends.{Gives, finish-Gives}

abbrev granting : ℕ → Bool
granting n = true

abbrev child : Handle
child = record {
  output = record { text = codes "hi"; capacity = 4096; alloc = granting; asked = 1 };
  truncated = false;
  aborted = false;
  eof_seen = true;
  reaped = false;
  signals = 0;
}

-- A child that exits in the third round.
exits_itself :
    finish
      (quiet ∷ (quiet ∷ (record { waited = collected (exited 3); signal = false } ∷ [])))
      none
      unknown
      true
      child
    ≡ some
        (record { status = ok; exit_status = pos 3; truncated = false; output = some (codes "hi") })
unfolding finish reap_loop exit_code
exits_itself = refl

reap_loop-escalates_example :
    Reaps
      (sent_from (delay_ms * 75))
      (max (delay_ms * 75) wait_limit_ms)
      (reap_loop (replicate 75 quiet ++ (stop ∷ [])) (some (signaled 9)) (starting child unknown))
reap_loop-escalates_example =
    reap_loop-escalates (some (signaled 9)) unknown child 75 [] refl tt (omega arith)

finish-Gives_example :
    (f : Finished) × (finish
        (replicate 75 quiet ++ (stop ∷ []))
        (some (signaled 9))
        unknown
        true
        child
      ≡ some f)
    × Gives (codes "hi") f
finish-Gives_example =
    finish-Gives (replicate 75 quiet) stop [] (some (signaled 9)) unknown (codes "hi") child
      (record { text = refl; marked = refl; grants = λ n. refl; sized = omega arith }) refl
      (omega arith)
