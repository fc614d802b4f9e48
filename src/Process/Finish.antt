-- ===== src/Process/Finish.antt =====
-- `psi_process_finish` on a Unix host: collecting the child, with the escalation from SIGTERM to
-- SIGKILL, and what is handed to the caller. A script gives what each round of the loop is answered.
pub mod Escalate
pub mod Ends
mod Tests
use psi_code.Prelude.{
  ℕ, zero, suc, ◌+◌, ◌*◌, Bool, true, false, not, ◌&&◌, Option, none, some, ◌>>=◌, List, [], ◌∷◌,
  ◌++◌, Bytes, ltb, leb, if◌then◌else◌, Status, ok, error, Integer, pos, negsuc,
}
use psi_code.Process.{Strbuf}
use psi_code.Process.Poll.{Handle}

-- `PSI_PROCESS_ABORT_ESCALATE_MS`, `PSI_PROCESS_ABORT_WAIT_LIMIT_MS` and `PSI_PROCESS_POLL_DELAY_MS`
abbrev pub escalate_ms : ℕ
escalate_ms = 500

abbrev pub wait_limit_ms : ℕ
wait_limit_ms = 1500

abbrev pub delay_ms : ℕ
delay_ms = 20

-- `wait_status`, as WIFEXITED and WIFSIGNALED read it.
pub data WaitStatus : Type 0 where
  exited signaled : ℕ → WaitStatus
  unknown : WaitStatus

-- The answer of `waitpid` with WNOHANG: 0, the child, or an error.
pub data Waited : Type 0 where
  running : Waited
  collected : WaitStatus → Waited
  gone : Waited

pub data Signal : Type 0 where
  sigterm sigkill : Signal

-- A round: the answer of `waitpid`, and the abort signal behind it.
pub record Round : Type 0 where
  pub waited : Waited
  pub signal : Bool

-- The handle and the locals of the loop. `sent` are the signals, each with `waited_ms`.
pub record Reaping : Type 0 where
  pub reaped : Bool
  pub aborted : Bool
  pub sigkilled : Bool
  pub waited_ms : ℕ
  pub wait_status : WaitStatus
  pub sent : List (ℕ × Signal)

abbrev pub starting : Handle → WaitStatus → Reaping
starting h status = record {
  reaped = h.reaped;
  aborted = h.aborted;
  sigkilled = false;
  waited_ms = 0;
  wait_status = status;
  sent = [];
}

abbrev pub kill : Signal → Reaping → Reaping
kill s c = record c { sent = c.sent ++ ((c.waited_ms, s) ∷ []) }

abbrev pub abort_on : Bool → Reaping → Reaping
abort_on signal c =
    if not c.aborted && signal then kill sigterm (record c { aborted = true }) else c

abbrev pub escalate : Reaping → Reaping
escalate c =
    if c.aborted && not c.sigkilled && leb escalate_ms c.waited_ms
    then kill sigkill (record c { sigkilled = true })
    else c

-- The blocking `waitpid`, whose answer is `last`.
abbrev pub collect_last : Option WaitStatus → Reaping → Reaping
collect_last none c = record c { reaped = true }
collect_last (some s) c = record c { reaped = true; wait_status = s }

abbrev pub slept : Reaping → Reaping
slept c = record c { waited_ms = c.waited_ms + delay_ms }

-- The loop. `none` is a script that ends in front of a `waitpid`.
unfoldable pub reap_loop : List Round → Option WaitStatus → Reaping → Option Reaping
reap_loop [] last c = none
reap_loop (r ∷ rs) last c =
    let d = escalate (abort_on r.signal c) in
    let later = reap_loop rs last (slept d) in
    elim r.waited [
      | collected s ↦ some (record c { reaped = true; wait_status = s })
      | gone ↦ some (record c { reaped = true })
      | running ↦
          if d.aborted && leb wait_limit_ms d.waited_ms then some (collect_last last d) else later
    ]

-- `exit_status`
unfoldable pub exit_code : Bool → WaitStatus → Integer
exit_code true status = pos 130
exit_code false (exited n) = pos n
exit_code false (signaled n) = pos (128 + n)
exit_code false unknown = negsuc 0

-- What the caller is given.
pub record Finished : Type 0 where
  pub status : Status
  pub exit_status : Integer
  pub truncated : Bool
  pub output : Option Bytes

-- The buffer, or a copy of "" where none was ever needed, if `granted`.
abbrev pub handed_over : Bool → Bytes → Option Bytes
handed_over granted [] = if granted then some [] else none
handed_over granted (c ∷ cs) = some (c ∷ cs)

abbrev pub status_of : Option Bytes → Status
status_of none = error
status_of (some output) = ok

abbrev pub finished : Bool → Handle → Reaping → Finished
finished granted h c =
    let output = handed_over granted h.output.text in
    record {
      status = status_of output;
      exit_status = exit_code c.aborted c.wait_status;
      truncated = h.truncated;
      output = output;
    }

-- With every out parameter asked for.
unfoldable pub finish :
    List Round → Option WaitStatus → WaitStatus → Bool → Handle → Option Finished
unfolding reap_loop
finish rounds last status granted h = do
  c ← if h.reaped then some (starting h status) else reap_loop rounds last (starting h status)
  some (finished granted h c)
