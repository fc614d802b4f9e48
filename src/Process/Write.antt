-- ===== src/Process/Write.antt =====
-- `psi_process_write` and `psi_process_try_write` of src/core/process.c. A script gives the abort
-- signal and the answer of `write` for each attempt.
pub mod Sends
mod Tests
use psi_code.Prelude.{
  ℕ, zero, suc, ◌+◌, Bool, true, false, not, ◌&&◌, Option, none, some, List, [], ◌∷◌, ◌++◌, Bytes,
  length, take, drop, if◌then◌else◌, Status, ok, error,
}
use psi_code.Process.Poll.{Handle, abort_if}

-- What `write` answers: `1 + n` bytes, EINTR, EAGAIN, or 0 or another error.
pub data Answer : Type 0 where
  wrote : ℕ → Answer
  interrupted full failed : Answer

pub record Attempt : Type 0 where
  pub signal : Bool
  pub answer : Answer

-- What a write returns, with the bytes that have gone to the child and those that have not.
pub record Written : Type 0 where
  pub status : Status
  pub sent : Bytes
  pub left : Bytes
  pub handle : Handle

abbrev pub written : Status → Bytes → Bytes → Handle → Written
written status sent left h = record { status = status; sent = sent; left = left; handle = h }

-- The test in front of a `write`.
abbrev pub stops : Bool → Handle → Bool
stops signal h = signal && not h.aborted

-- The loop `while (written < len)`. `none` is a script that ends in front of a `write`.
unfoldable pub write_loop : List Attempt → Bytes → Bytes → Handle → Option Written
unfolding abort_if
write_loop script sent [] h = some (written ok sent [] h)
write_loop [] sent (b ∷ bs) h = none
write_loop (a ∷ rest) sent (b ∷ bs) h =
    let left = b ∷ bs in
    let again = write_loop rest sent left h in
    if stops a.signal h
    then some (written error sent left (abort_if a.signal h))
    else elim a.answer [
      | wrote n ↦ write_loop rest (sent ++ take (suc n) left) (drop (suc n) left) h
      | interrupted ↦ again
      | full ↦ again
      | failed ↦ some (written error sent left h)
    ]

-- `stdin_open` is whether `stdin_fd` is a descriptor.
unfoldable pub process_write : Bool → List Attempt → Bytes → Handle → Option Written
unfolding write_loop
process_write stdin_open script bytes h =
    if stdin_open then write_loop script [] bytes h else some (written error [] bytes h)

-- One attempt, for a caller that retries with what is left.
unfoldable pub try_write : Bool → Attempt → Bytes → Handle → Written
unfolding abort_if
try_write false a bytes h = written error [] bytes h
try_write true a [] h = written ok [] [] h
try_write true a (b ∷ bs) h =
    if stops a.signal h then written error [] (b ∷ bs) (abort_if a.signal h) else elim a.answer [
      | wrote n ↦ written ok (take (suc n) (b ∷ bs)) (drop (suc n) (b ∷ bs)) h
      | interrupted ↦ written ok [] (b ∷ bs) h
      | full ↦ written ok [] (b ∷ bs) h
      | failed ↦ written error [] (b ∷ bs) h
    ]
