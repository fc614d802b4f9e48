-- ===== src/Process/Poll.antt =====
-- `psi_process_poll` on a Unix host. A script gives what the system answers, in its order: what each
-- `read` returns, and behind an EAGAIN whether `waitpid` collects the child and whether the abort
-- signal is set after the wait. The chunk is always asked for.
pub mod Kept
pub mod Steps
use psi_code.Prelude.{
  ℕ, zero, suc, ◌+◌, ◌-◌, ◌*◌, ◌/◌, Bool, true, false, not, ◌&&◌, ◌||◌, Option, none, some, List,
  [], ◌∷◌, ◌++◌, Bytes, length, take, min, ◌==◌, ltb, leb, if◌then◌else◌,
}
use psi_code.Process.{Strbuf, append_bytes}

abbrev pub output_max : ℕ
output_max = 262144

abbrev pub read_chunk : ℕ
read_chunk = 4096

abbrev pub drain_max : ℕ
drain_max = 65536

abbrev poll_delay_ms : ℕ
poll_delay_ms = 20

-- A result of `read`: some bytes, the end, EAGAIN or EINTR, or another error.
pub data Event : Type 0 where
  got : ℕ → Bytes → Event
  end : Event
  again : Bool → Bool → Event
  failed : Event

-- `struct psi_process_handle`. `signals` counts the SIGTERMs that were sent.
pub record Handle : Type 0 where
  pub output : Strbuf
  pub truncated : Bool
  pub aborted : Bool
  pub eof_seen : Bool
  pub reaped : Bool
  pub signals : ℕ

-- What is kept for `finish`, up to the ceiling. A refused allocation is passed over.
unfoldable pub stash : Bytes → Handle → Handle
unfolding append_bytes
stash bytes h =
    let used = length h.output.text in
    let over : Bool = ltb output_max (used + length bytes) in
    let kept : Bytes = if over then take (output_max - used) bytes else bytes in
    let marked : Handle = record h { truncated = if over then true else h.truncated } in
    if ltb used output_max
    then elim (append_bytes h.output kept) [ none ↦ marked | some o ↦ record marked { output = o } ]
    else record h { truncated = true }

-- What a poll returns: -1, 0, 1 with a chunk, or 2.
pub data Outcome : Type 0 where
  error : Outcome
  idle : Outcome
  chunk : Bytes → Outcome
  done : Outcome

pub record Polled : Type 0 where
  pub outcome : Outcome
  pub handle : Handle
  pub rest : List Event

abbrev pub returns : Outcome → Handle → List Event → Polled
returns o h rest = record { outcome = o; handle = h; rest = rest }

-- The inner loop, which has `drained` so far and `bytes` in `read_buffer`. `none` is a script that
-- ends in front of a `read`.
unfoldable pub drain : List Event → Bytes → Bytes → Handle → Option Polled
unfolding stash
drain [] drained bytes h =
    if ltb read_chunk (length bytes)
    then some (returns error h [])
    else if leb drain_max (length (drained ++ bytes))
    then some (returns (chunk (drained ++ bytes)) (stash bytes h) [])
    else none
drain (got b bs ∷ rest) drained bytes h =
    let more = drain rest (drained ++ bytes) (b ∷ bs) (stash bytes h) in
    if ltb read_chunk (length bytes)
    then some (returns error h (got b bs ∷ rest))
    else if leb drain_max (length (drained ++ bytes))
    then some (returns (chunk (drained ++ bytes)) (stash bytes h) (got b bs ∷ rest))
    else more
drain (e ∷ rest) drained bytes h =
    if ltb read_chunk (length bytes)
    then some (returns error h (e ∷ rest))
    else if leb drain_max (length (drained ++ bytes))
    then some (returns (chunk (drained ++ bytes)) (stash bytes h) (e ∷ rest))
    else some (returns (chunk (drained ++ bytes)) (stash bytes h) rest)

-- `kill(-h->child_pid, SIGTERM)`, once
unfoldable pub abort_if : Bool → Handle → Handle
abort_if signal h =
    if signal && not h.aborted then record h { aborted = true; signals = h.signals + 1 } else h

abbrev pub try_reap : Bool → Handle → Handle
try_reap collected h = record h { reaped = h.reaped || collected }

abbrev pub seen_eof : Handle → Handle
seen_eof h = record h { eof_seen = true }

-- Behind an EAGAIN: the child is done, the time is over, or the loop goes on as `waited`.
unfoldable pub after_again : Handle → ℕ → List Event → Option Polled → Option Polled
after_again r left rest waited =
    if r.reaped || r.aborted
    then some (returns done (seen_eof r) rest)
    else if left == 0
    then some (returns idle r rest)
    else waited

-- The outer loop, with the milliseconds that are left. `granted` is the answer to the allocation of
-- the chunk. `none` is here too a script that ends in front of a `read`.
unfoldable pub poll_loop : List Event → Bool → ℕ → Handle → Option Polled
unfolding drain abort_if after_again
poll_loop [] granted left h = none
poll_loop (got b bs ∷ rest) granted left h =
    if granted then drain rest [] (b ∷ bs) h else some (returns error h rest)
poll_loop (end ∷ rest) granted left h = some (returns done (seen_eof h) rest)
poll_loop (failed ∷ rest) granted left h = some (returns done (seen_eof h) rest)
poll_loop (again collected signal ∷ rest) granted left h =
    let r = try_reap collected h in
    let step = min poll_delay_ms left in
    after_again r left rest (poll_loop rest granted (left - step) (abort_if signal r))

-- `timeout_ms` is 0 for a negative one.
unfoldable pub poll : List Event → Bool → Bool → ℕ → Handle → Option Polled
unfolding poll_loop abort_if
poll script granted signal timeout_ms h = poll_loop script granted timeout_ms (abort_if signal h)
