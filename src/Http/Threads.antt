-- ===== src/Http/Threads.antt =====
-- The helper thread and the main thread of a stream, taking turns at the critical sections under
-- `mu`: every order of their steps. What stands between two sections of one thread, such as a
-- `malloc`, is part of the step behind it.
use psi_code.Prelude.{
  add_size, ℕ, ◌+◌, ◌-◌, ◌≤◌, ◌≡◌, refl, ap, ◌∙◌, sym, Bool, true, false, List, [], ◌∷◌, ◌++◌,
  arith, append-nil, append_assoc, Bytes, length, length-append,
}
use psi_code.Http.{
  Stream, Polled, chunk, running, finished, stream_poll, fresh, total_max, queue_max, joined,
  total_length, reserve, link, queue_push_fail, queue_detach_locked, chunk_list_join, thread_end,
  queue_requeue_front,
}
use psi_code.Http.Queue.{Delivers, stream_poll-Delivers, joined-append, length-joined}

-- Where the helper thread stands: outside a push, between the two sections of one, or ended.
pub data Helper : Type 0 where
  idle : Helper
  reserved : Bytes → Helper
  ended : Helper

-- `held` is what the main thread has detached and not yet joined. `written` collects the bytes of
-- the pushes that returned 1, `delivered` those that polls have handed over.
pub record World : Type 0 where
  pub stream : Stream
  pub helper : Helper
  pub held : List Bytes
  pub written : Bytes
  pub delivered : Bytes

pub data Step (w u : World) : Type 0 where
  reserve_step :
      (bytes : Bytes)
      → w.helper ≡ idle
      → (reserve w.stream bytes).0 ≡ true
      → u ≡ record w { stream = (reserve w.stream bytes).1; helper = reserved bytes }
      → Step w u
  refuse_step :
      (bytes : Bytes)
      → w.helper ≡ idle
      → (reserve w.stream bytes).0 ≡ false
      → u ≡ record w { stream = (reserve w.stream bytes).1 }
      → Step w u
  fail_step :
      (bytes : Bytes)
      → w.helper ≡ reserved bytes
      → u ≡ record w { stream = queue_push_fail w.stream; helper = idle }
      → Step w u
  link_step :
      (bytes : Bytes)
      → w.helper ≡ reserved bytes
      → u ≡ record w { stream = link w.stream bytes; helper = idle; written = w.written ++ bytes }
      → Step w u
  end_step :
      (code_ok : Bool) (status : ℕ)
      → w.helper ≡ idle
      → u ≡ record w { stream = thread_end code_ok status w.stream; helper = ended }
      → Step w u
  detach_step :
      w.held ≡ []
      → u ≡ record w {
        stream = (queue_detach_locked w.stream).1;
        held = (queue_detach_locked w.stream).0;
      }
      → Step w u
  join_step :
      (granted : Bool) (head : Bytes) (rest : List Bytes)
      → w.held ≡ head ∷ rest
      → u ≡ record w {
        stream = (chunk_list_join granted w.stream head rest).1;
        held = [];
        delivered = w.delivered ++ (chunk_list_join granted w.stream head rest).0;
      }
      → Step w u

pub data Reach (w : World) : World → Type 0 where
  here : Reach w w
  next : {u v : World} → Reach w u → Step u v → Reach w v

abbrev pub start : World
start = record { stream = fresh; helper = idle; held = []; written = []; delivered = [] }

abbrev pub pending : Helper → ℕ
pending idle = 0
pending (reserved bytes) = length bytes
pending ended = 0

-- In order: the bytes handed over, those detached and those queued are the bytes written.
-- The queue holds at most `queue_max` bytes more than its counter says.
pub record Inv (w : World) : Type 0 where
  pub fifo : w.delivered ++ (joined w.held ++ joined w.stream.queue) ≡ w.written
  pub slack : total_length w.stream.queue + pending w.helper ≤ w.stream.queue_bytes + queue_max
  pub pending_in : pending w.helper ≤ queue_max
  pub total_in : w.stream.total_bytes ≤ total_max
  pub counted : length w.written + pending w.helper ≤ w.stream.total_bytes
  pub queue_in : w.stream.queue_bytes + total_length w.held ≤ w.stream.total_bytes

pub total_length-append :
    (xs ys : List Bytes) → total_length (xs ++ ys) ≡ total_length xs + total_length ys
total_length-append [] ys = omega arith
total_length-append (x ∷ xs) ys = omega (arith, total_length-append xs ys)

length-written :
    (w : World)
    → Inv w
    → length w.written ≡ length w.delivered + (total_length w.held + total_length w.stream.queue)
length-written w i = omega (
  arith,
  ap length i.fifo,
  length-append w.delivered (joined w.held ++ joined w.stream.queue),
  length-append (joined w.held) (joined w.stream.queue),
  length-joined w.held,
  length-joined w.stream.queue,
)

module _ (w : World) (i : Inv w) where
  link-Inv :
      (bytes : Bytes)
      → w.helper ≡ reserved bytes
      → Inv (record w { stream = link w.stream bytes; helper = idle; written = w.written ++ bytes })
  unfolding link
  link-Inv bytes a =
      let held_back : pending w.helper ≡ length bytes = rw a in
      let queued = total_length-append w.stream.queue (bytes ∷ []) in
      record {
        fifo = simp (joined-append, append-nil, append_assoc, ← i.fifo);
        slack = omega (arith, i.slack, queued, held_back);
        pending_in = omega arith;
        total_in = i.total_in;
        counted = omega (arith, i.counted, length-append w.written bytes, held_back);
        queue_in = i.queue_in;
      }

  detach-Inv :
      w.held ≡ []
      → Inv (record w {
        stream = (queue_detach_locked w.stream).1;
        held = (queue_detach_locked w.stream).0;
      })
  unfolding queue_detach_locked
  detach-Inv a = record {
    fifo = rw append-nil (rw a at i.fifo);
    slack = omega (arith, i.pending_in);
    pending_in = i.pending_in;
    total_in = i.total_in;
    counted = i.counted;
    queue_in = omega (arith, length-written w i, i.counted);
  }

  join_all-Inv :
      {nodes : List Bytes}
      → w.held ≡ nodes
      → Inv (record w { held = []; delivered = w.delivered ++ joined nodes })
  join_all-Inv {nodes} a = record {
    fifo = rw append_assoc (rw a at i.fifo);
    slack = i.slack;
    pending_in = i.pending_in;
    total_in = i.total_in;
    counted = i.counted;
    queue_in = omega (arith, i.queue_in);
  }

  requeue-Inv :
      (head : Bytes) (rest : List Bytes)
      → w.held ≡ head ∷ rest
      → Inv (record w {
        stream = record w.stream {
          queue = rest ++ w.stream.queue;
          queue_bytes = w.stream.queue_bytes + total_length rest;
        };
        held = [];
        delivered = w.delivered ++ head;
      })
  requeue-Inv head rest a =
      let held_sum : total_length w.held ≡ length head + total_length rest = rw a in
      record {
        fifo = simp (joined-append, append_assoc) (simp append_assoc at (rw a at i.fifo));
        slack = omega (arith, i.slack, total_length-append rest w.stream.queue);
        pending_in = i.pending_in;
        total_in = i.total_in;
        counted = i.counted;
        queue_in = omega (arith, i.queue_in, held_sum);
      }

  join-Inv :
      (granted : Bool) (head : Bytes) (rest : List Bytes)
      → w.held ≡ head ∷ rest
      → Inv (record w {
        stream = (chunk_list_join granted w.stream head rest).1;
        held = [];
        delivered = w.delivered ++ (chunk_list_join granted w.stream head rest).0;
      })
  unfolding chunk_list_join queue_requeue_front
  join-Inv granted head [] a = rw append-nil at (join_all-Inv a)
  join-Inv true head (c ∷ cs) a = join_all-Inv a
  join-Inv false head (c ∷ cs) a =
      let held_sum : total_length w.held ≡ length head + (length c + total_length cs) = rw a in
      let sum : add_size w.stream.queue_bytes
            (length head + (length c + total_length cs) - length head)
          ≡ w.stream.queue_bytes + total_length (c ∷ cs) =
        omega (arith, held_sum, i.queue_in, i.total_in) in
      rw sum (requeue-Inv head (c ∷ cs) a)

-- Each step keeps the invariant.
Step-Inv : {w u : World} → Step w u → Inv w → Inv u
Step-Inv {w} (reserve_step bytes a b e) i = unfold reserve in ground arith
Step-Inv {w} (refuse_step bytes a b e) i = unfold reserve in ground arith
Step-Inv {w} (fail_step bytes a e) i = unfold queue_push_fail in ground arith
Step-Inv {w} (link_step bytes a e) i = rw e (link-Inv w i bytes a)
Step-Inv {w} (end_step code_ok status a e) i = unfold thread_end in ground arith
Step-Inv {w} (detach_step a e) i = rw e (detach-Inv w i a)
Step-Inv {w} (join_step granted head rest a e) i = rw e (join-Inv w i granted head rest a)

start-Inv : Inv start
start-Inv = record {
  fifo = refl;
  slack = omega arith;
  pending_in = omega arith;
  total_in = omega arith;
  counted = omega arith;
  queue_in = omega arith;
}

-- In every interleaving of the two threads, refused writes, failed allocations and failed joins
-- included: what the polls handed over, what the main thread has detached and what is queued are,
-- in this order, the bytes of the accepted writes. The stream never accepts more than the total
-- limit, and its queue holds at most 4 MiB more than its counter says.
pub Reach-Inv : {w : World} → Reach start w → Inv w
Reach-Inv here = start-Inv
Reach-Inv (next r st) = Step-Inv st (Reach-Inv r)

record EndInv (w : World) : Type 0 where
  over : w.stream.done ≡ true → w.helper ≡ ended

Step-EndInv : {w u : World} → Step w u → EndInv w → EndInv u
Step-EndInv {w} (reserve_step bytes a b e) i = unfold reserve in ground arith
Step-EndInv {w} (refuse_step bytes a b e) i = unfold reserve in ground arith
Step-EndInv {w} (fail_step bytes a e) i = unfold queue_push_fail in ground arith
Step-EndInv {w} (link_step bytes a e) i = unfold link in ground arith
Step-EndInv {w} (end_step code_ok status a e) i = unfold thread_end in ground arith
Step-EndInv {w} (detach_step a e) i = unfold queue_detach_locked in ground arith
Step-EndInv {w} (join_step granted head rest a e) i = unfold chunk_list_join in ground arith

start-EndInv : EndInv start
start-EndInv = record { over = λ e. cc e }

Reach-EndInv : {w : World} → Reach start w → EndInv w
Reach-EndInv here = start-EndInv
Reach-EndInv (next r st) = Step-EndInv st (Reach-EndInv r)

-- Nothing is written once the helper has ended.
Step-ended :
    {w u : World} → Step w u → w.helper ≡ ended → (u.helper ≡ ended) × (u.written ≡ w.written)
Step-ended {w} (reserve_step bytes a b e) h = ground arith
Step-ended {w} (refuse_step bytes a b e) h = ground arith
Step-ended {w} (fail_step bytes a e) h = ground arith
Step-ended {w} (link_step bytes a e) h = ground arith
Step-ended {w} (end_step code_ok status a e) h = ground arith
Step-ended {w} (detach_step a e) h = ground arith
Step-ended {w} (join_step granted head rest a e) h = ground arith

Reach-ended :
    {w u : World} → Reach w u → w.helper ≡ ended → (u.helper ≡ ended) × (u.written ≡ w.written)
Reach-ended here h = (h, refl)
Reach-ended (next r st) h =
    let (h', same) = Reach-ended r h in let (h'', same') = Step-ended st h' in (h'', same' ∙ same)

finished-Delivers :
    (h : Stream) (r : Polled × Stream)
    → r.0 ≡ finished
    → Delivers h r
    → (h.queue ≡ []) × (h.done ≡ true)
finished-Delivers h (chunk bytes, h') e d = cc
finished-Delivers h (running, h') e d = cc
finished-Delivers h (finished, h') e d = (d.0, d.2)

finished-queue :
    (granted : Bool) (h : Stream)
    → (stream_poll granted h).0 ≡ finished
    → (h.queue ≡ []) × (h.done ≡ true)
finished-queue granted h e =
    finished-Delivers h (stream_poll granted h) e (stream_poll-Delivers granted h)

-- When a poll of the main thread, with nothing left to join, returns that the stream is done, then
-- in every interleaving all the accepted bytes have been handed over, and none is accepted later.
pub poll_complete :
    (granted : Bool) {w u : World}
    → Reach start w
    → w.held ≡ []
    → (stream_poll granted w.stream).0 ≡ finished
    → Reach w u
    → (w.delivered ≡ w.written) × (u.written ≡ w.written)
poll_complete granted {w} r a e later =
    let (empty, over) = finished-queue granted w.stream e in
    let ends = (Reach-EndInv r).over over in
    (sym (append-nil w.delivered) ∙ rw (a, empty) at (Reach-Inv r).fifo, (Reach-ended later ends).1)
