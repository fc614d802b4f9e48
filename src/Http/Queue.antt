-- ===== src/Http/Queue.antt =====
-- A push and a poll, each as one thread runs it.
use psi_code.Prelude.{
  ℕ, ◌+◌, ◌≤◌, ◌<◌, ◌≡◌, ◌≢◌, refl, ap, ◌∙◌, sym, ◌⊎◌, inl, inr, Bool, true, false, List, [], ◌∷◌,
  ◌++◌, arith, append-nil, append_assoc, Bytes, length, length-append, Bool-cases,
}
use psi_code.Http.{
  Stream, total_max, queue_max, joined, total_length, queue_push, write_cb, chunk_list_join,
  stream_poll, queue_detach_locked, queue_requeue_front, polled, Polled, chunk, running, finished,
}

pub joined-append : (xs ys : List Bytes) → joined (xs ++ ys) ≡ joined xs ++ joined ys
joined-append [] ys = refl
joined-append (x ∷ xs) ys =
    ap (λ l. x ++ l) (joined-append xs ys) ∙ sym (append_assoc x (joined xs) (joined ys))

pub length-joined : (xs : List Bytes) → length (joined xs) ≡ total_length xs
length-joined [] = refl
length-joined (x ∷ xs) = omega (arith, length-append x (joined xs), length-joined xs)

-- The accounting of a stream stays within the limits.
pub record IsBounded (h : Stream) : Type 0 where
  pub total_in : h.total_bytes ≤ total_max
  pub queue_in : h.queue_bytes ≤ queue_max

-- A push of some bytes to a stream within the limits returns 1 exactly when nothing has failed
-- before, the bytes fit both limits and both allocations are granted. Then they stand behind the
-- queue, and both counters have grown by their number. Otherwise the queue is as it was and the
-- failure is latched.
pub queue_push_lem :
    (node copy : Bool) (h : Stream) (bytes : Bytes)
    → IsBounded h
    → bytes ≢ []
    → ((queue_push node copy h bytes).0 ≡ true)
        × (h.write_failed ≡ false)
        × (h.total_bytes + length bytes ≤ total_max)
        × (h.queue_bytes + length bytes ≤ queue_max)
        × (node ≡ true)
        × (copy ≡ true)
        × ((queue_push node copy h bytes).1 ≡ record h {
          queue = h.queue ++ (bytes ∷ []);
          total_bytes = h.total_bytes + length bytes;
          queue_bytes = h.queue_bytes + length bytes;
        })
      ⊎ ((queue_push node copy h bytes).0 ≡ false)
        × ((h.write_failed ≡ true)
            ⊎ (total_max < h.total_bytes + length bytes)
            ⊎ (queue_max < h.queue_bytes + length bytes)
            ⊎ (node ≡ false)
            ⊎ (copy ≡ false))
        × ((queue_push node copy h bytes).1.queue ≡ h.queue)
        × ((queue_push node copy h bytes).1.write_failed ≡ true)
unfolding queue_push
queue_push_lem node copy h [] v ne = absurd (ne refl)
queue_push_lem node copy h (b ∷ bs) v ne = ground arith

-- Once a failure is latched, every write that carries bytes is refused, and the latch and the queue
-- stay: a stream that has lost a chunk never takes a later one.
write_cb-latched :
    (node copy : Bool) (size nmemb : ℕ) (h : Stream) (b : ℕ) (bs : Bytes)
    → h.write_failed ≡ true
    → ((write_cb node copy size nmemb (b ∷ bs) h).0 ≡ 0)
      × ((write_cb node copy size nmemb (b ∷ bs) h).1.write_failed ≡ true)
      × ((write_cb node copy size nmemb (b ∷ bs) h).1.queue ≡ h.queue)
unfolding write_cb
write_cb-latched node copy size nmemb h b bs e = ground arith

-- What a poll may return, and what it leaves of the queue.
abbrev pub Delivers : Stream → Polled × Stream → Type 0
Delivers h (chunk bytes, h') = (h.queue ≢ []) × (bytes ++ joined h'.queue ≡ joined h.queue)
Delivers h (running, h') = (h.queue ≡ []) × (h'.queue ≡ []) × (h.done ≡ false)
Delivers h (finished, h') = (h.queue ≡ []) × (h'.queue ≡ []) × (h.done ≡ true)

abbrev detached : Stream → Stream
unfolding queue_detach_locked
detached h = (queue_detach_locked h).1

polled-Delivers :
    (granted : Bool) (h h' : Stream) (nodes : List Bytes)
    → h.queue ≡ nodes
    → h'.queue ≡ []
    → h'.done ≡ h.done
    → Delivers h (polled granted h' nodes)
unfolding polled chunk_list_join queue_requeue_front
polled-Delivers granted h h' [] q empty d = elim (Bool-cases h'.done) [
  | inl over ↦ rw over (q, empty, sym d ∙ over)
  | inr more ↦ rw more (q, empty, sym d ∙ more)
]
polled-Delivers granted h h' (c ∷ []) q empty d = (rw q (λ z. cc z), rw (q, empty))
polled-Delivers true h h' (c ∷ d ∷ cs) q empty _ = (rw q (λ z. cc z), rw (q, empty) (append-nil _))
polled-Delivers false h h' (c ∷ d ∷ cs) q empty _ = (rw q (λ z. cc z), rw (q, empty, append-nil))

-- A poll loses no byte, also when the joined buffer cannot be allocated: what it hands over and what
-- it leaves queued are the queued bytes in order. It says that the stream is done only when the
-- queue is empty and the helper has ended.
pub stream_poll-Delivers : (granted : Bool) (h : Stream) → Delivers h (stream_poll granted h)
unfolding stream_poll
stream_poll-Delivers granted h = (polled-Delivers granted h (detached h) h.queue refl refl refl)
