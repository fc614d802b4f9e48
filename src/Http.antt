-- ===== src/Http.antt =====
-- The chunk queue of src/core/http_async.c between the helper thread, which runs curl, and the main
-- thread, which polls. The functions are the critical sections under `mu`, and their compositions
-- as one thread runs them; Http/Threads lets the two threads take turns.
pub mod Queue
pub mod Deadline
pub mod Buffered
pub mod Threads
pub mod Ahead
mod Tests
use psi_code.Prelude.{
  ℕ, zero, suc, ◌+◌, ◌-◌, ◌*◌, ◌/◌, ◌%◌, Option, none, some, Bool, true, false, not, ◌&&◌, ◌||◌,
  List, [], ◌∷◌, ◌++◌, ltb, leb, ◌==◌, if◌then◌else◌, Bytes, length, size_mod, size_max, add_size,
}

-- `PSI_HTTP_STREAM_TOTAL_MAX_BYTES` and `PSI_HTTP_STREAM_QUEUE_MAX_BYTES`
abbrev pub total_max : ℕ
total_max = 64 * 1024 * 1024

abbrev pub queue_max : ℕ
queue_max = 4 * 1024 * 1024

-- The part of `struct psi_http_stream` that the two threads share. A node's `len` is the length of
-- its bytes; the tail pointer is the last node of the queue, and null when it is empty.
pub record Stream : Type 0 where
  pub queue : List Bytes
  pub queue_bytes : ℕ
  pub total_bytes : ℕ
  pub done : Bool
  pub http_status : ℕ
  pub curl_ok : Bool
  pub write_failed : Bool

-- what `calloc` and `psi_http_stream_begin` leave
abbrev pub fresh : Stream
fresh = record {
  queue = [];
  queue_bytes = 0;
  total_bytes = 0;
  done = false;
  http_status = 0;
  curl_ok = true;
  write_failed = false;
}

-- all the bytes of a list of nodes, in order
abbrev pub joined : List Bytes → Bytes
joined [] = []
joined (c ∷ cs) = c ++ joined cs

unfoldable pub queue_push_fail : Stream → Stream
queue_push_fail h = record h { write_failed = true }

unfoldable pub queue_would_exceed_limits : Stream → ℕ → Bool
queue_would_exceed_limits h len =
    ltb total_max len
    || ltb (total_max - len) h.total_bytes
    || ltb queue_max len
    || ltb (queue_max - len) h.queue_bytes

-- the first critical section of a push
unfoldable pub reserve : Stream → Bytes → Bool × Stream
unfolding queue_would_exceed_limits
reserve h bytes =
    if h.write_failed || queue_would_exceed_limits h (length bytes)
    then (false, record h { write_failed = true })
    else (
      true,
      record h {
        total_bytes = add_size h.total_bytes (length bytes);
        queue_bytes = add_size h.queue_bytes (length bytes);
      },
    )

-- the last critical section of a push
unfoldable pub link : Stream → Bytes → Stream
link h bytes = record h { queue = h.queue ++ (bytes ∷ []) }

-- The two answers of `malloc` are for the node and for its copy of the bytes.
unfoldable pub queue_push : Bool → Bool → Stream → Bytes → Bool × Stream
unfolding reserve link queue_push_fail
queue_push node copy h [] = (true, h)
queue_push node copy h (b ∷ bs) =
    let (reserved, h') = reserve h (b ∷ bs) in
    if not reserved
    then (false, h')
    else if not node
    then (false, queue_push_fail h')
    else if not copy
    then (false, queue_push_fail h')
    else (true, link h' (b ∷ bs))

-- The bytes are `data[0 .. size * nmemb)`.
unfoldable pub write_cb : Bool → Bool → ℕ → ℕ → Bytes → Stream → ℕ × Stream
unfolding queue_push queue_push_fail
write_cb node copy size nmemb bytes h =
    if not (size == 0) && ltb (size_max / size) nmemb
    then (0, queue_push_fail h)
    else (let (pushed, h') = queue_push node copy h bytes in
        if pushed then (size * nmemb % size_mod, h') else (0, h'))

unfoldable pub queue_detach_locked : Stream → List Bytes × Stream
queue_detach_locked h = (h.queue, record h { queue = []; queue_bytes = 0 })

unfoldable pub queue_requeue_front : Stream → List Bytes → ℕ → Stream
queue_requeue_front h [] bytes = h
queue_requeue_front h (c ∷ cs) bytes = record h {
  queue = (c ∷ cs) ++ h.queue;
  queue_bytes = add_size h.queue_bytes bytes;
}

unfoldable pub queue_free_all : Stream → Stream
unfolding queue_detach_locked
queue_free_all h = (queue_detach_locked h).1

-- the sum of the nodes' lengths
abbrev pub total_length : List Bytes → ℕ
total_length [] = 0
total_length (c ∷ cs) = length c + total_length cs

-- `granted` is the answer of `malloc(total)`. The list is not empty.
unfoldable pub chunk_list_join : Bool → Stream → Bytes → List Bytes → Bytes × Stream
unfolding queue_requeue_front
chunk_list_join granted h head [] = (head, h)
chunk_list_join true h head (c ∷ cs) = (joined (head ∷ c ∷ cs), h)
chunk_list_join false h head (c ∷ cs) =
    (head, queue_requeue_front h (c ∷ cs) (total_length (head ∷ c ∷ cs) - length head))

-- What a poll returns: 1 with the bytes, 0, or 2.
pub data Polled : Type 0 where
  chunk : Bytes → Polled
  running : Polled
  finished : Polled

polled : Bool → Stream → List Bytes → Polled × Stream
polled granted h (head ∷ rest) =
    let (bytes, h') = chunk_list_join granted h head rest in (chunk bytes, h')
polled granted h [] = (if h.done then finished else running, h)

-- The condition under which a poll waits on `cond`. The timeout is not negative, or `none`.
unfoldable pub waits : Stream → Option ℕ → Bool
waits h (some zero) = false
waits h _ = elim h.queue [ [] ↦ not h.done | c ∷ cs ↦ false ]

-- The poll from the end of its wait on, with a place for the chunk.
unfoldable pub stream_poll : Bool → Stream → Polled × Stream
unfolding polled chunk_list_join queue_detach_locked
stream_poll granted h = let (nodes, h') = queue_detach_locked h in polled granted h' nodes

-- `none` is the null handle.
unfoldable pub poll : Bool → Option Stream → Polled × Option Stream
poll granted none = (finished, none)
poll granted (some h) = let (r, h') = stream_poll granted h in (r, some h')

-- `ts` for a wait of `timeout_ms`, from the clock's seconds and microseconds
unfoldable pub deadline : ℕ → ℕ → ℕ → ℕ × ℕ
deadline now_sec now_usec timeout_ms =
    let sec = now_sec + timeout_ms / 1000 in
    let nsec = now_usec * 1000 + timeout_ms % 1000 * 1_000_000 in
    if leb 1_000_000_000 nsec then (sec + 1, nsec - 1_000_000_000) else (sec, nsec)

-- the critical section at the end of the helper thread
unfoldable pub thread_end : Bool → ℕ → Stream → Stream
thread_end code_ok status h = record h {
  curl_ok = code_ok;
  http_status = if code_ok then status else 0;
  done = true;
}

-- `none` is the return of -1.
unfoldable pub finish_live : Stream → Option ℕ
finish_live h = if h.curl_ok then some h.http_status else none
