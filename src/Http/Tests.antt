-- ===== src/Http/Tests.antt =====
-- Runs of the queue, and its theorems at concrete streams and interleavings.
use psi_code.Prelude.{◌+◌, ◌≤◌, ◌<◌, ◌≡◌, refl, ◌⊎◌, Bool, true, false, [], ◌∷◌, ◌++◌, arith, codes}
use psi_code.Http.{
  Stream, fresh, total_max, queue_max, queue_push, reserve, link, queue_detach_locked,
  chunk_list_join, thread_end, stream_poll, chunk, finished,
}
use psi_code.Http.Queue.{queue_push_lem, Delivers, stream_poll-Delivers}
use psi_code.Http.Threads.{
  World, reserve_step, link_step, end_step, detach_step, join_step, Reach, here, next, start, Inv,
  Reach-Inv, poll_complete, reserved, ended,
}
use psi_code.Http.Ahead.{drain_between_sections}

abbrev two_chunks : Stream
two_chunks = record fresh { queue = codes "ab" ∷ codes "c" ∷ []; queue_bytes = 3; total_bytes = 3 }

abbrev failed : Stream
failed = record fresh { write_failed = true }

push_runs : queue_push true true two_chunks (codes "d") ≡ (
  true,
  record two_chunks {
    queue = codes "ab" ∷ codes "c" ∷ codes "d" ∷ [];
    queue_bytes = 4;
    total_bytes = 4;
  },
)
unfolding queue_push
push_runs = refl

poll_without_memory :
    stream_poll false two_chunks
    ≡ (chunk (codes "ab"), record two_chunks { queue = codes "c" ∷ []; queue_bytes = 1 })
unfolding stream_poll
poll_without_memory = refl

-- One write of two bytes, drained between its two sections, joined, and the end of the helper.
abbrev reserved_world : World
reserved_world = record start {
  stream = record fresh { queue_bytes = 2; total_bytes = 2 };
  helper = reserved (codes "hi");
}

abbrev drained_world : World
drained_world = record start {
  stream = record fresh { total_bytes = 2 };
  helper = reserved (codes "hi");
}

abbrev linked_world : World
linked_world = record start {
  stream = record fresh { queue = codes "hi" ∷ []; total_bytes = 2 };
  written = codes "hi";
}

abbrev held_world : World
held_world = record start {
  stream = record fresh { total_bytes = 2 };
  held = codes "hi" ∷ [];
  written = codes "hi";
}

abbrev joined_world : World
joined_world = record start {
  stream = record fresh { total_bytes = 2 };
  written = codes "hi";
  delivered = codes "hi";
}

abbrev ended_world : World
ended_world = record joined_world {
  stream = record fresh { total_bytes = 2; done = true; http_status = 200 };
  helper = ended;
}

linked : Reach start linked_world
unfolding reserve link queue_detach_locked
linked =
    next {u = drained_world}
      (next {u = reserved_world} (next here (reserve_step (codes "hi") refl refl refl))
        (detach_step refl refl))
      (link_step (codes "hi") refl refl)

finished_run : Reach start ended_world
unfolding chunk_list_join queue_detach_locked thread_end
finished_run =
    next {u = joined_world}
      (next {u = held_world} (next linked (detach_step refl refl))
        (join_step true (codes "hi") [] refl refl))
      (end_step true 200 refl refl)

Reach-Inv_example : Inv linked_world
Reach-Inv_example = Reach-Inv linked

last_poll : (stream_poll true ended_world.stream).0 ≡ finished
unfolding stream_poll
last_poll = refl

poll_complete_example :
    (ended_world.delivered ≡ ended_world.written) × (ended_world.written ≡ ended_world.written)
poll_complete_example = poll_complete true finished_run refl last_poll here

drain_between_sections_example :
    (u : World) × Reach start u
    × (u.stream.queue ≡ codes "hi" ∷ (codes "you" ∷ []))
    × (u.stream.queue_bytes ≡ 3)
drain_between_sections_example =
    drain_between_sections start 104 121 (codes "i") (codes "ou") refl refl refl (omega arith)
      (omega arith) (omega arith)

queue_push_lem_example :
    ((queue_push true false two_chunks (codes "d")).0 ≡ true)
      × (two_chunks.write_failed ≡ false)
      × (two_chunks.total_bytes + 1 ≤ total_max)
      × (two_chunks.queue_bytes + 1 ≤ queue_max)
      × (◌≡◌ {A = Bool} true true)
      × (◌≡◌ {A = Bool} false true)
      × ((queue_push true false two_chunks (codes "d")).1 ≡ record two_chunks {
        queue = two_chunks.queue ++ (codes "d" ∷ []);
        total_bytes = two_chunks.total_bytes + 1;
        queue_bytes = two_chunks.queue_bytes + 1;
      })
    ⊎ ((queue_push true false two_chunks (codes "d")).0 ≡ false)
      × ((two_chunks.write_failed ≡ true)
          ⊎ (total_max < two_chunks.total_bytes + 1)
          ⊎ (queue_max < two_chunks.queue_bytes + 1)
          ⊎ (◌≡◌ {A = Bool} true false)
          ⊎ (◌≡◌ {A = Bool} false false))
      × ((queue_push true false two_chunks (codes "d")).1.queue ≡ two_chunks.queue)
      × ((queue_push true false two_chunks (codes "d")).1.write_failed ≡ true)
queue_push_lem_example = queue_push_lem true false two_chunks (codes "d") (omega arith) (λ e. cc e)

stream_poll-Delivers_example : Delivers two_chunks (stream_poll false two_chunks)
stream_poll-Delivers_example = stream_poll-Delivers false two_chunks
