-- ===== src/Http/Ahead.antt =====
-- A drain of the main thread that comes between the two sections of a push.
use psi_code.Prelude.{
  size_mod, ltb, ◌%◌, ◌||◌, ℕ, ◌+◌, ◌-◌, ◌≤◌, ◌≡◌, refl, ap, ◌∙◌, true, false, [], ◌∷◌, ◌++◌, arith,
  Bytes, length,
}
use psi_code.Http.{Stream, total_max, queue_max, reserve, link, queue_detach_locked}
use psi_code.Http.Threads.{
  World, idle, reserved, reserve_step, detach_step, link_step, Reach, here, next,
}

reserve-granted :
    (h : Stream) (bytes : Bytes)
    → h.write_failed ≡ false
    → h.total_bytes + length bytes ≤ total_max
    → h.queue_bytes + length bytes ≤ queue_max
    → reserve h bytes ≡ (
      true,
      record h {
        total_bytes = h.total_bytes + length bytes;
        queue_bytes = h.queue_bytes + length bytes;
      },
    )
unfolding reserve
reserve-granted h bytes ok total queue =
    let small_total : (h.total_bytes + length bytes) % size_mod ≡ h.total_bytes + length bytes =
      omega (arith, total) in
    let small_queue : (h.queue_bytes + length bytes) % size_mod ≡ h.queue_bytes + length bytes =
      omega (arith, queue) in
    let inside : (ltb total_max (length bytes)
          || ltb (total_max - length bytes) h.total_bytes
          || ltb queue_max (length bytes)
          || ltb (queue_max - length bytes) h.queue_bytes)
        ≡ false =
      ground (arith, total, queue) in
    rw (ok, inside, small_total, small_queue) refl

nothing_counted : (n : ℕ) → 0 + n ≡ n
nothing_counted n = omega arith

-- From every state with the helper between two writes, no chunks detached and no failed write,
-- and for two writes that are not empty, the first within what is left of the queue limit, the
-- second within the limit of an empty queue and both within the limit of the body, there is an
-- order of the two threads' sections, with a drain between the two of the first write, after
-- which both chunks are queued and the counter of queued bytes holds the length of the second
-- alone.
pub drain_between_sections :
    (w : World) (a b : ℕ) (first second : Bytes)
    → w.helper ≡ idle
    → w.held ≡ []
    → w.stream.write_failed ≡ false
    → w.stream.queue_bytes + length (a ∷ first) ≤ queue_max
    → length (b ∷ second) ≤ queue_max
    → w.stream.total_bytes + length (a ∷ first) + length (b ∷ second) ≤ total_max
    → (u : World) × Reach w u
      × (u.stream.queue ≡ (a ∷ first) ∷ ((b ∷ second) ∷ []))
      × (u.stream.queue_bytes ≡ length (b ∷ second))
unfolding link queue_detach_locked
drain_between_sections w a b first second i e ok queue small total =
    let a1 = a ∷ first in
    let b1 = b ∷ second in
    let r = reserve-granted w.stream a1 ok (omega (arith, total)) queue in
    let s1 : Stream = (reserve w.stream a1).1 in
    let w1 : World = record w { stream = s1; helper = reserved a1 } in
    let w2 : World = record w1 {
      stream = (queue_detach_locked s1).1;
      held = (queue_detach_locked s1).0;
    } in
    let s3 : Stream = link w2.stream a1 in
    let w3 : World = record w2 { stream = s3; helper = idle; written = w2.written ++ a1 } in
    let unfailed : s3.write_failed ≡ false = ap (λ r. r.1.write_failed) r ∙ ok in
    let sum : s3.total_bytes ≡ w.stream.total_bytes + length a1 = ap (λ r. r.1.total_bytes) r in
    let q = reserve-granted s3 b1 unfailed (omega (arith, total, sum)) (omega (arith, small)) in
    let w4 : World = record w3 { stream = (reserve s3 b1).1; helper = reserved b1 } in
    let w5 : World = record w4 {
      stream = link w4.stream b1;
      helper = idle;
      written = w4.written ++ b1;
    } in
    (
      w5,
      next
          (next
            (next (next (next here (reserve_step a1 i (ap (λ r. r.0) r) refl)) (detach_step e refl))
              (link_step a1 refl refl))
            (reserve_step b1 refl (ap (λ r. r.0) q) refl))
          (link_step b1 refl refl),
      ap (λ r. r.1.queue ++ (b1 ∷ [])) q,
      ap (λ r. r.1.queue_bytes) q ∙ nothing_counted (length b1),
    )
