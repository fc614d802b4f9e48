-- ===== src/Http/Deadline.antt =====
-- The absolute time until which a poll waits.
use psi_code.Prelude.{ℕ, ◌+◌, ◌*◌, ◌<◌, ◌≡◌, arith}
use psi_code.Http.{deadline}

-- The deadline is the clock's time plus the timeout, to the nanosecond, and its nanoseconds are in
-- range, for a clock whose microseconds are.
deadline_lem :
    (now_sec now_usec timeout_ms : ℕ)
    → now_usec < 1_000_000
    → ((deadline now_sec now_usec timeout_ms).1 < 1_000_000_000)
      × ((deadline now_sec now_usec timeout_ms).0 * 1_000_000_000
            + (deadline now_sec now_usec timeout_ms).1
          ≡ now_sec * 1_000_000_000 + now_usec * 1000 + timeout_ms * 1_000_000)
unfolding deadline
deadline_lem now_sec now_usec timeout_ms h = ground arith
