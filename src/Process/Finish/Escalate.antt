-- ===== src/Process/Finish/Escalate.antt =====
-- The signals that the loop of `psi_process_finish` sends to a child that is never collected.
use psi_code.Prelude.{
  ℕ, zero, suc, ◌+◌, ◌*◌, ◌≤◌, ◌≡◌, refl, max, Bool, true, false, Option, none, some, List, [], ◌∷◌,
  ◌++◌, replicate, length, leb, Bool-cases, inl, inr, arith,
}
use psi_code.Process.Poll.{Handle}
use psi_code.Process.Finish.{
  escalate_ms, wait_limit_ms, delay_ms, WaitStatus, running, Signal, sigterm, sigkill, Round,
  Reaping, starting, collect_last, reap_loop,
}

-- No round finds that the child has ended.
abbrev pub AllRunning : List Round → Type 0
AllRunning [] = Unit
AllRunning (r ∷ rs) = (r.waited ≡ running) × AllRunning rs

-- The loop ends with these signals behind those that were sent, after this time.
pub record Reaps (sent : List (ℕ × Signal)) (waited_ms : ℕ) (o : Option Reaping) : Type 0 where
  pub c : Reaping
  pub ends : o ≡ some c
  pub sent_are : c.sent ≡ sent
  pub time : c.waited_ms ≡ waited_ms
  pub reaped : c.reaped ≡ true

collect_last-Reaps :
    (last : Option WaitStatus) (c : Reaping) (n : ℕ)
    → c.waited_ms ≡ n
    → Reaps c.sent n (some (collect_last last c))
collect_last-Reaps none c n h = record {
  c = _;
  ends = refl;
  sent_are = refl;
  time = h;
  reaped = refl;
}
collect_last-Reaps (some s) c n h = record {
  c = _;
  ends = refl;
  sent_are = refl;
  time = h;
  reaped = refl;
}

-- SIGTERM has been sent; `b` says whether SIGKILL has.
abbrev after_term : Bool → Bool → ℕ → WaitStatus → List (ℕ × Signal) → Reaping
after_term b sigkilled w s sent = record {
  reaped = b;
  aborted = true;
  sigkilled = sigkilled;
  waited_ms = w;
  wait_status = s;
  sent = sent;
}

module _ (last : Option WaitStatus) (s : WaitStatus) (b : Bool) where
  killed-Reaps :
      (rs : List Round) (k w : ℕ) (sent : List (ℕ × Signal))
      → AllRunning rs
      → w ≡ 20 * k
      → 1 ≤ length rs
      → wait_limit_ms + delay_ms ≤ w + delay_ms * length rs
      → Reaps sent (max w wait_limit_ms) (reap_loop rs last (after_term b true w s sent))
  unfolding reap_loop
  killed-Reaps [] k w sent a e l n = absurd (omega (arith, l))
  killed-Reaps (r ∷ rs) k w sent (a, h) e l n = elim (Bool-cases (leb wait_limit_ms w)) [
    | inl over ↦ rw (a, over) (collect_last-Reaps last _ (max w wait_limit_ms) (ground arith))
    | inr more ↦
        let m : max (w + delay_ms) wait_limit_ms ≡ max w wait_limit_ms = ground (arith, e) in
        rw (a, more)
          (rw m at (
            killed-Reaps rs (k + 1) (w + delay_ms) sent h (omega (arith, e)) (ground (arith, n))
              (omega (arith, n))))
  ]

  termed-Reaps :
      (rs : List Round) (k w : ℕ) (sent : List (ℕ × Signal))
      → AllRunning rs
      → w ≡ 20 * k
      → 1 ≤ length rs
      → wait_limit_ms + delay_ms ≤ w + delay_ms * length rs
      → Reaps
          (sent ++ ((max w escalate_ms, sigkill) ∷ []))
          (max w wait_limit_ms)
          (reap_loop rs last (after_term b false w s sent))
  unfolding reap_loop
  termed-Reaps [] k w sent a e l n = absurd (omega (arith, l))
  termed-Reaps (r ∷ rs) k w sent (a, h) e l n = elim (Bool-cases (leb escalate_ms w)) [
    | inl now ↦
        let at : max w escalate_ms ≡ w = ground arith in
        elim (Bool-cases (leb wait_limit_ms w)) [
          | inl over ↦
              rw (a, now, over, at) (collect_last-Reaps last _ (max w wait_limit_ms) (ground arith))
          | inr more ↦
              let m : max (w + delay_ms) wait_limit_ms ≡ max w wait_limit_ms = ground (arith, e) in
              rw (a, now, more, at)
                (rw m at (
                  killed-Reaps rs (k + 1) (w + delay_ms) (sent ++ ((w, sigkill) ∷ [])) h
                    (omega (arith, e)) (ground (arith, n)) (omega (arith, n))))
        ]
    | inr before ↦
        let m : max (w + delay_ms) wait_limit_ms ≡ max w wait_limit_ms = ground (arith, e) in
        let f : max (w + delay_ms) escalate_ms ≡ max w escalate_ms = ground (arith, e) in
        let more : leb wait_limit_ms w ≡ false = ground arith in
        rw (a, before, more)
          (rw (m, f) at
            (termed-Reaps rs (k + 1) (w + delay_ms) sent h (omega (arith, e)) (ground (arith, n))
              (omega (arith, n))))
  ]

abbrev pub quiet : Round
quiet = record { waited = running; signal = false }

abbrev pub stop : Round
stop = record { waited = running; signal = true }

-- The signals to a child that is told to stop after so many ms.
abbrev pub sent_from : ℕ → List (ℕ × Signal)
sent_from w = (w, sigterm) ∷ ((max w escalate_ms, sigkill) ∷ [])

-- Nothing has been sent.
abbrev waiting : Bool → ℕ → WaitStatus → Reaping
waiting b w s = record {
  reaped = b;
  aborted = false;
  sigkilled = false;
  waited_ms = w;
  wait_status = s;
  sent = [];
}

quiet-Reaps :
    (last : Option WaitStatus) (s : WaitStatus) (b : Bool) (n k w : ℕ) (after : List Round)
    → AllRunning after
    → w ≡ 20 * k
    → wait_limit_ms ≤ w + delay_ms * n + delay_ms * length after
    → Reaps
        (sent_from (w + delay_ms * n))
        (max (w + delay_ms * n) wait_limit_ms)
        (reap_loop (replicate n quiet ++ (stop ∷ after)) last (waiting b w s))
unfolding reap_loop
quiet-Reaps last s b zero k w after a e h =
    let z : w + delay_ms * 0 ≡ w = omega arith in
    rw z (
      termed-Reaps last s b (stop ∷ after) k w ((w, sigterm) ∷ []) (refl, a) e (omega arith)
        (omega (arith, h)))
quiet-Reaps last s b (suc n) k w after a e h =
    let z : w + delay_ms * suc n ≡ w + delay_ms + delay_ms * n = omega arith in
    rw z
      (quiet-Reaps last s b n (k + 1) (w + delay_ms) after a (omega (arith, e)) (omega (arith, h)))

-- A child that is not aborted yet and never collected, with the abort signal first found after n
-- rounds, is sent SIGTERM at 20 n ms and SIGKILL at 500 ms or in the same round, whichever is
-- later, and no other signal; the loop ends at 1500 ms or in that round, with the child taken as
-- reaped, if that many rounds are given.
pub reap_loop-escalates :
    (last : Option WaitStatus) (s : WaitStatus) (h : Handle) (n : ℕ) (after : List Round)
    → h.aborted ≡ false
    → AllRunning after
    → wait_limit_ms ≤ delay_ms * n + delay_ms * length after
    → Reaps
        (sent_from (delay_ms * n))
        (max (delay_ms * n) wait_limit_ms)
        (reap_loop (replicate n quiet ++ (stop ∷ after)) last (starting h s))
reap_loop-escalates last s h n after fresh a l =
    let z : 0 + delay_ms * n ≡ delay_ms * n = omega arith in
    rw fresh (rw z at (quiet-Reaps last s h.reaped n 0 0 after a (omega arith) (omega (arith, l))))
