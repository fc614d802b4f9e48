-- ===== src/Process/Finish/Ends.antt =====
-- `psi_process_finish` comes to an end once it is told to stop, and hands over what was kept.
use psi_code.Prelude.{
  ◌+◌, ◌*◌, ◌≤◌, ◌≡◌, refl, ap, ◌∙◌, Bool, true, false, not, ◌&&◌, ◌⊎◌, Option, some, List, [], ◌∷◌,
  ◌++◌, Bytes, length, take, ltb, leb, if◌then◌else◌, Bool-cases, inl, inr, arith, ok, ◌>>=◌,
}
use psi_code.Process.Poll.{output_max, Handle}
use psi_code.Process.Poll.Kept.{IsKept}
use psi_code.Process.Finish.{
  escalate_ms, wait_limit_ms, delay_ms, WaitStatus, Waited, running, collected, gone, Round,
  Reaping, starting, abort_on, escalate, collect_last, slept, reap_loop, Finished, handed_over,
  finished, finish,
}

if_either {ℓ} :
    {A : Type ℓ} (P : A → Type 0) (b : Bool) (x y : A)
    → (b ≡ true → P x)
    → (b ≡ false → P y)
    → P (if b then x else y)
if_either P true x y h k = h refl
if_either P false x y h k = k refl

told : (a s : Bool) → s ≡ true → (not a && s) ≡ false → a ≡ true
told true s h k = refl
told false true h k = absurd (cc k)
told false false h k = absurd (cc h)

both : (a : Bool) {b : Bool} → a ≡ true → b ≡ true → (a && b) ≡ true
both true h k = k
both false h k = absurd (cc h)

-- What a round does but for the signals that it sends.
round_time : (signal : Bool) (c : Reaping) → (escalate (abort_on signal c)).waited_ms ≡ c.waited_ms
round_time signal c =
    let d = abort_on signal c in
    if_either (λ e. e.waited_ms ≡ c.waited_ms)
      (d.aborted && not d.sigkilled && leb escalate_ms d.waited_ms) _ d (λ h. abort_time)
      (λ h. abort_time)
  where
    abort_time : (abort_on signal c).waited_ms ≡ c.waited_ms
    abort_time =
        if_either (λ e. e.waited_ms ≡ c.waited_ms) (not c.aborted && signal) _ c (λ h. refl)
          (λ h. refl)

round_aborted :
    (signal : Bool) (c : Reaping)
    → (c.aborted ≡ true → (escalate (abort_on signal c)).aborted ≡ true)
      × (signal ≡ true → (escalate (abort_on signal c)).aborted ≡ true)
round_aborted signal c =
    let d = abort_on signal c in
    let after : d.aborted ≡ true → (escalate d).aborted ≡ true = λ h.
      if_either (λ e. e.aborted ≡ true)
        (d.aborted && not d.sigkilled && leb escalate_ms d.waited_ms) _ d (λ g. h) (λ g. h) in
    (
      λ h.
          after
            (if_either (λ e. e.aborted ≡ true) (not c.aborted && signal) _ c (λ g. refl) (λ g. h)),
      λ h. after (
          if_either (λ e. e.aborted ≡ true) (not c.aborted && signal) _ c (λ g. refl)
            (λ g. told c.aborted signal h g)),
    )

-- The loop has an end.
abbrev Ends : Option Reaping → Type 0
Ends o = (c : Reaping) × (o ≡ some c)

Waited-cases : (w : Waited) → ((s : WaitStatus) × (w ≡ collected s)) ⊎ ((w ≡ gone) ⊎ (w ≡ running))
Waited-cases (collected s) = inl (s, refl)
Waited-cases gone = inr (inl refl)
Waited-cases running = inr (inr refl)

-- A round that finds the child has an end; another one goes on.
round-Ends :
    (r : Round) (rs : List Round) (last : Option WaitStatus) (c : Reaping)
    → ((escalate (abort_on r.signal c)).aborted
          && leb wait_limit_ms (escalate (abort_on r.signal c)).waited_ms)
        ≡ true
      ⊎ Ends (reap_loop rs last (slept (escalate (abort_on r.signal c))))
    → Ends (reap_loop (r ∷ rs) last c)
unfolding reap_loop
round-Ends r rs last c h = elim (Waited-cases r.waited) [
  | inl (s, e) ↦ rw e (_, refl)
  | inr (inl e) ↦ rw e (_, refl)
  | inr (inr e) ↦ rw e (go h)
]
  where
    go :
        ((escalate (abort_on r.signal c)).aborted
              && leb wait_limit_ms (escalate (abort_on r.signal c)).waited_ms)
            ≡ true
          ⊎ Ends (reap_loop rs last (slept (escalate (abort_on r.signal c))))
        → Ends (
            if (escalate (abort_on r.signal c)).aborted
              && leb wait_limit_ms (escalate (abort_on r.signal c)).waited_ms
            then some (collect_last last (escalate (abort_on r.signal c)))
            else reap_loop rs last (slept (escalate (abort_on r.signal c))))
    go (inl e) = rw e (_, refl)
    go (inr (d, e)) =
        if_either Ends
          ((escalate (abort_on r.signal c)).aborted
            && leb wait_limit_ms (escalate (abort_on r.signal c)).waited_ms)
          _ _ (λ h. (_, refl)) (λ h. (d, e))

aborted-Ends :
    (rs : List Round) (last : Option WaitStatus) (c : Reaping)
    → c.aborted ≡ true
    → 1 ≤ length rs
    → wait_limit_ms + delay_ms ≤ c.waited_ms + delay_ms * length rs
    → Ends (reap_loop rs last c)
aborted-Ends [] last c a l n = absurd (omega (arith, l))
aborted-Ends (r ∷ rs) last c a l n =
    let d = escalate (abort_on r.signal c) in
    let t = round_time r.signal c in
    let (kept, told) = round_aborted r.signal c in
    round-Ends r rs last c (elim (Bool-cases (leb wait_limit_ms d.waited_ms)) [
      | inl over ↦ inl (both d.aborted (kept a) over)
      | inr more ↦
          inr (aborted-Ends rs last (slept d) (kept a) (ground (arith, n, t)) (omega (arith, n, t)))
    ])

told-Ends :
    (before : List Round) (r : Round) (after : List Round) (last : Option WaitStatus) (c : Reaping)
    → r.signal ≡ true
    → wait_limit_ms ≤ c.waited_ms + delay_ms * length before + delay_ms * length after
    → Ends (reap_loop (before ++ (r ∷ after)) last c)
told-Ends [] r after last c h n =
    let d = escalate (abort_on r.signal c) in
    let t = round_time r.signal c in
    let (kept, told) = round_aborted r.signal c in
    round-Ends r after last c (elim (Bool-cases (leb wait_limit_ms d.waited_ms)) [
      | inl over ↦ inl (both d.aborted (told h) over)
      | inr more ↦
          inr (
            aborted-Ends after last (slept d) (told h) (ground (arith, n, t)) (omega (arith, n, t)))
    ])
told-Ends (b ∷ before) r after last c h n =
    let d = escalate (abort_on b.signal c) in
    let t = round_time b.signal c in
    round-Ends b (before ++ (r ∷ after)) last c
      (inr (told-Ends before r after last (slept d) h (omega (arith, n, t))))

-- The output that was kept, for a child that is done with.
pub record Gives (seen : Bytes) (f : Finished) : Type 0 where
  pub status : f.status ≡ ok
  pub output : f.output ≡ some (take output_max seen)
  pub truncated : f.truncated ≡ ltb output_max (length seen)

handed : (text : Bytes) → handed_over true text ≡ some text
handed [] = refl
handed (c ∷ cs) = refl

finished-Gives :
    (seen : Bytes) (h : Handle) (c : Reaping) → IsKept seen h → Gives seen (finished true h c)
finished-Gives seen h c k = record {
  status = rw (handed h.output.text) refl;
  output = handed h.output.text ∙ ap some k.text;
  truncated = k.marked;
}

-- When the abort signal is found set in some round and the rounds in front of it and behind it
-- make up 1500 ms, psi_process_finish returns whatever waitpid answers; for a handle that keeps
-- what was read of a child, with every allocation granted, it hands over the first 262144 bytes
-- and says whether there were more.
pub finish-Gives :
    (before : List Round) (r : Round) (after : List Round) (last : Option WaitStatus)
    (status : WaitStatus) (seen : Bytes) (h : Handle)
    → IsKept seen h
    → r.signal ≡ true
    → wait_limit_ms ≤ delay_ms * length before + delay_ms * length after
    → (f : Finished) × (finish (before ++ (r ∷ after)) last status true h ≡ some f) × Gives seen f
unfolding finish
finish-Gives before r after last status seen h k stopped n =
    collected_or h.reaped (starting h status)
      (reap_loop (before ++ (r ∷ after)) last (starting h status))
      (told-Ends before r after last (starting h status) stopped (omega (arith, n)))
  where
    collected_or :
        (b : Bool) (x : Reaping) (o : Option Reaping)
        → Ends o
        → (f : Finished) × ((do d ← if b then some x else o; some (finished true h d)) ≡ some f)
          × Gives seen f
    collected_or true x o e = (_, refl, finished-Gives seen h x k)
    collected_or false x o (c, e) = (
      finished true h c,
      ap (λ o. o >>= (λ d. some (finished true h d))) e,
      finished-Gives seen h c k,
    )
