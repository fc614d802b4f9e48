-- ===== src/Process/Poll/Steps.antt =====
-- What one poll hands out and keeps, and when it returns.
use psi_code.Prelude.{
  ℕ, ◌+◌, ◌-◌, ◌*◌, ◌≤◌, ◌≡◌, refl, ap, sym, ◌∙◌, Bool, true, false, not, ◌&&◌, ◌||◌, Option, none,
  some, List, [], ◌∷◌, ◌++◌, append_assoc, append-nil, arith, Bytes, length, length-append, min,
  ◌==◌, ltb, leb, if◌then◌else◌, Bool-cases, inl, inr,
}
use psi_code.Process.Poll.{
  read_chunk, drain_max, Event, got, end, again, failed, Handle, stash, error, idle, chunk, done,
  Polled, Outcome, returns, drain, abort_if, try_reap, seen_eof, after_again, poll_loop, poll,
}
use psi_code.Process.Poll.Kept.{IsKept, stash-IsKept}

-- The bytes that the reads of a script give, in their order.
abbrev pub reads : List Event → Bytes
reads [] = []
reads (got b bs ∷ rest) = b ∷ (bs ++ reads rest)
reads (e ∷ rest) = reads rest

-- The answers that were used up, one at least: they have no bytes, and `rest` is behind them.
pub record NothingRead (script rest : List Event) : Type 0 where
  pub used : List Event
  pub some_used : 1 ≤ length used
  pub no_bytes : reads used ≡ []
  pub whole : script ≡ used ++ rest

-- `all` are the bytes that the script gives from here on. A chunk is what has been read of them, and
-- it is kept as well; the other results have read nothing. A poll that fails promises nothing.
abbrev pub After : Bytes → List Event → Bytes → Polled → Type 0
After seen script all p = elim p.outcome [
  | error ↦ Unit {0}
  | idle ↦ IsKept seen p.handle × NothingRead script p.rest
  | done ↦ IsKept seen p.handle × NothingRead script p.rest
  | chunk c ↦ IsKept (seen ++ c) p.handle × (1 ≤ length c) × (c ++ reads p.rest ≡ all)
]

-- A script that ends too early says nothing.
abbrev pub AfterAll : Bytes → List Event → Bytes → Option Polled → Type 0
AfterAll seen script all none = Unit {0}
AfterAll seen script all (some p) = After seen script all p

drain-After :
    (script from : List Event) (seen drained bytes : Bytes) (h : Handle)
    → 1 ≤ length bytes
    → IsKept (seen ++ drained) h
    → AfterAll seen from ((drained ++ bytes) ++ reads script) (drain script drained bytes h)
unfolding drain
drain-After [] from seen drained bytes h n k =
    let some_byte : 1 ≤ length (drained ++ bytes) = omega (arith, n, length-append drained bytes) in
    let next =
      rw (append_assoc seen drained bytes) at (stash-IsKept (seen ++ drained) bytes h k n) in
    elim (Bool-cases (ltb read_chunk (length bytes))) [
      | inl large ↦ rw large tt
      | inr fits ↦ elim (Bool-cases (leb drain_max (length (drained ++ bytes)))) [
        | inl full ↦ rw (fits, full) (next, some_byte, refl)
        | inr more ↦ rw (fits, more) tt
      ]
    ]
drain-After (got b bs ∷ rest) from seen drained bytes h n k =
    let some_byte : 1 ≤ length (drained ++ bytes) = omega (arith, n, length-append drained bytes) in
    let next =
      rw (append_assoc seen drained bytes) at (stash-IsKept (seen ++ drained) bytes h k n) in
    elim (Bool-cases (ltb read_chunk (length bytes))) [
      | inl large ↦ rw large tt
      | inr fits ↦ elim (Bool-cases (leb drain_max (length (drained ++ bytes)))) [
        | inl full ↦ rw (fits, full) (next, some_byte, refl)
        | inr more ↦
            rw (fits, more)
              (rw (append_assoc (drained ++ bytes) (b ∷ bs) (reads rest)) at (
                drain-After rest from seen (drained ++ bytes) (b ∷ bs) (stash bytes h) (omega arith)
                  next))
      ]
    ]
drain-After (e ∷ rest) from seen drained bytes h n k =
    let some_byte : 1 ≤ length (drained ++ bytes) = omega (arith, n, length-append drained bytes) in
    let next =
      rw (append_assoc seen drained bytes) at (stash-IsKept (seen ++ drained) bytes h k n) in
    elim (Bool-cases (ltb read_chunk (length bytes))) [
      | inl large ↦ rw large tt
      | inr fits ↦ elim (Bool-cases (leb drain_max (length (drained ++ bytes)))) [
        | inl full ↦ rw (fits, full) (next, some_byte, refl)
        | inr more ↦ rw (fits, more) (next, some_byte, refl)
      ]
    ]

abort_if-IsKept :
    (seen : Bytes) (signal : Bool) (h : Handle) → IsKept seen h → IsKept seen (abort_if signal h)
unfolding abort_if
abort_if-IsKept seen signal h k = elim (Bool-cases (signal && not h.aborted)) [
  | inl now ↦
      rw (now, abort_if)
        (record { text = k.text; marked = k.marked; grants = k.grants; sized = k.sized })
  | inr never ↦ rw (never, abort_if) k
]

try_reap-IsKept :
    (seen : Bytes) (c : Bool) (h : Handle) → IsKept seen h → IsKept seen (try_reap c h)
try_reap-IsKept seen c h k = record {
  text = k.text;
  marked = k.marked;
  grants = k.grants;
  sized = k.sized;
}

seen_eof-IsKept : (seen : Bytes) (h : Handle) → IsKept seen h → IsKept seen (seen_eof h)
seen_eof-IsKept seen h k = record {
  text = k.text;
  marked = k.marked;
  grants = k.grants;
  sized = k.sized;
}

if-AfterAll :
    (seen : Bytes) (script : List Event) (all : Bytes) (b : Bool) (x y : Option Polled)
    → AfterAll seen script all x
    → AfterAll seen script all y
    → AfterAll seen script all (if b then x else y)
if-AfterAll seen script all true x y h k = h
if-AfterAll seen script all false x y h k = k

one_used : (e : Event) (rest : List Event) → reads (e ∷ []) ≡ [] → NothingRead (e ∷ rest) rest
one_used e rest n = record { used = e ∷ []; some_used = omega arith; no_bytes = n; whole = refl }

one_more :
    (c signal : Bool) (script rest : List Event)
    → NothingRead script rest
    → NothingRead (again c signal ∷ script) rest
one_more c signal script rest n = record {
  used = again c signal ∷ n.used;
  some_used = omega arith;
  no_bytes = n.no_bytes;
  whole = ap (λ s. again c signal ∷ s) n.whole;
}

-- One more answer without bytes in front.
waited-After :
    (o : Outcome) (h : Handle) (r : List Event) (seen : Bytes) (c signal : Bool) (rest : List Event)
    (all : Bytes)
    → After seen rest all (returns o h r)
    → After seen (again c signal ∷ rest) all (returns o h r)
waited-After error h r seen c signal rest all a = tt
waited-After idle h r seen c signal rest all (k, n) = (k, one_more c signal rest r n)
waited-After done h r seen c signal rest all (k, n) = (k, one_more c signal rest r n)
waited-After (chunk b) h r seen c signal rest all a = a

waited-AfterAll :
    (p : Option Polled) (seen : Bytes) (c signal : Bool) (rest : List Event) (all : Bytes)
    → AfterAll seen rest all p
    → AfterAll seen (again c signal ∷ rest) all p
waited-AfterAll none seen c signal rest all a = tt
waited-AfterAll (some p) seen c signal rest all a =
    waited-After p.outcome p.handle p.rest seen c signal rest all a

after_again-After :
    (r : Handle) (left : ℕ) (c signal : Bool) (rest : List Event) (seen : Bytes)
    (waited : Option Polled)
    → IsKept seen r
    → AfterAll seen rest (reads rest) waited
    → AfterAll seen (again c signal ∷ rest) (reads rest) (after_again r left rest waited)
unfolding after_again
after_again-After r left c signal rest seen waited k w =
    let from = again c signal ∷ rest in
    let idle_now = some (returns idle r rest) in
    let used = one_used (again c signal) rest refl in
    if-AfterAll seen from (reads rest) (r.reaped || r.aborted)
      (some (returns done (seen_eof r) rest)) (if left == 0 then idle_now else waited)
      (seen_eof-IsKept seen r k, used)
      (if-AfterAll seen from (reads rest) (left == 0) idle_now waited (k, used)
        (waited-AfterAll waited seen c signal rest (reads rest) w))

poll_loop-After :
    (script : List Event) (granted : Bool) (left : ℕ) (seen : Bytes) (h : Handle)
    → IsKept seen h
    → AfterAll seen script (reads script) (poll_loop script granted left h)
unfolding poll_loop
poll_loop-After [] granted left seen h k = tt
poll_loop-After (got b bs ∷ rest) true left seen h k =
    drain-After rest (got b bs ∷ rest) seen [] (b ∷ bs) h (omega arith) (rw (append-nil seen) k)
poll_loop-After (got b bs ∷ rest) false left seen h k = tt
poll_loop-After (end ∷ rest) granted left seen h k =
    (seen_eof-IsKept seen h k, one_used end rest refl)
poll_loop-After (failed ∷ rest) granted left seen h k =
    (seen_eof-IsKept seen h k, one_used failed rest refl)
poll_loop-After (again c signal ∷ rest) granted left seen h k =
    let r = try_reap c h in
    let kept = try_reap-IsKept seen c h k in
    after_again-After r left c signal rest seen
      (poll_loop rest granted (left - min 20 left) (abort_if signal r)) kept
      (poll_loop-After rest granted (left - min 20 left) seen (abort_if signal r)
        (abort_if-IsKept seen signal r kept))

-- With an allocator that never refuses the buffer, a poll that returns a chunk hands out the
-- bytes of all the reads that it used up, one at least, in their order and with none left out,
-- and one that returns idle or done has used up an answer at least and no read with bytes; in
-- each case the handle keeps the first 256 KiB of all that was read for it and is marked as
-- truncated exactly when more was read. A poll that returns the error, and a script that ends in
-- front of a read, are left out.
pub poll-After :
    (script : List Event) (granted signal : Bool) (timeout_ms : ℕ) (seen : Bytes) (h : Handle)
    → IsKept seen h
    → AfterAll seen script (reads script) (poll script granted signal timeout_ms h)
unfolding poll
poll-After script granted signal timeout_ms seen h k =
    poll_loop-After script granted timeout_ms seen (abort_if signal h)
      (abort_if-IsKept seen signal h k)

if-returns :
    (b : Bool) (x y : Option Polled)
    → (p : Polled) × (x ≡ some p)
    → (b ≡ false → (p : Polled) × (y ≡ some p))
    → (p : Polled) × ((if b then x else y) ≡ some p)
if-returns true x y h k = h
if-returns false x y h k = k refl

after_again-returns :
    (r : Handle) (left : ℕ) (rest : List Event) (waited : Option Polled)
    → (1 ≤ left → (p : Polled) × (waited ≡ some p))
    → (p : Polled) × (after_again r left rest waited ≡ some p)
unfolding after_again
after_again-returns r left rest waited w =
    let done_now = returns done (seen_eof r) rest in
    let idle_now = returns idle r rest in
    if-returns (r.reaped || r.aborted) (some done_now) (if left == 0 then some idle_now else waited)
      (done_now, refl)
      λ running.
        if-returns (left == 0) (some idle_now) waited (idle_now, refl) λ more. w (ground arith)

-- A drain ends at 64 KiB, and each read gives a byte at least.
drain-returns :
    (script : List Event) (drained bytes : Bytes) (h : Handle)
    → drain_max ≤ length (drained ++ bytes) + length script
    → (p : Polled) × (drain script drained bytes h ≡ some p)
unfolding drain
drain-returns [] drained bytes h n =
    let full : leb drain_max (length (drained ++ bytes)) ≡ true = ground (arith, n) in
    if-returns (ltb read_chunk (length bytes)) (some _) _ (_, refl)
      λ fits.
        if-returns (leb drain_max (length (drained ++ bytes))) (some _) none (_, refl)
          λ more. absurd (cc (sym full ∙ more))
drain-returns (got b bs ∷ rest) drained bytes h n =
    if-returns (ltb read_chunk (length bytes)) (some _) _ (_, refl)
      λ fits.
        if-returns (leb drain_max (length (drained ++ bytes))) (some _) _ (_, refl)
          λ more.
            drain-returns rest (drained ++ bytes) (b ∷ bs) (stash bytes h)
              (omega (arith, n, length-append (drained ++ bytes) (b ∷ bs)))
drain-returns (e ∷ rest) drained bytes h n =
    if-returns (ltb read_chunk (length bytes)) (some _) _ (_, refl)
      λ fits.
        if-returns (leb drain_max (length (drained ++ bytes))) (some _) (some _) (_, refl)
          λ more. (_, refl)

poll_loop-returns :
    (script : List Event) (granted : Bool) (left : ℕ) (h : Handle)
    → left + 20 * drain_max ≤ 20 * length script
    → (p : Polled) × (poll_loop script granted left h ≡ some p)
unfolding poll_loop
poll_loop-returns [] granted left h n = absurd (omega arith)
poll_loop-returns (got b bs ∷ rest) true left h n =
    drain-returns rest [] (b ∷ bs) h (omega (arith, n))
poll_loop-returns (got b bs ∷ rest) false left h n = (_, refl)
poll_loop-returns (end ∷ rest) granted left h n = (_, refl)
poll_loop-returns (failed ∷ rest) granted left h n = (_, refl)
poll_loop-returns (again c signal ∷ rest) granted left h n =
    let r = try_reap c h in
    after_again-returns r left rest
      (poll_loop rest granted (left - min 20 left) (abort_if signal r))
      λ more. poll_loop-returns rest granted (left - min 20 left) (abort_if signal r) (omega arith)

-- A poll returns, whatever the answers are, when the script has 65536 of them and one more for
-- each 20 ms of its timeout that are begun.
pub poll-returns :
    (script : List Event) (granted signal : Bool) (timeout_ms : ℕ) (h : Handle)
    → timeout_ms + 20 * drain_max ≤ 20 * length script
    → (p : Polled) × (poll script granted signal timeout_ms h ≡ some p)
unfolding poll
poll-returns script granted signal timeout_ms h n =
    poll_loop-returns script granted timeout_ms (abort_if signal h) n
