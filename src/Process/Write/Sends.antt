-- ===== src/Process/Write/Sends.antt =====
-- What the two writes to a child send.
use psi_code.Prelude.{
  Bool, ℕ, suc, ◌+◌, ◌<◌, ◌≡◌, refl, ap, ◌∙◌, true, false, ◌⊎◌, inl, inr, Option, none, some, List,
  [], ◌∷◌, ◌++◌, append-nil, append_assoc, take-append-drop, length-drop, Bytes, length, take, drop,
  Bool-cases, arith, Status, ok, error,
}
use psi_code.Process.Poll.{Handle}
use psi_code.Process.Write.{
  Answer, wrote, interrupted, full, failed, Attempt, Written, written, stops, write_loop,
  process_write, try_write,
}

-- The bytes that a script takes at most.
abbrev taken : Answer → ℕ
taken (wrote n) = suc n
taken a = 0

abbrev pub room_in : List Attempt → ℕ
room_in [] = 0
room_in (a ∷ rest) = taken a.answer + room_in rest

-- The bytes in their order, all of them where the call succeeds; a call that has not returned has met
-- too few answers.
abbrev pub Sends : List Attempt → Bytes → Bytes → Option Written → Type 0
Sends script sent bytes none = room_in script < length bytes
Sends script sent bytes (some w) =
    (w.sent ++ w.left ≡ sent ++ bytes) × (w.status ≡ ok → w.left ≡ [])

error-ne-ok : {A : Type 0} → ◌≡◌ {A = Status} error ok → A
error-ne-ok h = absurd (cc h)

Answer-cases :
    (a : Answer) → ((n : ℕ) × (a ≡ wrote n)) ⊎ ((a ≡ interrupted) ⊎ ((a ≡ full) ⊎ (a ≡ failed)))
Answer-cases (wrote n) = inl (n, refl)
Answer-cases interrupted = inr (inl refl)
Answer-cases full = inr (inr (inl refl))
Answer-cases failed = inr (inr (inr refl))

-- An answer that takes nothing.
passed :
    (r s : List Attempt) (sent bytes : Bytes) (o : Option Written)
    → room_in s ≡ room_in r
    → Sends r sent bytes o
    → Sends s sent bytes o
passed r s sent bytes none e h = omega (arith, e, h)
passed r s sent bytes (some w) e h = h

-- An answer that takes some bytes.
moved :
    (n : ℕ) (r s : List Attempt) (sent bytes : Bytes) (o : Option Written)
    → room_in s ≡ n + room_in r
    → Sends r (sent ++ take n bytes) (drop n bytes) o
    → Sends s sent bytes o
moved n r s sent bytes none e h = omega (arith, e, h, length-drop n bytes)
moved n r s sent bytes (some w) e (same, all) = (
  same
      ∙ append_assoc sent (take n bytes) (drop n bytes)
      ∙ ap (λ l. sent ++ l) (take-append-drop n bytes),
  all,
)

plain : (n : ℕ) → 0 + n ≡ n
plain n = omega arith

write_loop-Sends :
    (script : List Attempt) (sent bytes : Bytes) (h : Handle)
    → Sends script sent bytes (write_loop script sent bytes h)
unfolding write_loop
write_loop-Sends [] sent [] h = (refl, λ e. refl)
write_loop-Sends (a ∷ rest) sent [] h = (refl, λ e. refl)
write_loop-Sends [] sent (b ∷ bs) h = omega arith
write_loop-Sends (a ∷ rest) sent (b ∷ bs) h = elim (Bool-cases (stops a.signal h)) [
  | inl s ↦ rw s (refl, error-ne-ok)
  | inr s ↦ elim (Answer-cases a.answer) [
    | inl (n, e) ↦
        simp (s, e)
          (moved (suc n) rest (a ∷ rest) sent (b ∷ bs) _ (ap (λ x. taken x + room_in rest) e)
            (write_loop-Sends rest (sent ++ take (suc n) (b ∷ bs)) (drop (suc n) (b ∷ bs)) h))
    | inr (inl e) ↦
        simp (s, e)
          (passed rest (a ∷ rest) sent (b ∷ bs) _
            (ap (λ x. taken x + room_in rest) e ∙ plain (room_in rest))
            (write_loop-Sends rest sent (b ∷ bs) h))
    | inr (inr (inl e)) ↦
        simp (s, e)
          (passed rest (a ∷ rest) sent (b ∷ bs) _
            (ap (λ x. taken x + room_in rest) e ∙ plain (room_in rest))
            (write_loop-Sends rest sent (b ∷ bs) h))
    | inr (inr (inr e)) ↦ rw (s, e) (refl, error-ne-ok)
  ]
]

-- Whatever write answers and whenever the abort signal is found, psi_process_write on an open
-- stdin sends the bytes in their order with none left out or sent twice, and all of them when it
-- succeeds; it has not returned only while the answers have room for fewer bytes than it was
-- given.
pub process_write-Sends :
    (script : List Attempt) (bytes : Bytes) (h : Handle)
    → Sends script [] bytes (process_write true script bytes h)
unfolding process_write
process_write-Sends script bytes h = write_loop-Sends script [] bytes h

-- A caller of `psi_process_try_write` that tries again with what is left, up to an error.
abbrev and_again : Bytes → Written → (Bytes → Bytes → Handle → Option Written) → Option Written
and_again sent w f = elim w.status [
  | error ↦ some (written error (sent ++ w.sent) w.left w.handle)
  | ok ↦ f (sent ++ w.sent) w.left w.handle
]

pub retry : List Attempt → Bytes → Bytes → Handle → Option Written
unfolding try_write
retry script sent [] h = some (written ok sent [] h)
retry [] sent (b ∷ bs) h = none
retry (a ∷ rest) sent (b ∷ bs) h =
    and_again sent (try_write true a (b ∷ bs) h) λ s l g. retry rest s l g

write_loop-retry :
    (script : List Attempt) (sent bytes : Bytes) (h : Handle)
    → write_loop script sent bytes h ≡ retry script sent bytes h
unfolding write_loop retry try_write
write_loop-retry [] sent [] h = refl
write_loop-retry (a ∷ rest) sent [] h = refl
write_loop-retry [] sent (b ∷ bs) h = refl
write_loop-retry (a ∷ rest) sent (b ∷ bs) h = elim (Bool-cases (stops a.signal h)) [
  | inl s ↦ simp (s, append-nil sent) refl
  | inr s ↦ elim (Answer-cases a.answer) [
    | inl (n, e) ↦
        simp (s, e)
          (write_loop-retry rest (sent ++ take (suc n) (b ∷ bs)) (drop (suc n) (b ∷ bs)) h)
    | inr (inl e) ↦ simp (s, e, append-nil sent) (write_loop-retry rest sent (b ∷ bs) h)
    | inr (inr (inl e)) ↦ simp (s, e, append-nil sent) (write_loop-retry rest sent (b ∷ bs) h)
    | inr (inr (inr e)) ↦ simp (s, e, append-nil sent) refl
  ]
]

-- On an open stdin psi_process_write is psi_process_try_write tried again with what is left until
-- nothing is or it fails: the same bytes, status and handle for the same answers.
pub process_write-retry :
    (script : List Attempt) (bytes : Bytes) (h : Handle)
    → process_write true script bytes h ≡ retry script [] bytes h
unfolding process_write
process_write-retry script bytes h = write_loop-retry script [] bytes h

-- No attempt sends a byte or fails.
abbrev pub AllHeldUp : List Attempt → Type 0
AllHeldUp [] = Unit
AllHeldUp (a ∷ rest) = ((a.answer ≡ full) ⊎ (a.answer ≡ interrupted)) × AllHeldUp rest

goes_on : (signal : Bool) (h : Handle) → h.aborted ≡ true → stops signal h ≡ false
goes_on true h a = rw a refl
goes_on false h a = refl

-- With bytes to send to a child that has been aborted before, psi_process_write does not return
-- as long as write answers EAGAIN or EINTR, whenever the abort signal is set.
pub process_write-stalls :
    (script : List Attempt) (b : ℕ) (bytes : Bytes) (h : Handle)
    → h.aborted ≡ true
    → AllHeldUp script
    → process_write true script (b ∷ bytes) h ≡ none
unfolding process_write write_loop
process_write-stalls [] b bytes h a e = refl
process_write-stalls (t ∷ rest) b bytes h a (inl e, es) =
    simp (goes_on t.signal h a, e) (process_write-stalls rest b bytes h a es)
process_write-stalls (t ∷ rest) b bytes h a (inr e, es) =
    simp (goes_on t.signal h a, e) (process_write-stalls rest b bytes h a es)
