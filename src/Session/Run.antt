-- ===== src/Session/Run.antt =====
-- The session as a log: what any sequence of calls makes of an empty session.
use psi_code.Prelude.{
  Option-cases, if◌then◌else◌, ltb, length-take, zero, ℕ, suc, ◌/◌, ◌≤◌, ◌≡◌, ◌≢◌, refl, ap, ◌∙◌,
  inl, inr, Bool, true, false, Option, none, some, List, [], ◌∷◌, ◌++◌, arith, Bool-cases, Bytes,
  Status, ok, error, ◌==◌, leb, drop, take, map, ◌-◌,
}
use psi_code.Message
use psi_code.Message.{
  Role, Message, Grants, user, assistant, tool_call, tool_result, custom, branch_summary,
  compaction_summary,
}
use psi_code.Session.{
  Session, empty, grow, lost, place, place_grown, append_with_data_and_estimate, set_id, set_path,
  set_parent_id, clear, max_messages, Op, append_op, clear_op, id_op, path_op, parent_op, step, run,
  view, messages, messages_from,
}
use psi_code.Session.Estimate.{drop-nil}
use psi_code.Session.Invariant.{IsValid, contents, requested, Appended, append-Appended}

-- What an operation does to the log, by the status that it returned.
unfoldable pub logged : Op → Status → List Message → List Message
logged (append_op g role text json estimate) ok ms = ms ++ (requested role text json estimate ∷ [])
logged clear_op ok ms = []
logged _ _ ms = ms

unfoldable pub log : List Op → List Status → List Message → List Message
unfolding logged
log (op ∷ ops) (st ∷ sts) ms = log ops sts (logged op st ms)
log _ _ ms = ms

pub empty-IsValid : IsValid empty
empty-IsValid = omega arith

Appended-logged :
    (g : Grants) (role : Role) (text json : Option Bytes) (estimate : ℕ) (s : Session)
    (r : Status × Session)
    → Appended s (requested role text json estimate) r
    → IsValid r.1 × (contents r.1 ≡ logged (append_op g role text json estimate) r.0 (contents s))
unfolding logged
Appended-logged g role text json estimate s (ok, s') (v, c, _) = (v, c)
Appended-logged g role text json estimate s (error, s') (v, c, _) = (v, c)

step_refines :
    (op : Op) (s : Session)
    → IsValid s
    → IsValid (step op s).1 × (contents (step op s).1 ≡ logged op (step op s).0 (contents s))
unfolding step
step_refines (append_op g role text json estimate) s v =
    Appended-logged g role text json estimate s _ (append-Appended g s role text json estimate v)
step_refines clear_op s v = unfold clear logged in (omega arith, refl)
step_refines (id_op granted value) s v =
    unfold set_id logged in
    (record { count_in = v.count_in; small = v.small; stored = v.stored; sums = v.sums }, refl)
step_refines (path_op granted value) s v =
    unfold set_path logged in
    (record { count_in = v.count_in; small = v.small; stored = v.stored; sums = v.sums }, refl)
step_refines (parent_op granted value) s v =
    unfold set_parent_id logged in
    (record { count_in = v.count_in; small = v.small; stored = v.stored; sums = v.sums }, refl)

-- Whatever is called on a valid session and whatever the allocations answer, the session stays
-- valid, and its messages are those of the log that takes in each append that returned ok, drops
-- all at each clear, and is left alone by every call that failed.
pub run_refines :
    (ops : List Op) (s : Session)
    → IsValid s
    → IsValid (run ops s).1 × (contents (run ops s).1 ≡ log ops (run ops s).0 (contents s))
unfolding run log
run_refines [] s v = (v, refl)
run_refines (op ∷ ops) s v =
    let (v', c) = step_refines op s v in
    let (v'', c') = run_refines ops (step op s).1 v' in
    (v'', c' ∙ ap (log ops (run ops (step op s).1).0) c)

copy-granted :
    (granted : Bool) (t : Option Bytes) → granted ≡ true → lost t (Message.copy granted t) ≡ false
unfolding Message.copy
copy-granted granted none h = refl
copy-granted true (some t) h = refl
copy-granted false (some t) h = cc

place-ok :
    (g : Grants) (s : Session) (role : Role) (text json : Option Bytes) (estimate : ℕ)
    → g.text ≡ true
    → g.json ≡ true
    → (place g s role text json estimate).0 ≡ ok
unfolding place Message.init_with_data_and_estimate
place-ok g s role text json estimate a b =
    rw (copy-granted g.text text a, copy-granted g.json json b)

grow-ne-none :
    (g : Grants) (s : Session)
    → g.messages ≡ true
    → g.prefix ≡ true
    → s.capacity ≤ max_messages / 2
    → grow g s ≢ none
unfolding grow
grow-ne-none g s a b small e = ground arith

grow-some :
    (g : Grants) (s : Session)
    → g.messages ≡ true
    → g.prefix ≡ true
    → s.capacity ≤ max_messages / 2
    → (s' : Session) × (grow g s ≡ some s')
grow-some g s a b small = elim (Option-cases (grow g s)) [
  | inl e ↦ absurd (grow-ne-none g s a b small e)
  | inr found ↦ found
]

-- With the allocations granted, an append to a valid session returns ok as long as the capacity is
-- at most half of the largest number of messages.
pub append-ok :
    (g : Grants) (s : Session) (role : Role) (text json : Option Bytes) (estimate : ℕ)
    → IsValid s
    → (g.messages ≡ true) × (g.prefix ≡ true) × (g.text ≡ true) × (g.json ≡ true)
    → s.capacity ≤ max_messages / 2
    → (append_with_data_and_estimate g s role text json estimate).0 ≡ ok
unfolding append_with_data_and_estimate
append-ok g s role text json estimate v all small = elim (Bool-cases (s.count == s.capacity)) [
  | inr room ↦ rw room (place-ok g s role text json estimate all.2 all.3)
  | inl full ↦
      let (s', grown) = grow-some g s all.0 all.1 small in
      rw (full, grown) (unfold place_grown in place-ok g s' role text json estimate all.2 all.3)
]

drop-map {ℓ κ} :
    {A : Type ℓ} {B : Type κ} (f : A → B) (i : ℕ) (xs : List A)
    → drop i (map f xs) ≡ map f (drop i xs)
drop-map f zero xs = refl
drop-map f (suc i) [] = refl
drop-map f (suc i) (x ∷ xs) = drop-map f i xs

from_start : (start : ℕ) → (if ltb start 1 then 1 else start) - 1 ≡ start - 1
from_start start = ground arith

-- Lua's view from a message on is the tail of its view of the whole session.
messages_from-drop :
    (s : Session) (start : ℕ) → messages_from (some s) start ≡ drop (start - 1) (messages (some s))
unfolding messages_from messages
messages_from-drop s start =
    let ms = take s.count s.messages in
    rw (from_start start, drop-map view (start - 1) ms)
      elim (Bool-cases (leb s.count (start - 1))) [
        | inl past ↦
            rw (past, drop-nil (start - 1) ms (ground (arith, length-take s.count s.messages)))
        | inr inside ↦ rw inside
      ]

role_from_name-role_name : (r : Role) → Message.role_from_name (some (Message.role_name r)) ≡ r
unfolding Message.role_from_name Message.role_name
role_from_name-role_name user = refl
role_from_name-role_name assistant = refl
role_from_name-role_name tool_call = refl
role_from_name-role_name tool_result = refl
role_from_name-role_name custom = refl
role_from_name-role_name branch_summary = refl
role_from_name-role_name compaction_summary = refl
