-- ===== src/Session/Invariant.antt =====
-- The representation invariant of `struct psi_session`, and what an append does to the messages.
use psi_code.Prelude.{
  ◌||◌, lt-length-write, lt→ltb, ℕ, zero, suc, ◌+◌, ◌≤◌, ◌<◌, ◌≡◌, refl, ap, ◌∙◌, sym, inl, inr,
  Bool, true, false, Option, none, some, List, [], ◌∷◌, ◌++◌, arith, length, get_or, take, write,
  add_size, Bytes, Status, ok, error, take-write, take-write_self, take-take, length-take,
  get_or-take, Bool-cases, ◌==◌, Option-cases,
}
use psi_code.Message
use psi_code.Message.{Role, Message, Grants}
use native.Mathlib.Numerals.{add-one}
use psi_code.Session.{
  Session, carried, grow, lost, place, place_grown, append_with_data_and_estimate, max_messages,
}
use psi_code.Session.Prefix.{
  prefixes, estimates, estimates-append, prefixes-append, length-estimates,
}

-- The messages that the session stands for.
abbrev pub contents : Session → List Message
contents s = take s.count s.messages

-- What `token_prefix` knows: with a null pointer there is no capacity.
abbrev pub PrefixInv : Option (List ℕ) → List Message → ℕ → ℕ → Type 0
PrefixInv none ms count capacity = capacity ≡ 0
PrefixInv (some p) ms count capacity =
    (count < length p) × (take (suc count) p ≡ prefixes 0 (estimates (take count ms)))

pub record IsValid (s : Session) : Type 0 where
  pub count_in : s.count ≤ s.capacity
  pub small : s.capacity ≤ max_messages
  pub stored : s.count ≤ length s.messages
  pub sums : PrefixInv s.token_prefix s.messages s.count s.capacity

carried-some : (p : List ℕ) (k : ℕ) → carried (some p) (suc k) ≡ take (suc (suc k)) p
unfolding carried
carried-some p k = rw (lt→ltb 0 (suc k) (omega arith), add-one)

carried-PrefixInv :
    (tp : Option (List ℕ)) (ms : List Message) (count capacity n : ℕ)
    → PrefixInv tp ms count capacity
    → count ≤ capacity
    → PrefixInv (some (carried tp count)) (take count ms) count n
unfolding carried
carried-PrefixInv tp ms zero capacity n inv h = (omega arith, refl)
carried-PrefixInv none ms (suc k) capacity n inv h = absurd (omega arith)
carried-PrefixInv (some p) ms (suc k) capacity n (long, e) h = rw (carried-some p k) (
  omega (arith, length-take (suc (suc k)) p),
  take-take (suc (suc k)) p ∙ e ∙ ap (λ l. prefixes 0 (estimates l)) (sym (take-take (suc k) ms)),
)

-- The identity of a session: what no operation on its messages changes.
abbrev pub SameIdentity : Session → Session → Type 0
SameIdentity s s' = (s'.id ≡ s.id) × (s'.path ≡ s.path) × (s'.parent_id ≡ s.parent_id)

-- The block that grows the arrays keeps the messages and leaves room for one more.
grow-IsValid :
    (g : Grants) (s : Session) {s' : Session}
    → IsValid s
    → s.count ≡ s.capacity
    → grow g s ≡ some s'
    → IsValid s'
      × (s'.count ≡ s.count)
      × (s.count < s'.capacity)
      × (contents s' ≡ contents s)
      × SameIdentity s s'
unfolding grow
grow-IsValid g s v full e = ground (
  arith,
  carried-PrefixInv s.token_prefix s.messages s.count s.capacity 0 v.sums v.count_in,
  length-take s.count s.messages,
  take-take s.count s.messages,
)

-- What a placed message adds to the prefix sums.
placed-PrefixInv :
    (p : List ℕ) (ms : List Message) (m : Message) (count capacity : ℕ)
    → PrefixInv (some p) ms count capacity
    → count ≤ length ms
    → PrefixInv
        (some (write p (suc count) (add_size (get_or p count 0) m.token_estimate)))
        (write ms count m)
        (suc count)
        capacity
placed-PrefixInv p ms m count capacity (long, e) h = (
  lt-length-write p (suc count) _ (omega arith),
  take-write_self p (suc count) _ (omega arith)
      ∙ rw
          (
            e,
            take-write_self ms count m h,
            estimates-append,
            ← get_or-take (suc count) p count 0 (omega arith),
            e,
          )
          (sym (
            prefixes-append 0 (estimates (take count ms)) m.token_estimate count
              (omega (arith, length-estimates (take count ms), length-take count ms)))),
)

-- The message that a caller asks to store.
abbrev pub requested : Role → Option Bytes → Option Bytes → ℕ → Message
requested role text json estimate = record {
  role = role;
  text = text;
  data_json = json;
  token_estimate = estimate;
}

-- What an append of `m` to `s` may return.
abbrev pub Appended : Session → Message → Status × Session → Type 0
Appended s m (ok, s') = IsValid s' × (contents s' ≡ contents s ++ (m ∷ [])) × SameIdentity s s'
Appended s m (error, s') = IsValid s' × (contents s' ≡ contents s) × SameIdentity s s'

PrefixInv-take :
    (tp : Option (List ℕ)) (ms ms' : List Message) (count capacity : ℕ)
    → PrefixInv tp ms count capacity
    → take count ms' ≡ take count ms
    → PrefixInv tp ms' count capacity
PrefixInv-take none ms ms' count capacity inv e = inv
PrefixInv-take (some p) ms ms' count capacity inv e =
    (inv.0, inv.1 ∙ ap (λ l. prefixes 0 (estimates l)) (sym e))

copied :
    (granted : Bool) (t : Option Bytes)
    → lost t (Message.copy granted t) ≡ false
    → Message.copy granted t ≡ t
unfolding Message.copy
copied granted none h = refl
copied true (some t) h = refl
copied false (some t) h = cc

or-false : (a b : Bool) → a || b ≡ false → (a ≡ false) × (b ≡ false)
or-false a b h = ground arith

-- With room for one more message, the rest of an append stores it whole or not at all.
module _ (g : Grants) (s : Session) (role : Role) (text json : Option Bytes) (estimate : ℕ) where
  rejected-Appended :
      (m m' : Message)
      → IsValid s
      → s.count < s.capacity
      → Appended s m' (error, record s { messages = write s.messages s.count m })
  rejected-Appended m m' v room =
      let same = take-write s.messages s.count m v.stored in
      (
        record {
          count_in = v.count_in;
          small = v.small;
          stored = omega (arith, lt-length-write s.messages s.count m v.stored);
          sums = PrefixInv-take s.token_prefix s.messages _ s.count s.capacity v.sums same;
        },
        same,
        (refl, refl, refl),
      )

  stored-Appended :
      (p : List ℕ) (m : Message)
      → s.token_prefix ≡ some p
      → IsValid s
      → s.count < s.capacity
      → Appended s m (
        ok,
        record s {
          messages = write s.messages s.count m;
          token_prefix =
              some (write p (s.count + 1) (add_size (get_or p s.count 0) m.token_estimate));
          count = add_size s.count 1;
        },
      )
  stored-Appended p m e v room =
      let next : add_size s.count 1 ≡ suc s.count = omega (arith, v.small, room) in
      rw (next, add-one)
        (
          record {
            count_in = omega arith;
            small = v.small;
            stored = lt-length-write s.messages s.count m v.stored;
            sums = placed-PrefixInv p s.messages m s.count s.capacity (rw e at v.sums) v.stored;
          },
          take-write_self s.messages s.count m v.stored,
          (refl, refl, refl),
        )

  place-some :
      (p : List ℕ)
      → s.token_prefix ≡ some p
      → IsValid s
      → s.count < s.capacity
      → Appended s (requested role text json estimate) (place g s role text json estimate)
  unfolding place Message.init_with_data_and_estimate Message.free
  place-some p e v room =
      let m = Message.init_with_data_and_estimate g role text json estimate in
      elim (Bool-cases (lost text m.text || lost json m.data_json)) [
        | inl gone ↦
            rw gone (rejected-Appended (Message.free m) (requested role text json estimate) v room)
        | inr kept ↦
            let halves = or-false (lost text m.text) (lost json m.data_json) kept in
            rw (kept, copied g.text text halves.0, copied g.json json halves.1, e)
              (stored-Appended p (requested role text json estimate) e v room)
      ]

  place-Appended :
      IsValid s
      → s.count < s.capacity
      → Appended s (requested role text json estimate) (place g s role text json estimate)
  place-Appended v room = elim (Option-cases s.token_prefix) [
    | inl e ↦ absurd (omega (arith, rw e at v.sums))
    | inr (p, e) ↦ place-some p e v room
  ]

Appended-of_same :
    (s s' : Session) (m : Message) (r : Status × Session)
    → contents s' ≡ contents s
    → SameIdentity s s'
    → Appended s' m r
    → Appended s m r
Appended-of_same s s' m (ok, t) e same (v, c, i) =
    (v, c ∙ ap (λ l. l ++ (m ∷ [])) e, (i.0 ∙ same.0, i.1 ∙ same.1, i.2 ∙ same.2))
Appended-of_same s s' m (error, t) e same (v, c, i) =
    (v, c ∙ e, (i.0 ∙ same.0, i.1 ∙ same.1, i.2 ∙ same.2))

module _ (g : Grants) (s : Session) (role : Role) (text json : Option Bytes) (estimate : ℕ) where
  place_grown-Appended :
      IsValid s
      → s.count ≡ s.capacity
      → Appended s
          (requested role text json estimate)
          (place_grown g s (grow g s) role text json estimate)
  unfolding place_grown
  place_grown-Appended v full = elim (Option-cases (grow g s)) [
    | inl e ↦ rw e (v, refl, (refl, refl, refl))
    | inr (s', e) ↦
        let (v', same_count, room, same, identity) = grow-IsValid g s v full e in
        rw e (
          Appended-of_same s s' _ _ same identity
            (place-Appended g s' role text json estimate v' (omega arith)))
  ]

  -- Whatever the four allocations answer, an append to a valid session leaves it valid. It returns
  -- ok with exactly the requested message added at the end, or the error with the messages as they
  -- were; the identity of the session is kept either way.
  pub append-Appended :
      IsValid s
      → Appended s
          (requested role text json estimate)
          (append_with_data_and_estimate g s role text json estimate)
  unfolding append_with_data_and_estimate
  append-Appended v = elim (Bool-cases (s.count == s.capacity)) [
    | inl full ↦ rw full (place_grown-Appended v (ground arith))
    | inr room ↦ rw room (place-Appended g s role text json estimate v (ground arith))
  ]
