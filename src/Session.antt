-- ===== src/Session.antt =====
-- The session store of src/core/session.c: a growable array of messages beside the prefix sums of
-- their token estimates, and the views of it that src/lua/vm.c hands to Lua.
pub mod Prefix
pub mod Invariant
pub mod Estimate
pub mod Keep
pub mod Run
mod Tests
use psi_code.Prelude.{
  ℕ, zero, suc, ◌+◌, ◌*◌, ◌/◌, ◌-◌, ◌%◌, Option, none, some, Bool, true, false, not, ◌&&◌, ◌||◌,
  List, [], ◌∷◌, ltb, leb, ◌==◌, if◌then◌else◌, Bytes, take, get_or, write, size_mod, size_max,
  add_size, Status, ok, error,
}
use psi_code.Prelude.{map, drop}
use psi_code.Message
use psi_code.Message.{Role, Message, Grants}

-- `messages` and `token_prefix` hold the initialised slots of the two arrays, which may lie past
-- `count`; `none` is the null pointer.
pub record Session : Type 0 where
  pub messages : List Message
  pub token_prefix : Option (List ℕ)
  pub count : ℕ
  pub capacity : ℕ
  pub id : Option Bytes
  pub path : Option Bytes
  pub parent_id : Option Bytes

abbrev pub empty : Session
empty = record {
  messages = [];
  token_prefix = none;
  count = 0;
  capacity = 0;
  id = none;
  path = none;
  parent_id = none;
}

unfoldable pub clear_messages : Session → Session
clear_messages s = record s { messages = []; token_prefix = none; count = 0; capacity = 0 }

unfoldable pub free : Session → Session
unfolding clear_messages
free s = record (clear_messages s) { id = none; path = none; parent_id = none }

unfoldable pub set_string : Bool → Option Bytes → Option Bytes → Status × Option Bytes
set_string granted dst none = (ok, none)
set_string true dst (some v) = (ok, some v)
set_string false dst (some v) = (error, dst)

-- `sizeof(struct psi_message)` is 32 and `sizeof(size_t)` is 8 on a 64-bit host.
abbrev pub max_messages : ℕ
max_messages = size_max / 32

abbrev pub max_prefixes : ℕ
max_prefixes = size_max / 8 - 1

-- reads of `token_prefix[i]` through the pointer
abbrev pub prefix_at : Option (List ℕ) → ℕ → ℕ
prefix_at none i = 0
prefix_at (some p) i = get_or p i 0

-- the copy of the prefix sums into the new array
pub carried : Option (List ℕ) → ℕ → List ℕ
carried token_prefix count =
    if ltb 0 count then take (count + 1) (elim token_prefix [ none ↦ [] | some p ↦ p ]) else 0 ∷ []

-- the part of the growth that follows the choice of `new_capacity`
reallocate : Grants → Session → ℕ → Option Session
reallocate g s new_capacity =
    if ltb max_messages new_capacity || ltb max_prefixes new_capacity
    then none
    else if not g.messages
    then none
    else if not g.prefix
    then none
    else some (record s {
      messages = take s.count s.messages;
      token_prefix = some (carried s.token_prefix s.count);
      capacity = new_capacity;
    })

-- the block under `count == capacity`; `none` is its `return PSI_STATUS_ERROR`
unfoldable pub grow : Grants → Session → Option Session
unfolding reallocate carried
grow g s =
    if s.capacity == 0
    then reallocate g s 8
    else if ltb (max_messages / 2) s.capacity || ltb (max_prefixes / 2) s.capacity
    then none
    else reallocate g s (s.capacity * 2 % size_mod)

-- `asked != NULL && got == NULL`
abbrev lost : Option Bytes → Option Bytes → Bool
lost (some t) none = true
lost _ _ = false

-- the part behind the growth
unfoldable pub place : Grants → Session → Role → Option Bytes → Option Bytes → ℕ → Status × Session
place g s role text json estimate =
    let m = Message.init_with_data_and_estimate g role text json estimate in
    if lost text m.text || lost json m.data_json
    then (error, record s { messages = write s.messages s.count (Message.free m) })
    else (
      ok,
      record s {
        messages = write s.messages s.count m;
        token_prefix = some (
            write (elim s.token_prefix [ none ↦ [] | some p ↦ p ]) (s.count + 1)
              (add_size (prefix_at s.token_prefix s.count) m.token_estimate));
        count = add_size s.count 1;
      },
    )

place_grown :
    Grants → Session → Option Session → Role → Option Bytes → Option Bytes → ℕ → Status × Session
place_grown g s none role text json estimate = (error, s)
place_grown g s (some s') role text json estimate = place g s' role text json estimate

unfoldable pub append_with_data_and_estimate :
    Grants → Session → Role → Option Bytes → Option Bytes → ℕ → Status × Session
unfolding place_grown
append_with_data_and_estimate g s role text json estimate =
    if s.count == s.capacity
    then place_grown g s (grow g s) role text json estimate
    else place g s role text json estimate

unfoldable pub append_with_data :
    Grants → Session → Role → Option Bytes → Option Bytes → Status × Session
append_with_data g s role text json =
    append_with_data_and_estimate g s role text json
      (Message.calibrate_tokens (Message.estimate_tokens text))

unfoldable pub append : Grants → Session → Role → Option Bytes → Status × Session
append g s role text = append_with_data g s role text none

unfoldable pub set_id : Bool → Session → Option Bytes → Status × Session
unfolding set_string
set_id granted s v = let (st, new) = set_string granted s.id v in (st, record s { id = new })

unfoldable pub set_path : Bool → Session → Option Bytes → Status × Session
unfolding set_string
set_path granted s v = let (st, new) = set_string granted s.path v in (st, record s { path = new })

unfoldable pub set_parent_id : Bool → Session → Option Bytes → Status × Session
unfolding set_string
set_parent_id granted s v =
    let (st, new) = set_string granted s.parent_id v in (st, record s { parent_id = new })

unfoldable pub clear : Session → Status × Session
unfolding clear_messages
clear s = (ok, clear_messages s)

-- The guard `if (session == NULL) return PSI_STATUS_ERROR` before an operation.
unfoldable pub on_session : (Session → Status × Session) → Option Session → Status × Option Session
on_session f none = (error, none)
on_session f (some s) = let (st, s') = f s in (st, some s')

-- `size_t` subtraction wraps.
abbrev pub sub_size : ℕ → ℕ → ℕ
sub_size a b = (size_mod + a - b) % size_mod

-- the branches behind the guard on a null or empty session
estimate_in : Session → List ℕ → ℕ → ℕ
estimate_in s p start =
    let from = if ltb start 1 then 1 else start in
    if ltb s.count from then 0 else sub_size (get_or p s.count 0) (get_or p (from - 1) 0)

-- `none` in `token_prefix` is the null pointer of the guard.
unfoldable pub token_estimate_from : Option Session → ℕ → ℕ
unfolding estimate_in
token_estimate_from none start = 0
token_estimate_from (some s) start =
    if s.count == 0 then 0 else elim s.token_prefix [ none ↦ 0 | some p ↦ estimate_in s p start ]

-- `while (lo < hi)`: the first index whose prefix sum reaches the threshold. `none` means that the
-- fuel ran out. No sum wraps: `mid + 1` is at most `hi`.
unfoldable pub lower_bound : List ℕ → ℕ → ℕ → ℕ → ℕ → Option ℕ
lower_bound p threshold zero lo hi = none
lower_bound p threshold (suc fuel) lo hi =
    let mid : ℕ = lo + (hi - lo) / 2 in
    let up = lower_bound p threshold fuel (mid + 1) hi in
    let down = lower_bound p threshold fuel lo mid in
    if ltb lo hi then (if ltb (get_or p mid 0) threshold then up else down) else some lo

-- what the search's result makes of the number of messages to keep
unfoldable pub kept_from : ℕ → ℕ → ℕ
kept_from count lo = let start = if ltb count (lo + 1) then count else lo + 1 in count - start + 1

keep_in : Session → List ℕ → ℕ → Option ℕ
unfolding kept_from
keep_in s p target =
    let total = get_or p s.count 0 in
    if leb total target
    then some s.count
    else elim (lower_bound p (total - target) (s.count + 1) 0 s.count) [
      | none ↦ none
      | some lo ↦ some (kept_from s.count lo)
    ]

unfoldable pub keep_recent_by_tokens : Option Session → ℕ → Option ℕ
unfolding keep_in
keep_recent_by_tokens none target = some 0
keep_recent_by_tokens (some s) target =
    if s.count == 0
    then some 0
    else elim s.token_prefix [ none ↦ some 0 | some p ↦ keep_in s p target ]

-- The table that Lua gets for a message.
pub record View : Type 0 where
  pub role : Bytes
  pub text : Bytes
  pub json : Option Bytes

abbrev pub view : Message → View
view m = record {
  role = Message.role_name m.role;
  text = elim m.text [ none ↦ [] | some t ↦ t ];
  json = m.data_json;
}

-- `for (i = start; i < count; i++)`
abbrev views : ℕ → ℕ → List Message → List View
views start count ms = map view (drop start (take count ms))

unfoldable pub messages : Option Session → List View
messages none = []
messages (some s) = views 0 s.count s.messages

-- `start_arg`, with 0 for every Lua integer below 1.
unfoldable pub messages_from : Option Session → ℕ → List View
messages_from none start_arg = []
messages_from (some s) start_arg =
    let start = (if ltb start_arg 1 then 1 else start_arg) - 1 in
    if leb s.count start then [] else views start s.count s.messages

-- A caller's operations on a session, in the order in which they are called.
pub data Op : Type 0 where
  append_op : Grants → Role → Option Bytes → Option Bytes → ℕ → Op
  clear_op : Op
  id_op path_op parent_op : Bool → Option Bytes → Op

unfoldable pub step : Op → Session → Status × Session
step (append_op g role text json estimate) s =
    append_with_data_and_estimate g s role text json estimate
step clear_op s = clear s
step (id_op granted v) s = set_id granted s v
step (path_op granted v) s = set_path granted s v
step (parent_op granted v) s = set_parent_id granted s v

-- the status that each returned, and the session at the end
unfoldable pub run : List Op → Session → List Status × Session
run [] s = ([], s)
run (op ∷ ops) s = let (st, s') = step op s in let (sts, end) = run ops s' in (st ∷ sts, end)
