-- ===== src/Message.antt =====
-- The message primitives of src/core/session.c, and the roles of include/psi/message.h.
-- A C string is its bytes before the NUL; `none` is the null pointer.
use psi_code.Prelude.{
  ℕ, ◌+◌, ◌*◌, ◌/◌, ◌-◌, ◌%◌, Option, none, some, Bool, true, false, [], ltb, if◌then◌else◌, Bytes,
  codes, strcmp_eq, length, size_mod, size_max,
}

-- `enum psi_message_role`
pub data Role : Type 0 where
  user assistant tool_call tool_result custom branch_summary compaction_summary : Role

pub record Message : Type 0 where
  pub role : Role
  pub text : Option Bytes
  pub data_json : Option Bytes
  pub token_estimate : ℕ

-- What the four calls of `malloc` in an append answer.
pub record Grants : Type 0 where
  pub messages : Bool
  pub prefix : Bool
  pub text : Bool
  pub json : Bool

unfoldable pub estimate_tokens : Option Bytes → ℕ
estimate_tokens none = 0
estimate_tokens (some []) = 0
estimate_tokens (some t) = (length t + 3) % size_mod / 4

unfoldable pub calibrate_tokens : ℕ → ℕ
calibrate_tokens p =
    if ltb ((size_max - 199) / 221) p then size_max else (221 * p + 199) % size_mod / 200

-- `text != NULL ? psi_strdup(text) : NULL`, with the answer of the copy's `malloc`
unfoldable pub copy : Bool → Option Bytes → Option Bytes
copy granted none = none
copy true (some t) = some t
copy false (some t) = none

unfoldable pub init_with_data_and_estimate :
    Grants → Role → Option Bytes → Option Bytes → ℕ → Message
unfolding copy
init_with_data_and_estimate g role text json estimate = record {
  role = role;
  text = copy g.text text;
  data_json = copy g.json json;
  token_estimate = estimate;
}

unfoldable pub init_with_data : Grants → Role → Option Bytes → Option Bytes → Message
unfolding init_with_data_and_estimate
init_with_data g role text json =
    init_with_data_and_estimate g role text json (calibrate_tokens (estimate_tokens text))

unfoldable pub init : Grants → Role → Option Bytes → Message
unfolding init_with_data
init g role text = init_with_data g role text none

-- `psi_message_free` keeps the role.
unfoldable pub free : Message → Message
free m = record m { text = none; data_json = none; token_estimate = 0 }

-- The `default` case of the switch is for values that are no role.
unfoldable pub role_name : Role → Bytes
role_name user = codes "user"
role_name assistant = codes "assistant"
role_name tool_call = codes "tool-call"
role_name tool_result = codes "tool-result"
role_name custom = codes "custom"
role_name branch_summary = codes "branch-summary"
role_name compaction_summary = codes "compaction-summary"

role_of_bytes : Bytes → Role
role_of_bytes n =
    if strcmp_eq n (codes "user")
    then user
    else if strcmp_eq n (codes "assistant")
    then assistant
    else if strcmp_eq n (codes "tool-call")
    then tool_call
    else if strcmp_eq n (codes "tool-result")
    then tool_result
    else if strcmp_eq n (codes "branch-summary")
    then branch_summary
    else if strcmp_eq n (codes "compaction-summary")
    then compaction_summary
    else custom

unfoldable pub role_from_name : Option Bytes → Role
unfolding role_of_bytes strcmp_eq
role_from_name none = custom
role_from_name (some n) = role_of_bytes n
