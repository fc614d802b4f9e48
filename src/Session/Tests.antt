-- ===== src/Session/Tests.antt =====
-- Runs of the session store, and its theorems at concrete sessions.
use psi_code.Prelude.{
  ℕ, ◌%◌, ◌≤◌, ◌-◌, ◌≡◌, refl, true, false, none, some, [], ◌∷◌, arith, ok, codes, drop, size_mod,
  inl,
}
use psi_code.Message
use psi_code.Message.{Message, Grants, user, assistant, tool_call}
use psi_code.Session.{
  Session, empty, append, append_with_data, grow, place, append_with_data_and_estimate,
  token_estimate_from, keep_recent_by_tokens, lower_bound, append_op, clear_op, run,
}
use psi_code.Session.Prefix.{sum, estimates}
use psi_code.Session.Invariant.{IsValid, contents, requested, Appended, append-Appended}
use psi_code.Session.Estimate.{calibrate_tokens_mono, token_estimate_from-sum}
use psi_code.Session.Keep.{Keeps, IsBoundary, lower_bound-IsBoundary, keep_recent_by_tokens-Keeps}
use psi_code.Session.Run.{log, empty-IsValid, run_refines, append-ok}

abbrev all_granted : Grants
all_granted = record { messages = true; prefix = true; text = true; json = true }

abbrev no_text : Grants
no_text = record { messages = true; prefix = true; text = false; json = true }

abbrev question : Message
question = requested user (some (codes "hi")) none 3

abbrev answer : Message
answer = requested assistant (some (codes "hello")) (some (codes "{}")) 7

abbrev talk : Session
talk = record {
  messages = question ∷ answer ∷ [];
  token_prefix = some (0 ∷ 3 ∷ 10 ∷ []);
  count = 2;
  capacity = 8;
  id = some (codes "s1");
  path = none;
  parent_id = none;
}

talk-IsValid : IsValid talk
talk-IsValid = record {
  count_in = omega arith;
  small = omega arith;
  stored = omega arith;
  sums = (omega arith, refl);
}

append_runs :
    (append all_granted empty user (some (codes "hello"))).1.token_prefix ≡ some (0 ∷ 3 ∷ [])
unfolding append append_with_data append_with_data_and_estimate grow place
    Message.init_with_data_and_estimate Message.calibrate_tokens Message.estimate_tokens
append_runs = refl

append-Appended_example :
    Appended talk
      (requested tool_call (some (codes "x")) none 2)
      (append_with_data_and_estimate no_text talk tool_call (some (codes "x")) none 2)
append-Appended_example =
    append-Appended no_text talk tool_call (some (codes "x")) none 2 talk-IsValid

run_refines_example :
    let ops = append_op all_granted user (some (codes "a")) none 1 ∷ clear_op ∷ [] in
    IsValid (run ops empty).1
    × (contents (run ops empty).1 ≡ log ops (run ops empty).0 (contents empty))
run_refines_example =
    run_refines (append_op all_granted user (some (codes "a")) none 1 ∷ clear_op ∷ []) empty
      empty-IsValid

append-ok_example :
    (append_with_data_and_estimate all_granted empty user (some (codes "a")) none 1).0 ≡ ok
append-ok_example =
    append-ok all_granted empty user (some (codes "a")) none 1 empty-IsValid
      (refl, refl, refl, refl) (omega arith)

calibrate_tokens_mono_example : Message.calibrate_tokens 7 ≤ Message.calibrate_tokens 1000
calibrate_tokens_mono_example = calibrate_tokens_mono 7 1000 (omega arith) (omega arith)

token_estimate_from-sum_example :
    token_estimate_from (some talk) 2 ≡ sum (drop (2 - 1) (estimates (contents talk))) % size_mod
token_estimate_from-sum_example = token_estimate_from-sum talk 2 talk-IsValid

lower_bound-IsBoundary_example :
    (i : ℕ) × (lower_bound (0 ∷ 3 ∷ 10 ∷ []) 3 3 0 2 ≡ some i) × IsBoundary (0 ∷ 3 ∷ 10 ∷ []) 3 2 i
lower_bound-IsBoundary_example =
    lower_bound-IsBoundary (0 ∷ 3 ∷ 10 ∷ []) 3 2 3 0 2 (omega arith) (omega arith) (omega arith)
      (inl refl) (inl refl)

keep_recent_by_tokens-Keeps_example :
    (k : ℕ) × (keep_recent_by_tokens (some talk) 8 ≡ some k) × Keeps (estimates (contents talk)) 8 k
keep_recent_by_tokens-Keeps_example = keep_recent_by_tokens-Keeps talk 8 talk-IsValid (omega arith)

keep_runs : keep_recent_by_tokens (some talk) 8 ≡ some 1
unfolding keep_recent_by_tokens lower_bound
keep_runs = refl
