-- ===== src/Cli.antt =====
-- src/runtime/cli.c: the options of the command line. `arg_parse` is argtable3's and a parameter:
-- what it has read is an `Args`, with the count of each option and its value.
pub mod Normalize
pub mod Parse
mod Tests
use psi_code.Prelude.{
  ℕ, zero, suc, ◌+◌, Integer, pos, negsuc, is_negative, is_positive, Bool, true, false, not, ◌&&◌,
  ◌||◌, Option, none, some, ◌>>=◌, List, [], ◌∷◌, Bytes, codes, strcmp_eq, length, ◌==◌, ltb, leb,
  if◌then◌else◌,
}

-- `argv[index + 1][0] == '-'`
abbrev starts_with_dash : Bytes → Bool
starts_with_dash [] = false
starts_with_dash (c ∷ cs) = c == b'-'

-- No value stands behind `--compact`: `argv` ends, or an option follows.
abbrev pub is_bare : List Bytes → Bool
is_bare [] = true
is_bare (next ∷ rest) = starts_with_dash next

unfoldable pub long_name : Bytes → Bytes
unfolding strcmp_eq
long_name arg =
    if strcmp_eq arg (codes "-nc")
    then codes "--no-context-files"
    else if strcmp_eq arg (codes "-np")
    then codes "--no-prompt-templates"
    else arg

abbrev pub is_bare_compact : Bytes → List Bytes → Bool
is_bare_compact arg rest = strcmp_eq arg (codes "--compact") && is_bare rest

-- The strings that are written to `copy`, one behind the other.
unfoldable pub normalize_argv : List Bytes → List Bytes
unfolding long_name strcmp_eq
normalize_argv [] = []
normalize_argv (arg ∷ rest) =
    let others = normalize_argv rest in
    long_name arg ∷ (if is_bare_compact arg rest then codes "12" ∷ others else others)

-- How many strings the memory behind `copy` has room for.
abbrev pub slots : List Bytes → ℕ
slots argv = length argv + 2

pub data Mode : Type 0 where
  help : Mode
  version : Mode
  print : Mode
  eval : Mode
  repl : Mode
  system_prompt : Mode
  agent : Mode
  compact : Mode
  tui : Mode

-- `struct psi_cli_options`; a pointer that is NULL is `none`.
pub record Options : Type 0 where
  pub mode : Mode
  pub payload : Option Bytes
  pub boot_file : Bytes
  pub session_file : Option Bytes
  pub model : Option Bytes
  pub thinking_level : Option Bytes
  pub layout_mode : Option Bytes
  pub prompt_template_file : Option Bytes
  pub max_tokens : Integer
  pub keep_recent : Integer
  pub resume : Bool
  pub continue_recent : Bool
  pub load_extensions : Bool
  pub no_context_files : Bool
  pub no_prompt_templates : Bool
  pub trust_override : Integer

-- What `arg_parse` has counted and read. A value stands only where the count is positive.
pub record Args : Type 0 where
  pub help : ℕ
  pub version : ℕ
  pub tui : ℕ
  pub repl : ℕ
  pub print : List Bytes
  pub eval : List Bytes
  pub boot : List Bytes
  pub system_prompt : ℕ
  pub agent : List Bytes
  pub model : List Bytes
  pub thinking : List Bytes
  pub max_tokens : List Integer
  pub compact : List Integer
  pub session : List Bytes
  pub resume : ℕ
  pub continue_recent : ℕ
  pub chat : ℕ
  pub no_extensions : ℕ
  pub no_context_files : ℕ
  pub no_prompt_templates : ℕ
  pub prompt_template : List Bytes
  pub trust : ℕ
  pub no_trust : ℕ

-- `sval[0]` of an option that was given
abbrev pub first {ℓ} : {A : Type ℓ} → List A → Option A
first [] = none
first (v ∷ vs) = some v

abbrev pub given {ℓ} : {A : Type ℓ} → List A → Bool
given [] = false
given (v ∷ vs) = true

abbrev pub set : ℕ → Bool
set count = ltb 0 count

abbrev one_if : Bool → ℕ
one_if true = 1
one_if false = 0

unfoldable pub count_modes : Args → ℕ
count_modes a =
    one_if (given a.print)
    + one_if (given a.eval)
    + one_if (set a.system_prompt)
    + one_if (given a.agent)
    + one_if (given a.compact)
    + one_if (set a.tui)
    + one_if (set a.repl)

unfoldable pub valid_thinking : Bytes → Bool
unfolding strcmp_eq
valid_thinking level =
    strcmp_eq level (codes "off")
    || strcmp_eq level (codes "minimal")
    || strcmp_eq level (codes "low")
    || strcmp_eq level (codes "medium")
    || strcmp_eq level (codes "high")
    || strcmp_eq level (codes "xhigh")
    || strcmp_eq level (codes "max")

-- `PSI_ENABLE_TUI` and `PSI_LUA_BOOT_FILE`
pub record Build : Type 0 where
  pub enable_tui : Bool
  pub boot_file : Bytes

unfoldable pub defaults : Build → Options
defaults b = record {
  mode = if b.enable_tui then tui else repl;
  payload = none;
  boot_file = b.boot_file;
  session_file = none;
  model = none;
  thinking_level = none;
  layout_mode = none;
  prompt_template_file = none;
  max_tokens = pos 0;
  keep_recent = pos 12;
  resume = false;
  continue_recent = false;
  load_extensions = true;
  no_context_files = false;
  no_prompt_templates = false;
  trust_override = negsuc 0;
}

-- the chain that sets `mode`, with the payload or the messages to keep
unfoldable pub choose_mode : Args → Options → Options
choose_mode a o =
    if given a.print
    then record o { mode = print; payload = first a.print }
    else if set a.tui
    then record o { mode = tui }
    else if set a.repl
    then record o { mode = repl }
    else if given a.eval
    then record o { mode = eval; payload = first a.eval }
    else if set a.system_prompt
    then record o { mode = system_prompt }
    else if given a.agent
    then record o { mode = agent; payload = first a.agent }
    else elim a.compact [ [] ↦ o | n ∷ ns ↦ record o { mode = compact; keep_recent = n } ]

abbrev pub or_else {ℓ} : {A : Type ℓ} → Option A → Option A → Option A
or_else (some v) w = some v
or_else none w = w

-- A `goto out` with the error.
abbrev pub guard : Bool → Option (Unit {0})
guard true = some tt
guard false = none

unfoldable pub set_session : Args → Options → Option Options
set_session a o = do
  let resume = set a.resume || o.resume
  let recent = set a.continue_recent || o.continue_recent
  u ← guard (not (resume && recent))
  some (record o {
    boot_file = elim a.boot [ [] ↦ o.boot_file | f ∷ fs ↦ f ];
    session_file = or_else (first a.session) o.session_file;
    resume = resume;
    continue_recent = recent;
  })

unfoldable pub set_trust : Args → Options → Option Options
set_trust a o = do
  u ← guard (not (set a.trust && set a.no_trust))
  some (record o {
    layout_mode = if set a.chat then some (codes "chat") else o.layout_mode;
    load_extensions = if set a.no_extensions then false else o.load_extensions;
    no_context_files = if set a.no_context_files then true else o.no_context_files;
    no_prompt_templates = if set a.no_prompt_templates then true else o.no_prompt_templates;
    prompt_template_file = or_else (first a.prompt_template) o.prompt_template_file;
    trust_override =
        if set a.no_trust then pos 0 else if set a.trust then pos 1 else o.trust_override;
  })

unfoldable pub set_thinking : Args → Options → Option Options
unfolding valid_thinking
set_thinking a o = elim a.thinking [
  | [] ↦ some o
  | level ∷ ls ↦
      if valid_thinking level then some (record o { thinking_level = some level }) else none
]

unfoldable pub set_tokens : Args → Options → Option Options
set_tokens a o = elim a.max_tokens [
  | [] ↦ some o
  | n ∷ ns ↦ if is_positive n then some (record o { max_tokens = n }) else none
]

-- What follows a parse without errors.
unfoldable pub from_args : Build → Args → Option Options
unfolding defaults count_modes choose_mode set_session set_trust set_thinking set_tokens
from_args b a =
    if set a.help
    then some (record (defaults b) { mode = help })
    else if set a.version
    then some (record (defaults b) { mode = version })
    else if ltb 1 (count_modes a)
    then none
    else (do
      s ← set_session a (choose_mode a (defaults b))
      t ← set_trust a s
      u ← set_thinking a (record t { model = or_else (first a.model) t.model })
      v ← set_tokens a u
      w ← guard (not (is_negative v.keep_recent))
      some v)

-- `psi_cli_parse`: `none` is the error. `built` and `copied` are the answers of the allocator, and
-- `arg_parse` gives nothing when it has counted errors.
unfoldable pub parse :
    Build → Bool → Bool → (List Bytes → Option Args) → List Bytes → Option Options
unfolding normalize_argv from_args
parse b built copied arg_parse argv = do
  u ← guard built
  v ← guard copied
  a ← arg_parse (normalize_argv argv)
  from_args b a
