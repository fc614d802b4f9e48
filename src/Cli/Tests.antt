-- ===== src/Cli/Tests.antt =====
-- Runs of the command line, and its theorems at concrete ones.
use psi_code.Prelude.{
  ◌+◌, ◌≡◌, ◌≤◌, ◌↔◌, refl, pos, negsuc, true, false, none, some, List, [], ◌∷◌, Bytes, codes,
  length,
}
use psi_code.Cli.{Args, Build, agent, normalize_argv, slots, from_args, parse}
use psi_code.Cli.Normalize.{bare_compacts, normalize_argv-slots}
use psi_code.Cli.Parse.{Accepted, from_args-Accepted}

abbrev build : Build
build = record { enable_tui = true; boot_file = [] }

abbrev no_args : Args
no_args = record {
  help = 0;
  version = 0;
  tui = 0;
  repl = 0;
  print = [];
  eval = [];
  boot = [];
  system_prompt = 0;
  agent = [];
  model = [];
  thinking = [];
  max_tokens = [];
  compact = [];
  session = [];
  resume = 0;
  continue_recent = 0;
  chat = 0;
  no_extensions = 0;
  no_context_files = 0;
  no_prompt_templates = 0;
  prompt_template = [];
  trust = 0;
  no_trust = 0;
}

-- `psi --agent hi --thinking low -c`
abbrev agent_args : Args
agent_args = record no_args {
  agent = codes "hi" ∷ [];
  thinking = codes "low" ∷ [];
  continue_recent = 1;
}

from_args-Accepted_example : Accepted agent_args (from_args build agent_args)
from_args-Accepted_example = from_args-Accepted build agent_args refl refl

from_args-agent :
    from_args build agent_args
    ≡ some (record {
      mode = agent;
      payload = some (codes "hi");
      boot_file = [];
      session_file = none;
      model = none;
      thinking_level = some (codes "low");
      layout_mode = none;
      prompt_template_file = none;
      max_tokens = pos 0;
      keep_recent = pos 12;
      resume = false;
      continue_recent = true;
      load_extensions = true;
      no_context_files = false;
      no_prompt_templates = false;
      trust_override = negsuc 0;
    })
unfolding from_args
from_args-agent = refl

two_modes : from_args build (record agent_args { print = codes "x" ∷ [] }) ≡ none
unfolding from_args
two_modes = refl

abbrev three_compacts : List Bytes
three_compacts = codes "psi" ∷ codes "--compact" ∷ codes "--compact" ∷ codes "--compact" ∷ []

normalize_argv-slots_example :
    (length (normalize_argv three_compacts) ≤ slots three_compacts)
    ↔ (bare_compacts three_compacts ≤ 2)
normalize_argv-slots_example = normalize_argv-slots three_compacts

-- One string more than there is room for.
normalize_argv-three_compacts : length (normalize_argv three_compacts) ≡ slots three_compacts + 1
unfolding normalize_argv
normalize_argv-three_compacts = refl

parse-short_name :
    parse build true true (λ argv. some (record no_args { print = argv })) (codes "-nc" ∷ [])
    ≡ from_args build (record no_args { print = codes "--no-context-files" ∷ [] })
unfolding parse
parse-short_name = refl
