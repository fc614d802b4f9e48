-- ===== src/Cli/Parse.antt =====
-- What holds of the options whenever the command line is accepted.
use psi_code.Prelude.{
  zero, suc, ◌≤◌, ◌≡◌, refl, ap, sym, ◌∙◌, Integer, pos, negsuc, is_negative, is_positive, Bool,
  true, false, not, ◌&&◌, ◌||◌, Option, none, some, ◌>>=◌, List, [], ◌∷◌, arith, Bytes,
  if◌then◌else◌, ltb, Bool-cases, inl, inr,
}
use psi_code.Cli.{
  Mode, help, version, print, eval, repl, system_prompt, agent, compact, tui, Options, Args, Build,
  first, given, set, count_modes, valid_thinking, defaults, choose_mode, guard, or_else,
  set_session, set_trust, set_thinking, set_tokens, from_args,
}

-- A level is one of those that are valid, if there is one.
abbrev pub IsThinking : Option Bytes → Type 0
IsThinking none = Unit
IsThinking (some level) = valid_thinking level ≡ true

-- The options of a run are consistent.
pub record Consistent (o : Options) : Type 0 where
  pub one_session : (o.resume && o.continue_recent) ≡ false
  pub thinking : IsThinking o.thinking_level
  pub tokens : is_negative o.max_tokens ≡ false
  pub kept : is_negative o.keep_recent ≡ false

-- What a chain of setters keeps, with the mode, the payload and the messages to keep that were
-- chosen before it.
record Sound (m : Mode) (p : Option Bytes) (k : Integer) (o : Options) : Type 0 where
  one_session : (o.resume && o.continue_recent) ≡ false
  thinking : IsThinking o.thinking_level
  tokens : is_negative o.max_tokens ≡ false
  mode : o.mode ≡ m
  payload : o.payload ≡ p
  kept : o.keep_recent ≡ k

module _ (m : Mode) (p : Option Bytes) (k : Integer) where
  abbrev Kept : Option Options → Type 0
  Kept none = Unit
  Kept (some o) = Sound m p k o

  set_tokens-Kept : (a : Args) (o : Options) → Sound m p k o → Kept (set_tokens a o)
  unfolding set_tokens
  set_tokens-Kept a o s = of_list a.max_tokens
    where
      of_list :
          (ns : List Integer)
          → Kept (elim ns [
            | [] ↦ some o
            | n ∷ ns ↦ if is_positive n then some (record o { max_tokens = n }) else none
          ])
      of_list [] = s
      of_list (pos zero ∷ ns) = tt
      of_list (negsuc n ∷ ns) = tt
      of_list (pos (suc n) ∷ ns) = record {
        one_session = s.one_session;
        thinking = s.thinking;
        tokens = refl;
        mode = s.mode;
        payload = s.payload;
        kept = s.kept;
      }

  set_thinking-Kept : (a : Args) (o : Options) → Sound m p k o → Kept (set_thinking a o)
  unfolding set_thinking
  set_thinking-Kept a o s = of_list a.thinking
    where
      of_list :
          (ls : List Bytes)
          → Kept (elim ls [
            | [] ↦ some o
            | l ∷ ls ↦
                if valid_thinking l then some (record o { thinking_level = some l }) else none
          ])
      of_list [] = s
      of_list (l ∷ ls) = elim (Bool-cases (valid_thinking l)) [
        | inr invalid ↦ rw invalid tt
        | inl valid ↦ rw valid (record {
          one_session = s.one_session;
          thinking = valid;
          tokens = s.tokens;
          mode = s.mode;
          payload = s.payload;
          kept = s.kept;
        })
      ]

  model-Sound :
      (a : Args) (o : Options)
      → Sound m p k o
      → Sound m p k (record o { model = or_else (first a.model) o.model })
  model-Sound a o s = record {
    one_session = s.one_session;
    thinking = s.thinking;
    tokens = s.tokens;
    mode = s.mode;
    payload = s.payload;
    kept = s.kept;
  }

  set_trust-Kept : (a : Args) (o : Options) → Sound m p k o → Kept (set_trust a o)
  unfolding set_trust
  set_trust-Kept a o s = elim (Bool-cases (set a.trust && set a.no_trust)) [
    | inl both ↦ rw (both, set_trust) tt
    | inr one ↦
        rw (one, set_trust)
          (record {
            one_session = s.one_session;
            thinking = s.thinking;
            tokens = s.tokens;
            mode = s.mode;
            payload = s.payload;
            kept = s.kept;
          })
  ]

  -- The first setter excludes two sessions by itself.
  set_session-Kept :
      (a : Args) (o : Options)
      → IsThinking o.thinking_level
      → is_negative o.max_tokens ≡ false
      → o.mode ≡ m
      → o.payload ≡ p
      → o.keep_recent ≡ k
      → Kept (set_session a o)
  unfolding set_session
  set_session-Kept a o t n em ep ek =
      elim (Bool-cases
        ((set a.resume || o.resume) && (set a.continue_recent || o.continue_recent))) [
          | inl both ↦ rw (both, set_session) tt
          | inr one ↦
              rw (one, set_session)
                (record {
                  one_session = one;
                  thinking = t;
                  tokens = n;
                  mode = em;
                  payload = ep;
                  kept = ek;
                })
        ]

-- The primary mode flags that stand on the command line.
abbrev pub is_given : Args → Mode → Bool
is_given a help = false
is_given a version = false
is_given a print = given a.print
is_given a eval = given a.eval
is_given a repl = set a.repl
is_given a system_prompt = set a.system_prompt
is_given a agent = given a.agent
is_given a compact = given a.compact
is_given a tui = set a.tui

-- The value that goes with a mode.
abbrev pub payload_of : Args → Mode → Option Bytes
payload_of a print = first a.print
payload_of a eval = first a.eval
payload_of a agent = first a.agent
payload_of a m = none

abbrev pub kept_of : Args → Mode → Integer
kept_of a compact = elim a.compact [ [] ↦ pos 12 | n ∷ ns ↦ n ]
kept_of a m = pos 12

choose_mode-given :
    (b : Build) (a : Args) (m : Mode)
    → count_modes a ≤ 1
    → is_given a m ≡ true
    → (choose_mode a (defaults b)).mode ≡ m
unfolding choose_mode count_modes defaults
choose_mode-given b a help c h = cc
choose_mode-given b a version c h = cc
choose_mode-given b a print c h = ground arith
choose_mode-given b a eval c h = ground arith
choose_mode-given b a repl c h = ground arith
choose_mode-given b a system_prompt c h = ground arith
choose_mode-given b a agent c h = ground arith
choose_mode-given b a compact c h = ground arith
choose_mode-given b a tui c h = ground arith

choose_mode-payload :
    (b : Build) (a : Args)
    → let o = choose_mode a (defaults b) in
      (o.payload ≡ payload_of a o.mode) × (o.keep_recent ≡ kept_of a o.mode)
unfolding choose_mode defaults
choose_mode-payload b a = ground arith

-- The options of a run: the mode is the flag that was given, with its value, and the settings are
-- consistent.
pub record Ran (a : Args) (o : Options) : Type 0 where
  pub mode : (m : Mode) → is_given a m ≡ true → o.mode ≡ m
  pub payload : o.payload ≡ payload_of a o.mode
  pub kept : o.keep_recent ≡ kept_of a o.mode
  pub keep_recent : is_negative o.keep_recent ≡ false
  pub one_session : (o.resume && o.continue_recent) ≡ false
  pub thinking : IsThinking o.thinking_level
  pub tokens : is_negative o.max_tokens ≡ false

abbrev pub Accepted : Args → Option Options → Type 0
Accepted a none = Unit
Accepted a (some o) = Ran a o

module _ (a : Args) (m : Mode) (p : Option Bytes) (k : Integer) where
  Accepted-bind :
      (r : Option Options) (f : Options → Option Options)
      → Kept m p k r
      → ((o : Options) → Sound m p k o → Accepted a (f o))
      → Accepted a (r >>= f)
  Accepted-bind none f s h = tt
  Accepted-bind (some o) f s h = h o s

  -- the last test
  keep_recent-Accepted :
      (o : Options)
      → ((n : Mode) → is_given a n ≡ true → m ≡ n)
      → p ≡ payload_of a m
      → k ≡ kept_of a m
      → Sound m p k o
      → Accepted a (guard (not (is_negative o.keep_recent)) >>= λ w. some o)
  keep_recent-Accepted o one ep ek s = elim (Bool-cases (is_negative o.keep_recent)) [
    | inl negative ↦ rw negative tt
    | inr natural ↦ rw natural (record {
      mode = λ n g. s.mode ∙ one n g;
      payload = s.payload ∙ ep ∙ ap (payload_of a) (sym s.mode);
      kept = s.kept ∙ ek ∙ ap (kept_of a) (sym s.mode);
      keep_recent = natural;
      one_session = s.one_session;
      thinking = s.thinking;
      tokens = s.tokens;
    })
  ]

choose_mode-defaults :
    (b : Build) (a : Args)
    → let o = choose_mode a (defaults b) in (o.thinking_level ≡ none) × (o.max_tokens ≡ pos 0)
unfolding choose_mode defaults
choose_mode-defaults b a = ground arith

-- When neither help nor the version is asked for, options that psi_cli_parse accepts have the
-- mode whose flag was given, its payload or number of messages, at most one of resume and
-- continue, a valid thinking level, and no negative limit.
pub from_args-Accepted :
    (b : Build) (a : Args) → set a.help ≡ false → set a.version ≡ false → Accepted a (from_args b a)
unfolding from_args
from_args-Accepted b a no_help no_version = elim (Bool-cases (ltb 1 (count_modes a))) [
  | inl many ↦ rw (no_help, no_version, many, from_args) tt
  | inr few ↦
      let c = choose_mode a (defaults b) in
      let (no_level, no_tokens) = choose_mode-defaults b a in
      let (payload, kept) = choose_mode-payload b a in
      let bind = Accepted-bind a c.mode c.payload c.keep_recent in
      let one : count_modes a ≤ 1 = ground arith in
      let level : IsThinking c.thinking_level = rw no_level tt in
      let amount : is_negative c.max_tokens ≡ false = rw no_tokens refl in
      rw (no_help, no_version, few, from_args)
        (bind (set_session a c) _
          (set_session-Kept c.mode c.payload c.keep_recent a c level amount refl refl refl)
          λ s ss.
            bind (set_trust a s) _ (set_trust-Kept c.mode c.payload c.keep_recent a s ss) λ t st.
              bind (set_thinking a _) _
                (set_thinking-Kept c.mode c.payload c.keep_recent a _
                  (model-Sound c.mode c.payload c.keep_recent a t st))
                λ u su.
                  bind (set_tokens a u) _ (set_tokens-Kept c.mode c.payload c.keep_recent a u su)
                    λ v sv.
                      keep_recent-Accepted a c.mode c.payload c.keep_recent v
                        (λ n g. choose_mode-given b a n one g) payload kept sv)
]
