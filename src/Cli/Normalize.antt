-- ===== src/Cli/Normalize.antt =====
-- How many strings `psi_cli_normalize_argv` writes.
use psi_code.Prelude.{
  ℕ, ◌+◌, ◌≤◌, ◌≡◌, ◌↔◌, refl, List, [], ◌∷◌, arith, Bytes, length, if◌then◌else◌,
}
use psi_code.Cli.{is_bare_compact, normalize_argv, slots}

-- How many times `--compact` stands without a value.
abbrev pub bare_compacts : List Bytes → ℕ
bare_compacts [] = 0
bare_compacts (arg ∷ rest) =
    let others = bare_compacts rest in if is_bare_compact arg rest then others + 1 else others

length-normalize_argv :
    (argv : List Bytes) → length (normalize_argv argv) ≡ length argv + bare_compacts argv
unfolding normalize_argv
length-normalize_argv [] = refl
length-normalize_argv (arg ∷ rest) = ground (arith, length-normalize_argv rest)

-- The strings that psi_cli_normalize_argv writes fit in the memory it has asked for exactly when
-- --compact stands without a value at most twice.
pub normalize_argv-slots :
    (argv : List Bytes) → (length (normalize_argv argv) ≤ slots argv) ↔ (bare_compacts argv ≤ 2)
normalize_argv-slots argv = ground (arith, length-normalize_argv argv)
