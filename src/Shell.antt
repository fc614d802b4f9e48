-- ===== src/Shell.antt =====
-- Quoting for the shell: `psi_vm_shell_quote_arg` and the command of `lfn_tui_external_editor` in
-- src/lua/vm.c, and `psi_tui_fprint_shell_quoted` of src/runtime/tui_mode.c.
pub mod Word
pub mod Tests
use psi_code.Prelude.{
  ℕ, ◌+◌, Bool, true, false, Option, none, some, ◌>>=◌, List, [], ◌∷◌, ◌++◌, Bytes, codes, length,
  ◌==◌, if◌then◌else◌, Status, ok, error,
}
use psi_code.Screen.Render.{Cache, reset_render_cache}

abbrev pub quote : ℕ
quote = b'\''

abbrev pub backslash : ℕ
backslash = b'\\'

-- The first loop: how many bytes the quoting adds.
unfoldable pub quote_extra : ℕ → Bytes → ℕ
quote_extra extra [] = extra
quote_extra extra (c ∷ s) = quote_extra (if c == quote then extra + 3 else extra) s

-- The second loop, from `out[j]` on.
unfoldable pub quote_loop : Bytes → Bytes → Bytes
quote_loop out [] = out
quote_loop out (c ∷ s) =
    quote_loop
      (if c == quote
        then out ++ (quote ∷ (backslash ∷ (quote ∷ (quote ∷ []))))
        else out ++ (c ∷ []))
      s

-- What is asked of `malloc`, the NUL included.
unfoldable pub quote_size : Bytes → ℕ
unfolding quote_extra
quote_size text = length text + quote_extra 2 text + 1

-- The argument is the answer of `malloc`.
unfoldable pub shell_quote_arg : Bool → Bytes → Option Bytes
unfolding quote_loop
shell_quote_arg granted text =
    if granted then some (quote_loop (quote ∷ []) text ++ (quote ∷ [])) else none

-- The bytes that `psi_tui_fprint_shell_quoted` puts out.
quoted_chars : Bytes → Bytes
quoted_chars [] = []
quoted_chars (c ∷ s) =
    let rest = quoted_chars s in
    if c == quote then quote ∷ (backslash ∷ (quote ∷ (quote ∷ rest))) else c ∷ rest

unfoldable pub fprint_shell_quoted : Bytes → Bytes
unfolding quoted_chars
fprint_shell_quoted text = quote ∷ (quoted_chars text ++ (quote ∷ []))

-- What the editor call depends on: the two answers of `malloc`, the terminal's, and the exit status.
pub record Host : Type 0 where
  pub quoted : Bool
  pub command : Bool
  pub suspend : Status
  pub system : Bytes → ℕ
  pub resume : Status

pub data Edited : Type 0 where
  no_editor out_of_memory release_failed reclaim_failed : Edited
  -- The command that `system` ran, and its status.
  exited : Bytes → ℕ → Edited

abbrev pub joined_command : Bytes → Bytes → Bytes
joined_command editor quoted_path = editor ++ (b' ' ∷ quoted_path)

-- The editor runs between the release and the reclaim of the terminal, and may draw over the screen:
-- the cache of the drawn lines is reset behind it.
unfoldable pub external_editor : Host → Bytes → Bytes → Cache → Edited × Cache
unfolding shell_quote_arg
external_editor h path [] cache = (no_editor, cache)
external_editor h path (e ∷ editor) cache = elim (shell_quote_arg h.quoted path) [
  | none ↦ (out_of_memory, cache)
  | some quoted_path ↦
      let command = joined_command (e ∷ editor) quoted_path in
      if h.command
      then elim h.suspend [
        | error ↦ (release_failed, cache)
        | ok ↦ elim h.resume [
          | error ↦ (reclaim_failed, cache)
          | ok ↦ (exited command (h.system command), reset_render_cache cache)
        ]
      ]
      else (out_of_memory, cache)
]
