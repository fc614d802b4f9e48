-- ===== src/Shell/Tests.antt =====
-- Runs of the quoting, and its theorems at concrete texts.
use psi_code.Prelude.{◌≡◌, refl, true, false, some, [], ◌∷◌, ◌++◌, arith, Bytes, codes, ok}
use psi_code.Screen.Render.{Cache, reset_render_cache}
use psi_code.Shell.{shell_quote_arg, Host, exited, external_editor}
use psi_code.Shell.Word.{bare, read_word, shell_quote_arg-read_word, external_editor-path}

abbrev its : Bytes
its = codes "it's here"

abbrev its_quoted : Bytes
its_quoted = codes "'it'\\''s here'"

quoted : shell_quote_arg true its ≡ some its_quoted
unfolding shell_quote_arg
quoted = refl

shell_quote_arg-read_word_example :
    read_word bare (its_quoted ++ codes " next") ≡ some (its, codes " next")
shell_quote_arg-read_word_example =
    shell_quote_arg-read_word its (codes " next") its_quoted refl quoted

abbrev willing : Host
willing = record { quoted = true; command = true; suspend = ok; system = λ c. 0; resume = ok }

abbrev drawn : Cache
drawn = record {
  lines = some (codes "a" ∷ []);
  top = 1;
  cursor_row = 1;
  cursor_col = 1;
  cursor_visible = true;
  frame_active = false;
}

external_editor-path_example :
    (word : Bytes) × (external_editor willing its (codes "vi") drawn
      ≡ (exited (codes "vi" ++ (b' ' ∷ word)) 0, reset_render_cache drawn))
    × (read_word bare word ≡ some (its, []))
external_editor-path_example =
    external_editor-path willing its (codes "vi") drawn (omega arith) refl refl refl refl
