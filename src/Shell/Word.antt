-- ===== src/Shell/Word.antt =====
-- A word of a POSIX shell, and what the quoting of src/lua/vm.c and src/runtime/tui_mode.c reads as.
use psi_code.Prelude.{
  ℕ, ◌+◌, ◌≤◌, ◌≡◌, refl, sym, ap, ◌∙◌, Bool, true, false, ◌||◌, Option, none, some, [], ◌∷◌, ◌++◌,
  append_assoc, append-nil, arith, Bytes, length, length-append, ◌==◌, if◌then◌else◌, Bool-cases,
  inl, inr, ok,
}
use psi_code.Screen.Render.{Cache, reset_render_cache}
use psi_code.Shell.{
  quote, backslash, quote_extra, quote_loop, quote_size, shell_quote_arg, quoted_chars,
  fprint_shell_quoted, Host, exited, external_editor,
}

pub data Mode : Type 0 where
  bare single escaped : Mode

-- A byte that ends a word when it is not quoted: blanks and the operators of the shell.
abbrev pub ends_word : ℕ → Bool
ends_word c =
    c == b' '
    || (c == 0x09
        || (c == 0x0a
            || (c == b'|'
                || (c == b'&'
                    || (c == b';' || (c == b'<' || (c == b'>' || (c == b'(' || c == b')'))))))))

abbrev pub before : ℕ → Option (Bytes × Bytes) → Option (Bytes × Bytes)
before c none = none
before c (some (word, rest)) = some (c ∷ word, rest)

-- The word and the rest, by the rules of XCU 2.2 for single quotes and the backslash; `none` for
-- a quote or an escape that is not ended. Expansions and double quotes are no concern of a quoted
-- word.
unfoldable pub read_word : Mode → Bytes → Option (Bytes × Bytes)
read_word bare [] = some ([], [])
read_word single [] = none
read_word escaped [] = none
read_word single (c ∷ s) =
    let on = before c (read_word single s) in
    let closed = read_word bare s in if c == quote then closed else on
read_word escaped (c ∷ s) = before c (read_word bare s)
read_word bare (c ∷ s) =
    let opened = read_word single s in
    let escape = read_word escaped s in
    let on = before c (read_word bare s) in
    if c == quote
    then opened
    else if c == backslash
    then escape
    else if ends_word c
    then some ([], c ∷ s)
    else on

-- The word ends here.
abbrev pub EndsWord : Bytes → Type 0
EndsWord [] = Unit {0}
EndsWord (c ∷ s) = ends_word c ≡ true

loop-chars : (out text : Bytes) → quote_loop out text ≡ out ++ quoted_chars text
unfolding quote_loop quoted_chars
loop-chars out [] = sym (append-nil out)
loop-chars out (c ∷ s) =
    let four : Bytes = quote ∷ (backslash ∷ (quote ∷ (quote ∷ []))) in
    elim (Bool-cases (c == quote)) [
      | inl e ↦ rw e (loop-chars (out ++ four) s ∙ append_assoc out four (quoted_chars s))
      | inr e ↦ rw e (loop-chars (out ++ (c ∷ [])) s ∙ append_assoc out (c ∷ []) (quoted_chars s))
    ]

-- Both quoting routines make the same text.
shell_quote_arg-fprint :
    (text : Bytes) → shell_quote_arg true text ≡ some (fprint_shell_quoted text)
unfolding shell_quote_arg fprint_shell_quoted
shell_quote_arg-fprint text = ap (λ s. some (s ++ (quote ∷ []))) (loop-chars (quote ∷ []) text)

extra-add :
    (extra : ℕ) (text : Bytes)
    → quote_extra extra text + length text ≡ extra + length (quoted_chars text)
unfolding quote_extra quoted_chars
extra-add extra [] = omega arith
extra-add extra (c ∷ s) = elim (Bool-cases (c == quote)) [
  | inl e ↦ rw e (omega (arith, extra-add (extra + 3) s))
  | inr e ↦ rw e (omega (arith, extra-add extra s))
]

-- The quoted text and its NUL take exactly the bytes that were asked of malloc.
shell_quote_arg-size :
    (text out : Bytes) → shell_quote_arg true text ≡ some out → length out + 1 ≡ quote_size text
unfolding quote_size fprint_shell_quoted
shell_quote_arg-size text out h =
    let e : fprint_shell_quoted text ≡ out = cc (shell_quote_arg-fprint text) in
    rw⁻¹ e (omega (arith, extra-add 2 text, length-append (quoted_chars text) (quote ∷ [])))

bare-end : (rest : Bytes) → EndsWord rest → read_word bare rest ≡ some ([], rest)
unfolding read_word
bare-end [] h = refl
bare-end (c ∷ s) h =
    let no_quote : (c == quote) ≡ false = ground arith in
    let no_backslash : (c == backslash) ≡ false = ground arith in
    rw (no_quote, no_backslash, h) refl

single-literal :
    (c : ℕ) (s : Bytes)
    → (c == quote) ≡ false
    → read_word single (c ∷ s) ≡ before c (read_word single s)
unfolding read_word
single-literal c s e = rw e

single-quote :
    (s : Bytes)
    → read_word single (quote ∷ (backslash ∷ (quote ∷ (quote ∷ s))))
      ≡ before quote (read_word single s)
unfolding read_word
single-quote s = refl

chars-single :
    (text rest : Bytes)
    → EndsWord rest
    → read_word single (quoted_chars text ++ (quote ∷ rest)) ≡ some (text, rest)
unfolding quoted_chars
chars-single [] rest h = bare_behind rest h
  where
    bare_behind : (rest : Bytes) → EndsWord rest → read_word single (quote ∷ rest) ≡ some ([], rest)
    bare_behind rest h = unfold read_word in bare-end rest h
chars-single (c ∷ s) rest h = elim (Bool-cases (c == quote)) [
  | inl e ↦
      let q : quote ≡ c = ground arith in
      rw (e, single-quote (quoted_chars s ++ (quote ∷ rest)), chars-single s rest h)
        (ap (λ b. some (b ∷ s, rest)) q)
  | inr e ↦
      rw (e, single-literal c (quoted_chars s ++ (quote ∷ rest)) e, chars-single s rest h) refl
]

-- Whatever a text holds, its quoted form in front of the end of a word is read by a shell as one
-- word that is the text.
pub shell_quote_arg-read_word :
    (text rest out : Bytes)
    → EndsWord rest
    → shell_quote_arg true text ≡ some out
    → read_word bare (out ++ rest) ≡ some (text, rest)
unfolding read_word fprint_shell_quoted
shell_quote_arg-read_word text rest out h e =
    let same : fprint_shell_quoted text ≡ out = cc (shell_quote_arg-fprint text) in
    rw⁻¹ same (rw (append_assoc (quoted_chars text) (quote ∷ []) rest) (chars-single text rest h))

-- With an editor named, the allocations granted and the terminal released and reclaimed, the
-- command that runs is the editor, a blank and a word that a shell reads as the path and nothing
-- more, and the cache of drawn lines is reset.
pub external_editor-path :
    (h : Host) (path editor : Bytes) (cache : Cache)
    → 1 ≤ length editor
    → h.quoted ≡ true
    → h.command ≡ true
    → h.suspend ≡ ok
    → h.resume ≡ ok
    → (word : Bytes) × (let command = editor ++ (b' ' ∷ word) in
        external_editor h path editor cache
        ≡ (exited command (h.system command), reset_render_cache cache))
      × (read_word bare word ≡ some (path, []))
unfolding external_editor shell_quote_arg
external_editor-path h path [] cache n q m s r = absurd (omega arith)
external_editor-path h path (e ∷ editor) cache n q m s r =
    let word = quote_loop (quote ∷ []) path ++ (quote ∷ []) in
    (
      word,
      rw (q, m, s, r) refl,
      rw (append-nil word) at (shell_quote_arg-read_word path [] word tt refl),
    )
