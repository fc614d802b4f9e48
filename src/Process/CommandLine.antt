-- ===== src/Process/CommandLine.antt =====
-- The command line that `psi_process_windows_build_cmdline` makes, read back by the child.
use psi_code.Prelude.{
  ℕ, zero, suc, ◌+◌, ◌≤◌, ◌≡◌, refl, ap, sym, ◌∙◌, Bool, true, false, Option, none, some, ◌>>=◌,
  List, [], ◌∷◌, ◌++◌, append_assoc, append-nil, arith, Bytes, length, length-append, ltb, ◌<◌,
  if◌then◌else◌, Bool-cases, inl, inr,
}
use psi_code.Process.{
  Strbuf, append_bytes, append_all, arg_pieces, needs_quotes, has_special, quoted_pieces,
  append_quoted_arg, append_arg, append_args, strbuf_init, build_cmdline,
}
use psi_code.Process.Quote.{read_arg, is_blank, flat, behind, left, read_arg-arg_pieces}

>>=-some :
    {A B : Type 0} (m : Option A) (f : A → Option B) {b : B}
    → (m >>= f) ≡ some b
    → (a : A) × (m ≡ some a) × (f a ≡ some b)
>>=-some none f e = cc
>>=-some (some a) f e = (a, refl, e)

append_bytes-text : (b c : Strbuf) (s : Bytes) → append_bytes b s ≡ some c → c.text ≡ b.text ++ s
unfolding append_bytes
append_bytes-text b c s e = ground arith

append_all-text :
    (ps : List Bytes) (b c : Strbuf) → append_all ps b ≡ some c → c.text ≡ b.text ++ flat ps
unfolding append_all
append_all-text [] b c e = ground (arith, append-nil b.text)
append_all-text (p ∷ ps) b c e =
    let (d, e1, e2) = >>=-some (append_bytes b p) (append_all ps) e in
    append_all-text ps d c e2
    ∙ ap (λ t. t ++ flat ps) (append_bytes-text b d p e1)
    ∙ append_assoc b.text p (flat ps)

-- The quoted arguments with a blank in front of each.
abbrev tail_line : List Bytes → Bytes
tail_line [] = []
tail_line (arg ∷ args) = b' ' ∷ (flat (arg_pieces arg) ++ tail_line args)

append_args-text :
    (i : ℕ) (args : List Bytes) (b c : Strbuf)
    → 1 ≤ i
    → append_args none i args b ≡ some c
    → c.text ≡ b.text ++ tail_line args
unfolding append_args append_arg append_quoted_arg
append_args-text i [] b c h e = ground (arith, append-nil b.text)
append_args-text i (arg ∷ args) b c h e =
    let later : ltb 0 i ≡ true = ground arith in
    let (d, e1, e2) = >>=-some (append_bytes b (b' ' ∷ [])) _ (rw (later, append_args) at e) in
    let (f, e3, e4) = >>=-some (append_all (arg_pieces arg) d) (append_args none (i + 1) args) e2 in
    let piece = flat (arg_pieces arg) in
    append_args-text (i + 1) args f c (omega arith) e4
    ∙ ap (λ t. t ++ tail_line args) (append_all-text (arg_pieces arg) d f e3)
    ∙ ap (λ t. (t ++ piece) ++ tail_line args) (append_bytes-text b d (b' ' ∷ []) e1)
    ∙ append_assoc (b.text ++ b' ' ∷ []) piece (tail_line args)
    ∙ append_assoc b.text (b' ' ∷ []) (piece ++ tail_line args)

-- Blanks in front of an argument are passed, however many they are.
unfoldable pub skip_blanks : Bytes → Bytes
skip_blanks [] = []
skip_blanks (c ∷ cs) = if is_blank c then skip_blanks cs else c ∷ cs

abbrev pub read_first : (Bytes → List Bytes) → Bytes → List Bytes
read_first more [] = []
read_first more (c ∷ cs) = let r = read_arg false 0 (c ∷ cs) in r.arg ∷ more r.rest

-- The arguments up to the end of the text. Each takes a byte at least.
unfoldable pub read_up_to : ℕ → Bytes → List Bytes
unfolding skip_blanks
read_up_to zero s = []
read_up_to (suc n) s = read_first (read_up_to n) (skip_blanks s)

unfoldable pub read_args : Bytes → List Bytes
unfolding read_up_to
read_args s = read_up_to (length s) s

abbrev next : List Bytes → Option Bytes
next [] = none
next (arg ∷ args) = some (flat (arg_pieces arg) ++ tail_line args)

tail_line-behind : (args : List Bytes) → tail_line args ≡ behind (next args)
tail_line-behind [] = refl
tail_line-behind (arg ∷ args) = refl

read_arg-line :
    (arg : Bytes) (args : List Bytes)
    → read_arg false 0 (flat (arg_pieces arg) ++ tail_line args)
      ≡ record { arg = arg; rest = left (next args) }
read_arg-line arg args =
    ap (λ t. read_arg false 0 (flat (arg_pieces arg) ++ t)) (tail_line-behind args)
    ∙ read_arg-arg_pieces arg (next args)

-- What an argument is written as begins with a byte that is no blank.
record Begins (s : Bytes) : Type 0 where
  first : ℕ
  others : Bytes
  whole : s ≡ first ∷ others
  no_blank : is_blank first ≡ false

plain-Begins : (arg : Bytes) → needs_quotes arg ≡ false → Begins (flat (arg ∷ []))
unfolding needs_quotes has_special
plain-Begins [] h = absurd (cc h)
plain-Begins (c ∷ cs) h = record {
  first = c;
  others = cs ++ [];
  whole = refl;
  no_blank = ground (arith, h);
}

arg_pieces-Begins : (arg : Bytes) → Begins (flat (arg_pieces arg))
unfolding arg_pieces
arg_pieces-Begins arg = elim (Bool-cases (needs_quotes arg)) [
  | inl q ↦
      rw (q, arg_pieces)
        record { first = b'"'; others = flat (quoted_pieces 0 arg); whole = refl; no_blank = refl }
  | inr p ↦ rw (p, arg_pieces) (plain-Begins arg p)
]

read_first-line :
    (more : Bytes → List Bytes) (arg : Bytes) (args : List Bytes)
    → read_first more (skip_blanks (flat (arg_pieces arg) ++ tail_line args))
      ≡ arg ∷ more (left (next args))
unfolding skip_blanks
read_first-line more arg args =
    let b = arg_pieces-Begins arg in
    let tail = tail_line args in
    let line = ap (λ s. s ++ tail) b.whole in
    let read : read_arg false 0 (b.first ∷ (b.others ++ tail))
        ≡ record { arg = arg; rest = left (next args) } =
      ap (read_arg false 0) (sym line) ∙ read_arg-line arg args in
    rw (b.whole, b.no_blank) (ap (λ r. r.arg ∷ more r.rest) read)

read_up_to-line :
    (n : ℕ) (arg : Bytes) (args : List Bytes)
    → length args < n
    → read_up_to n (flat (arg_pieces arg) ++ tail_line args) ≡ arg ∷ args
unfolding read_up_to skip_blanks
read_up_to-line zero arg args h = absurd (omega (arith, h))
read_up_to-line (suc n) arg [] h =
    read_first-line (read_up_to n) arg [] ∙ ap (λ l. arg ∷ l) (nothing n)
  where
    nothing : (n : ℕ) → read_up_to n [] ≡ []
    nothing zero = refl
    nothing (suc n) = refl
read_up_to-line (suc n) arg (b ∷ bs) h =
    read_first-line (read_up_to n) arg (b ∷ bs)
    ∙ ap (λ l. arg ∷ l) (read_up_to-line n b bs (omega (arith, h)))

length-tail_line : (args : List Bytes) → length args ≤ length (tail_line args)
length-tail_line [] = omega arith
length-tail_line (arg ∷ args) =
    omega (arith, length-tail_line args, length-append (flat (arg_pieces arg)) (tail_line args))

read_args-line :
    (arg : Bytes) (args : List Bytes)
    → read_args (flat (arg_pieces arg) ++ tail_line args) ≡ arg ∷ args
unfolding read_args
read_args-line arg args =
    let b = arg_pieces-Begins arg in
    let some_byte = ap (λ s. length s) b.whole in
    read_up_to-line (length (flat (arg_pieces arg) ++ tail_line args)) arg args (
      omega (
        arith,
        length-tail_line args,
        length-append (flat (arg_pieces arg)) (tail_line args),
        some_byte,
      ))

abbrev text_of : Option Bytes → Bytes
text_of none = []
text_of (some line) = line

build_cmdline-text :
    (alloc : ℕ → Bool) (arg : Bytes) (args : List Bytes) (line : Bytes)
    → build_cmdline alloc (arg ∷ args) none none ≡ some line
    → line ≡ flat (arg_pieces arg) ++ tail_line args
unfolding build_cmdline append_args append_arg append_quoted_arg
build_cmdline-text alloc arg args line e =
    let b = strbuf_init alloc in
    let (c, e1, e2) =
      >>=-some (append_all (arg_pieces arg) b >>= append_args none (0 + 1) args) _ e in
    let (d, e3, e4) = >>=-some (append_all (arg_pieces arg) b) (append_args none (0 + 1) args) e1 in
    ap text_of (sym e2)
    ∙ append_args-text 1 args d c (omega arith) e4
    ∙ ap (λ t. t ++ tail_line args) (append_all-text (arg_pieces arg) b d e3)

-- When the command line of an executable and its arguments is built with no raw tail and no other
-- executable, a program that takes arguments from it up to its end, passing any run of blanks in
-- front of each and reading quotes and backslashes by the rules of CommandLineToArgvW for
-- arguments (the name of the executable like the others), gets exactly the executable and these
-- arguments, whatever they hold, empty ones included.
pub build_cmdline-read_args :
    (alloc : ℕ → Bool) (arg : Bytes) (args : List Bytes) (line : Bytes)
    → build_cmdline alloc (arg ∷ args) none none ≡ some line
    → read_args line ≡ arg ∷ args
build_cmdline-read_args alloc arg args line e =
    ap read_args (build_cmdline-text alloc arg args line e) ∙ read_args-line arg args
