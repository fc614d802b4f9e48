-- ===== src/Process/Quote.antt =====
-- What a Windows program reads back from a quoted argument, by the documented rules of
-- `CommandLineToArgvW`: a quote opens and closes, 2n backslashes in front of a quote are n, 2n + 1
-- are n and the quote is a letter, all others are letters, and a blank outside of quotes ends it.
use psi_code.Prelude.{
  ℕ, zero, suc, ◌+◌, ◌*◌, ◌/◌, ◌%◌, ◌≡◌, refl, ap, sym, ◌∙◌, Bool, true, false, not, ◌&&◌, ◌||◌,
  Option, none, some, List, [], ◌∷◌, ◌++◌, append_assoc, append-nil, arith, Bytes, ◌==◌,
  if◌then◌else◌, Bool-cases, inl, inr,
}
use psi_code.Process.{
  needs_quotes, has_special, repeated, backslash, two_backslashes, quoted_pieces, arg_pieces,
}

-- The argument that was read, and what is left behind it.
pub record Read : Type 0 where
  pub arg : Bytes
  pub rest : Bytes

abbrev pub slashes : ℕ → Bytes
slashes zero = []
slashes (suc n) = b'\\' ∷ slashes n

abbrev pub prepend : Bytes → Read → Read
prepend s r = record r { arg = s ++ r.arg }

abbrev pub is_blank : ℕ → Bool
is_blank c = c == b' ' || c == 0x09

-- The first argument is `quoted`, or `quoted` is whether a quote is open; `held` counts backslashes.
unfoldable pub read_arg : Bool → ℕ → Bytes → Read
read_arg quoted held [] = record { arg = slashes held; rest = [] }
read_arg quoted held (c ∷ cs) =
    let more = read_arg quoted (held + 1) cs in
    let toggled = read_arg (not quoted) 0 cs in
    let on = read_arg quoted 0 cs in
    if c == b'\\'
    then more
    else if c == b'"'
    then (if held % 2 == 0
        then prepend (slashes (held / 2)) toggled
        else prepend (slashes (held / 2) ++ b'"' ∷ []) on)
    else if is_blank c && not quoted
    then record { arg = slashes held; rest = cs }
    else prepend (slashes held ++ c ∷ []) on

-- The bytes of the pieces.
abbrev pub flat : List Bytes → Bytes
flat [] = []
flat (p ∷ ps) = p ++ flat ps

flat-append : (ps qs : List Bytes) → flat (ps ++ qs) ≡ flat ps ++ flat qs
flat-append [] qs = refl
flat-append (p ∷ ps) qs =
    ap (λ l. p ++ l) (flat-append ps qs) ∙ sym (append_assoc p (flat ps) (flat qs))

-- Backslashes are counted.
read_arg-slashes :
    (quoted : Bool) (held n : ℕ) (s : Bytes)
    → read_arg quoted held (slashes n ++ s) ≡ read_arg quoted (held + n) s
unfolding read_arg
read_arg-slashes quoted held zero s = ap (λ h. read_arg quoted h s) (omega arith)
read_arg-slashes quoted held (suc n) s =
    read_arg-slashes quoted (held + 1) n s ∙ ap (λ h. read_arg quoted h s) (omega arith)

flat-backslashes :
    (n : ℕ) (ps : List Bytes) → flat (repeated n backslash ++ ps) ≡ slashes n ++ flat ps
unfolding repeated
flat-backslashes zero ps = refl
flat-backslashes (suc n) ps = ap (λ l. b'\\' ∷ l) (flat-backslashes n ps)

flat-two_backslashes :
    (n : ℕ) (ps : List Bytes) → flat (repeated n two_backslashes ++ ps) ≡ slashes (n * 2) ++ flat ps
unfolding repeated
flat-two_backslashes zero ps = refl
flat-two_backslashes (suc n) ps =
    let twice : suc n * 2 ≡ suc (suc (n * 2)) = omega arith in
    rw twice (ap (λ l. b'\\' ∷ b'\\' ∷ l) (flat-two_backslashes n ps))

prepend-prepend : (s t : Bytes) (r : Read) → prepend s (prepend t r) ≡ prepend (s ++ t) r
prepend-prepend s t r = ap (λ a. record r { arg = a }) (sym (append_assoc s t r.arg))

slashes_suc : (n : ℕ) (s : Bytes) → slashes (n + 1) ++ s ≡ slashes n ++ b'\\' ∷ s
slashes_suc n s = let one : n + 1 ≡ suc n = omega arith in rw one (shift n)
  where
    shift : (n : ℕ) → slashes (suc n) ++ s ≡ slashes n ++ b'\\' ∷ s
    shift zero = refl
    shift (suc n) = ap (λ l. b'\\' ∷ l) (shift n)

-- a letter within quotes, behind backslashes
read_arg-letter :
    (held c : ℕ) (cs : Bytes)
    → (c == b'\\') ≡ false
    → (c == b'"') ≡ false
    → read_arg true held (c ∷ cs) ≡ prepend (slashes held ++ c ∷ []) (read_arg true 0 cs)
unfolding read_arg
read_arg-letter held c cs h k = elim (Bool-cases (is_blank c)) [
  | inl b ↦ rw (h, k, b, read_arg) refl
  | inr b ↦ rw (h, k, b, read_arg) refl
]

-- the closing quote, behind backslashes that are doubled
read_arg-close :
    (held : ℕ) (tail : Bytes)
    → read_arg true (held * 2) (b'"' ∷ tail) ≡ prepend (slashes held) (read_arg false 0 tail)
unfolding read_arg
read_arg-close held tail =
    let even : (held * 2 % 2 == 0) ≡ true = ground arith in
    let half : held * 2 / 2 ≡ held = omega arith in rw (even, half, read_arg) refl

-- a quote that is a letter
read_arg-quote :
    (held : ℕ) (tail : Bytes)
    → read_arg true (held * 2) (b'\\' ∷ b'"' ∷ tail)
      ≡ prepend (slashes held ++ b'"' ∷ []) (read_arg true 0 tail)
unfolding read_arg
read_arg-quote held tail =
    let odd : ((held * 2 + 1) % 2 == 0) ≡ false = ground arith in
    let half : (held * 2 + 1) / 2 ≡ held = omega arith in rw (odd, half, read_arg) refl

read_arg-run :
    (n : ℕ) (s tail : Bytes)
    → read_arg true 0 ((slashes n ++ s) ++ tail) ≡ read_arg true n (s ++ tail)
read_arg-run n s tail =
    ap (read_arg true 0) (append_assoc (slashes n) s tail)
    ∙ read_arg-slashes true 0 n (s ++ tail)
    ∙ ap (λ h. read_arg true h (s ++ tail)) (omega arith)

prepend-then :
    (held x : ℕ) (cs : Bytes) (r q : Read)
    → r ≡ prepend cs q
    → prepend (slashes held ++ x ∷ []) r ≡ prepend (slashes held ++ x ∷ cs) q
prepend-then held x cs r q e =
    ap (prepend (slashes held ++ x ∷ [])) e
    ∙ prepend-prepend (slashes held ++ x ∷ []) cs q
    ∙ ap (λ s. prepend s q) (append_assoc (slashes held) (x ∷ []) cs)

-- What stands in quotes is read back, up to what follows the closing quote.
read_arg-quoted_pieces :
    (held : ℕ) (arg tail : Bytes)
    → read_arg true 0 (flat (quoted_pieces held arg) ++ tail)
      ≡ prepend (slashes held ++ arg) (read_arg false 0 tail)
unfolding quoted_pieces
read_arg-quoted_pieces held [] tail =
    ap (λ l. read_arg true 0 (l ++ tail)) (flat-two_backslashes held ((b'"' ∷ []) ∷ []))
    ∙ read_arg-run (held * 2) (b'"' ∷ []) tail
    ∙ read_arg-close held tail
    ∙ ap (λ s. prepend s (read_arg false 0 tail)) (sym (append-nil (slashes held)))
read_arg-quoted_pieces held (c ∷ cs) tail =
    let end = read_arg false 0 tail in
    let fresh = quoted_pieces 0 cs in
    let rest = read_arg-quoted_pieces 0 cs tail in
    elim (Bool-cases (c == b'\\')) [
      | inl e ↦
          let is_backslash : c ≡ b'\\' = ground arith in
          rw e (
            read_arg-quoted_pieces (held + 1) cs tail
            ∙ ap (λ s. prepend s end)
                (slashes_suc held cs ∙ ap (λ x. slashes held ++ x ∷ cs) (sym is_backslash)))
      | inr e ↦ elim (Bool-cases (c == b'"')) [
        | inl q ↦
            let is_quote : c ≡ b'"' = ground arith in
            rw (e, q)
              (ap (λ l. read_arg true 0 (l ++ tail))
                  (flat-two_backslashes held ((b'\\' ∷ b'"' ∷ []) ∷ fresh))
                ∙ read_arg-run (held * 2) (b'\\' ∷ b'"' ∷ flat fresh) tail
                ∙ read_arg-quote held (flat fresh ++ tail)
                ∙ prepend-then held b'"' cs (read_arg true 0 (flat fresh ++ tail)) end rest
                ∙ ap (λ x. prepend (slashes held ++ x ∷ cs) end) (sym is_quote))
        | inr n ↦
            rw (e, n)
              (ap (λ l. read_arg true 0 (l ++ tail)) (flat-backslashes held ((c ∷ []) ∷ fresh))
                ∙ read_arg-run held (c ∷ flat fresh) tail
                ∙ read_arg-letter held c (flat fresh ++ tail) e n
                ∙ prepend-then held c cs (read_arg true 0 (flat fresh ++ tail)) end rest)
      ]
    ]

-- What may follow an argument: nothing, or a blank and more.
abbrev pub behind : Option Bytes → Bytes
behind none = []
behind (some rest) = b' ' ∷ rest

abbrev pub left : Option Bytes → Bytes
left none = []
left (some rest) = rest

read_arg-behind :
    (held : ℕ) (t : Option Bytes)
    → read_arg false held (behind t) ≡ record { arg = slashes held; rest = left t }
unfolding read_arg
read_arg-behind held none = refl
read_arg-behind held (some rest) = refl

-- An argument without blanks and quotes is read as it stands.
read_arg-plain :
    (held : ℕ) (arg : Bytes) (t : Option Bytes)
    → has_special arg ≡ false
    → read_arg false held (arg ++ behind t) ≡ record { arg = slashes held ++ arg; rest = left t }
unfolding read_arg has_special
read_arg-plain held [] t h =
    read_arg-behind held t
    ∙ ap (λ a. record { arg = a; rest = left t }) (sym (append-nil (slashes held)))
read_arg-plain held (c ∷ cs) t h =
    let not_quote : (c == b'"') ≡ false = ground arith in
    let not_blank : is_blank c ≡ false = ground arith in
    let rest : has_special cs ≡ false = ground arith in
    elim (Bool-cases (c == b'\\')) [
      | inl e ↦
          let is_backslash : c ≡ b'\\' = ground arith in
          rw (e, read_arg)
            (read_arg-plain (held + 1) cs t rest
              ∙ ap (λ a. record { arg = a; rest = left t })
                  (slashes_suc held cs ∙ ap (λ x. slashes held ++ x ∷ cs) (sym is_backslash)))
      | inr e ↦
          rw (e, not_quote, not_blank, read_arg)
            (ap (prepend (slashes held ++ c ∷ [])) (read_arg-plain 0 cs t rest)
              ∙ ap (λ a. record { arg = a; rest = left t })
                  (append_assoc (slashes held) (c ∷ []) cs))
    ]

read_arg-open : (s : Bytes) → read_arg false 0 (b'"' ∷ s) ≡ read_arg true 0 s
unfolding read_arg
read_arg-open s = refl

no_special : (arg : Bytes) → needs_quotes arg ≡ false → has_special arg ≡ false
unfolding needs_quotes
no_special [] h = cc
no_special (c ∷ cs) h = h

-- A quoted argument is read back as it was, whatever it holds, and the reader stops behind it.
pub read_arg-arg_pieces :
    (arg : Bytes) (t : Option Bytes)
    → read_arg false 0 (flat (arg_pieces arg) ++ behind t) ≡ record { arg = arg; rest = left t }
unfolding arg_pieces
read_arg-arg_pieces arg t = elim (Bool-cases (needs_quotes arg)) [
  | inl quotes ↦
      rw (quotes, arg_pieces)
        (read_arg-open (flat (quoted_pieces 0 arg) ++ behind t)
          ∙ read_arg-quoted_pieces 0 arg (behind t)
          ∙ ap (prepend arg) (read_arg-behind 0 t)
          ∙ ap (λ a. record { arg = a; rest = left t }) (append-nil arg))
  | inr plain ↦
      rw (plain, arg_pieces)
        (ap (λ a. read_arg false 0 (a ++ behind t)) (append-nil arg)
          ∙ read_arg-plain 0 arg t (no_special arg plain))
]
