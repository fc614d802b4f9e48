-- ===== src/Process/Tests.antt =====
-- Runs of the command line of a child, and its theorems at concrete ones.
use psi_code.Prelude.{
  zero, suc, ◌+◌, ◌*◌, ◌≤◌, length, List, ℕ, ◌≡◌, refl, Bool, true, false, none, some, [], ◌∷◌,
  ◌++◌, arith, Bytes, codes,
}
use psi_code.Process.{Strbuf, append_bytes, arg_pieces, build_cmdline, cmd_tail_index}
use psi_code.Process.Poll.{Event, got, end, again, Handle, chunk, Polled, poll, drain_max}
use psi_code.Process.Poll.Steps.{AfterAll, poll-After, poll-returns}
use psi_code.Process.Quote.{read_arg, flat, behind, read_arg-arg_pieces}
use psi_code.Process.CommandLine.{read_args, build_cmdline-read_args}
use psi_code.Process.Utf16.{utf8_to_utf16, encoded, read_utf16, read_utf16-utf8_to_utf16}

abbrev granting : ℕ → Bool
granting n = true

abbrev output : Strbuf
output = record { text = codes "ab"; capacity = 4096; alloc = granting; asked = 1 }

-- `say "hi"\`
abbrev message : Bytes
message = codes "say " ++ b'"' ∷ codes "hi" ++ b'"' ∷ b'\\' ∷ []

read_arg-arg_pieces_example :
    read_arg false 0 (flat (arg_pieces message) ++ behind (some (codes "next")))
    ≡ record { arg = message; rest = codes "next" }
read_arg-arg_pieces_example = read_arg-arg_pieces message (some (codes "next"))

-- `"say \"hi\"\\"`
abbrev quoted : Bytes
quoted =
    b'"' ∷ codes "say " ++ b'\\' ∷ b'"' ∷ codes "hi" ++ b'\\' ∷ b'"' ∷ b'\\' ∷ b'\\' ∷ b'"' ∷ []

arg_pieces-message : flat (arg_pieces message) ≡ quoted
unfolding arg_pieces
arg_pieces-message = refl

build_cmdline-message :
    build_cmdline granting (codes "tool" ∷ message ∷ []) none none ≡ some (codes "tool " ++ quoted)
unfolding build_cmdline append_bytes
build_cmdline-message = refl

-- With an empty argument at the end.
abbrev line : Bytes
line = codes "tool " ++ quoted ++ b' ' ∷ b'"' ∷ b'"' ∷ []

build_cmdline-empty :
    build_cmdline granting (codes "tool" ∷ message ∷ [] ∷ []) none none ≡ some line
unfolding build_cmdline append_bytes
build_cmdline-empty = refl

build_cmdline-read_args_example : read_args line ≡ codes "tool" ∷ message ∷ [] ∷ []
build_cmdline-read_args_example =
    build_cmdline-read_args granting (codes "tool") (message ∷ [] ∷ []) line build_cmdline-empty

cmd_tail_index-cmd :
    cmd_tail_index true (codes "C:/Windows/CMD.exe" ∷ codes "/C" ∷ codes "dir" ∷ []) ≡ some 2
unfolding cmd_tail_index
cmd_tail_index-cmd = refl

utf8_to_utf16-smile :
    utf8_to_utf16 (0xf0 ∷ 0x9f ∷ 0x98 ∷ 0x80 ∷ 0xff ∷ []) ≡ 0xd83d ∷ 0xde00 ∷ 0xfffd ∷ []
unfolding utf8_to_utf16
utf8_to_utf16-smile = refl

read_utf16-utf8_to_utf16_example :
    read_utf16 (utf8_to_utf16 (encoded (b'a' ∷ 0x1f600 ∷ []))) ≡ b'a' ∷ 0x1f600 ∷ []
read_utf16-utf8_to_utf16_example =
    read_utf16-utf8_to_utf16 (b'a' ∷ 0x1f600 ∷ []) ((omega arith, refl), ((omega arith, refl), tt))

abbrev child : Handle
child = record {
  output = record output { text = [] };
  truncated = false;
  aborted = false;
  eof_seen = false;
  reaped = false;
  signals = 0;
}

abbrev script : List Event
script = again false false ∷ got b'h' (codes "i") ∷ again true false ∷ end ∷ []

abbrev got_hi : Handle
got_hi = record child { output = record output { text = codes "hi" } }

poll-run :
    poll script true false 100 child
    ≡ some (record { outcome = chunk (codes "hi"); handle = got_hi; rest = end ∷ [] })
unfolding poll append_bytes
poll-run = refl

poll-After_example : AfterAll [] script (codes "hi") (poll script true false 100 child)
poll-After_example =
    poll-After script true false 100 [] child
      (record { text = refl; marked = refl; grants = λ n. refl; sized = omega arith })

-- Enough answers for a poll of 60 ms.
waits : ℕ → List Event
waits zero = []
waits (suc n) = again false false ∷ waits n

length-waits : (n : ℕ) → length (waits n) ≡ n
unfolding waits
length-waits zero = refl
length-waits (suc n) = omega (arith, length-waits n)

abbrev enough : ℕ
enough = drain_max + 3

poll-returns_example : (p : Polled) × (poll (waits enough) true false 60 child ≡ some p)
poll-returns_example = poll-returns (waits enough) true false 60 child many
  where
    many_of : (n : ℕ) → n ≡ drain_max + 3 → 60 + 20 * drain_max ≤ 20 * n
    many_of n e = omega (arith, e)

    many : 60 + 20 * drain_max ≤ 20 * length (waits enough)
    many = many_of (length (waits enough)) (length-waits enough)
