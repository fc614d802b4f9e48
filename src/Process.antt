-- ===== src/Process.antt =====
-- src/core/process.c: the output buffer, and the Windows command line that a child is started with;
-- the poll of a child is in Poll.
pub mod Growth
pub mod Quote
pub mod CommandLine
pub mod Utf16
pub mod Poll
pub mod Finish
pub mod Write
mod Tests
use psi_code.Prelude.{
  ℕ, zero, suc, ◌+◌, ◌-◌, ◌*◌, ◌/◌, ◌%◌, Bool, true, false, not, ◌&&◌, ◌||◌, Option, none, some,
  ◌>>=◌, List, [], ◌∷◌, ◌++◌, Bytes, codes, strcmp_eq, length, drop, size_max, size_mod, ◌==◌, ltb,
  leb, within, if◌then◌else◌,
}

-- `struct psi_process_strbuf`, and the buffer of a handle. `alloc` answers the requests in their
-- order, and `asked` counts them.
pub record Strbuf : Type 0 where
  pub text : Bytes
  pub capacity : ℕ
  pub alloc : ℕ → Bool
  pub asked : ℕ

-- `while (required > next_capacity)`; `none` is the error. A round adds a byte at least,
-- so as many rounds as bytes are required are enough.
unfoldable pub grow : ℕ → ℕ → ℕ → Option ℕ
grow zero next required = some next
grow (suc fuel) next required =
    let doubled = grow fuel (next * 2) required in
    if ltb next required then (if ltb (size_max / 2) next then none else doubled) else some next

-- `(size_t)-1 - bytes - 1u` wraps around.
abbrev pub room : ℕ → ℕ
room bytes = (size_max + size_mod - bytes - 1) % size_mod

abbrev pub required_for : Strbuf → ℕ → ℕ
required_for b bytes = (length b.text + bytes + 1) % size_mod

unfoldable pub next_capacity_for : Strbuf → ℕ → Option ℕ
unfolding grow
next_capacity_for b bytes =
    let required = required_for b bytes in
    grow required (if b.capacity == 0 then 4096 else b.capacity) required

-- `psi_process_append_bytes`
unfoldable pub append_bytes : Strbuf → Bytes → Option Strbuf
unfolding next_capacity_for
append_bytes b bytes_in =
    let bytes = length bytes_in in
    if ltb (room bytes) (length b.text)
    then none
    else if leb (required_for b bytes) b.capacity
    then some (record b { text = b.text ++ bytes_in })
    else (do
      next ← next_capacity_for b bytes
      if b.alloc b.asked
          then some (record b { text = b.text ++ bytes_in; capacity = next; asked = b.asked + 1 })
          else none)

-- Appends one behind the other, up to the first error.
unfoldable pub append_all : List Bytes → Strbuf → Option Strbuf
unfolding append_bytes
append_all [] b = some b
append_all (p ∷ ps) b = do c ← append_bytes b p; append_all ps c

-- `psi_process_windows_arg_needs_quotes`
unfoldable pub has_special : Bytes → Bool
has_special [] = false
has_special (c ∷ cs) = let rest = has_special cs in if leb c b' ' || c == b'"' then true else rest

unfoldable pub needs_quotes : Bytes → Bool
unfolding has_special
needs_quotes [] = true
needs_quotes (c ∷ cs) = has_special (c ∷ cs)

-- a loop `while (backslashes > 0u)`, by what one round appends
unfoldable pub repeated : ℕ → Bytes → List Bytes
repeated zero piece = []
repeated (suc n) piece = piece ∷ repeated n piece

abbrev pub backslash : Bytes
backslash = b'\\' ∷ []

abbrev pub two_backslashes : Bytes
two_backslashes = b'\\' ∷ b'\\' ∷ []

-- The appends of the loop over the argument, with the backslashes that are held back.
unfoldable pub quoted_pieces : ℕ → Bytes → List Bytes
unfolding repeated
quoted_pieces held [] = repeated held two_backslashes ++ ((b'"' ∷ []) ∷ [])
quoted_pieces held (c ∷ cs) =
    let hold = quoted_pieces (held + 1) cs in
    let fresh = quoted_pieces 0 cs in
    if c == b'\\'
    then hold
    else if c == b'"'
    then repeated held two_backslashes ++ ((b'\\' ∷ b'"' ∷ []) ∷ fresh)
    else repeated held backslash ++ ((c ∷ []) ∷ fresh)

unfoldable pub arg_pieces : Bytes → List Bytes
unfolding needs_quotes quoted_pieces
arg_pieces arg = if needs_quotes arg then (b'"' ∷ []) ∷ quoted_pieces 0 arg else arg ∷ []

-- `psi_process_windows_append_quoted_arg`
unfoldable pub append_quoted_arg : Bytes → Strbuf → Option Strbuf
unfolding append_all arg_pieces
append_quoted_arg arg b = append_all (arg_pieces arg) b

-- An argument, raw or quoted, at the index `i`. `raw_tail` is `none` for a negative index.
unfoldable pub append_arg : Option ℕ → ℕ → Bytes → Strbuf → Option Strbuf
unfolding append_quoted_arg append_bytes
append_arg none i arg b = append_quoted_arg arg b
append_arg (some tail) i arg b = if leb tail i then append_bytes b arg else append_quoted_arg arg b

unfoldable pub append_args : Option ℕ → ℕ → List Bytes → Strbuf → Option Strbuf
unfolding append_arg append_bytes
append_args tail i [] b = some b
append_args tail i (arg ∷ args) b = do
  c ← if ltb 0 i then append_bytes b (b' ' ∷ []) else some b
  d ← append_arg tail i arg c
  append_args tail (i + 1) args d

abbrev pub strbuf_init : (ℕ → Bool) → Strbuf
strbuf_init alloc = record { text = []; capacity = 0; alloc = alloc; asked = 0 }

-- `psi_process_windows_build_cmdline`; `none` is the error.
unfoldable pub build_cmdline : (ℕ → Bool) → List Bytes → Option ℕ → Option Bytes → Option Bytes
unfolding append_args
build_cmdline alloc [] raw_tail override = none
build_cmdline alloc (arg0 ∷ args) raw_tail override = do
  let first : Bytes = elim override [ none ↦ arg0 | some o ↦ o ]
  b ← append_args raw_tail 0 (first ∷ args) (strbuf_init alloc)
  some b.text

-- `psi_process_ascii_equal_ci`
abbrev lower : ℕ → ℕ
lower c = if within b'A' b'Z' c then c - b'A' + b'a' else c

unfoldable pub ascii_equal_ci : Bytes → Bytes → Bool
ascii_equal_ci [] [] = true
ascii_equal_ci [] (d ∷ ds) = false
ascii_equal_ci (c ∷ cs) [] = false
ascii_equal_ci (c ∷ cs) (d ∷ ds) = if lower c == lower d then ascii_equal_ci cs ds else false

-- the loop of `psi_process_basename`, with the base so far
unfoldable pub base_from : Bytes → Bytes → Bytes
base_from base [] = base
base_from base (c ∷ cs) =
    let new = base_from cs cs in
    let old = base_from base cs in if c == b'/' || c == b'\\' then new else old

unfoldable pub basename : Bytes → Bytes
unfolding base_from
basename path = base_from path path

unfoldable pub is_cmd_exe : Bytes → Bool
unfolding basename ascii_equal_ci
is_cmd_exe path =
    ascii_equal_ci (basename path) (codes "cmd.exe") || ascii_equal_ci (basename path) (codes "cmd")

unfoldable pub is_cmd_command_switch : Bytes → Bool
unfolding ascii_equal_ci
is_cmd_command_switch arg = ascii_equal_ci arg (codes "/c") || ascii_equal_ci arg (codes "/k")

-- the loop from the index `i` on
unfoldable pub tail_from : ℕ → List Bytes → Option ℕ
unfolding is_cmd_command_switch
tail_from i [] = none
tail_from i (arg ∷ []) = none
tail_from i (arg ∷ next ∷ rest) =
    let later = tail_from (i + 1) (next ∷ rest) in
    if is_cmd_command_switch arg then some (i + 1) else later

-- `psi_process_cmd_tail_index`; `none` is -1.
unfoldable pub cmd_tail_index : Bool → List Bytes → Option ℕ
unfolding is_cmd_exe tail_from
cmd_tail_index on_windows [] = none
cmd_tail_index on_windows (arg0 ∷ args) =
    if not on_windows || not (is_cmd_exe arg0) then none else tail_from 1 args
