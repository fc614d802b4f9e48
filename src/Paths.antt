-- ===== src/Paths.antt =====
-- The path functions of src/lua/vm.c. A C string that is NULL is `none`, as is a NULL result;
-- `granted` is the answer of the allocator to the one request of a call.
pub mod Parent
pub mod Directories
mod Tests
use psi_code.Prelude.{
  byte_at, ℕ, zero, suc, ◌+◌, ◌-◌, Bool, true, false, not, ◌&&◌, ◌||◌, Option, none, some, ◌>>=◌,
  List, [], ◌∷◌, ◌++◌, Bytes, codes, strcmp_eq, length, take, drop, size_max, ◌==◌, ltb, leb,
  within, if◌then◌else◌,
}

abbrev pub is_separator : ℕ → Bool
is_separator c = c == b'/' || c == b'\\'

-- `isalpha`, in the C locale
abbrev is_alpha : ℕ → Bool
is_alpha c = within b'A' b'Z' c || within b'a' b'z' c

unfoldable pub is_abs_path : Bytes → Bool
unfolding byte_at
is_abs_path path =
    if length path == 0
    then false
    else if byte_at path 0 == b'/'
    then true
    else is_alpha (byte_at path 0) && byte_at path 1 == b':' && is_separator (byte_at path 2)

-- `psi_strdup`
abbrev pub copy : Bool → Bytes → Option Bytes
copy granted s = if granted then some s else none

-- The three strings that are put together, unless their length overflows.
unfoldable pub joined : Bool → Bytes → Bytes → Option Bytes
unfolding byte_at
joined granted base name =
    let need : Bool = not (is_separator (byte_at base (length base - 1))) in
    let separator : Bytes = if need then b'/' ∷ [] else [] in
    if ltb (size_max - length separator) (length base)
    then none
    else if ltb (size_max - length base - length separator - 1) (length name)
    then none
    else copy granted (base ++ (separator ++ name))

unfoldable pub path_join : Bool → Option Bytes → Option Bytes → Option Bytes
unfolding is_abs_path joined strcmp_eq
path_join granted none none = none
path_join granted (some base) none = copy granted base
path_join granted none (some name) = copy granted name
path_join granted (some base) (some name) =
    if length base == 0 || is_abs_path name || strcmp_eq base (codes ".")
    then copy granted name
    else if length name == 0
    then copy granted base
    else joined granted base name

-- `p++` behind an `@`
abbrev behind_at : Bytes → Bytes
behind_at [] = []
behind_at (c ∷ cs) = if c == b'@' then cs else c ∷ cs

-- `home` is what `getenv("HOME")` gives.
unfoldable pub expand_path : Bool → Option Bytes → Bytes → Option Bytes
unfolding path_join byte_at
expand_path granted home path =
    let p = behind_at path in
    let tilde : Bool = byte_at p 0 == b'~' && (length p == 1 || byte_at p 1 == b'/') in
    if not tilde then copy granted p else elim home [
      | none ↦ copy granted p
      | some dir ↦
          if length dir == 0
          then copy granted p
          else if length p == 1
          then copy granted dir
          else path_join granted (some dir) (some (drop 2 p))
    ]

-- `cwd` is what `psi_vm_current_cwd` gives, and `expanding` and `joining` are the allocator's
-- answers.
unfoldable pub resolve_path : Bool → Bool → Option Bytes → Option Bytes → Bytes → Option Bytes
unfolding expand_path is_abs_path path_join
resolve_path expanding joining home cwd path = do
  expanded ← expand_path expanding home path
  if is_abs_path expanded
      then some expanded
      else (do dir ← cwd; path_join joining (some dir) (some expanded))

-- `while (end > 1u && ...) end--`, which `parent_directory` does twice
unfoldable pub trim : Bytes → ℕ → ℕ
unfolding byte_at
trim path zero = zero
trim path (suc n) =
    let shorter = trim path n in
    if ltb 1 (suc n) && is_separator (byte_at path n) then shorter else suc n

-- `while (i > 0u && ...) i--` in front of the last separator
unfoldable pub last_component : Bytes → ℕ → ℕ
unfolding byte_at
last_component path zero = zero
last_component path (suc n) =
    let shorter = last_component path n in if is_separator (byte_at path n) then suc n else shorter

unfoldable pub parent_directory : Bool → Bytes → Option Bytes
unfolding trim last_component byte_at
parent_directory granted path =
    let i = last_component path (trim path (length path)) in
    let j = trim path i in
    if length path == 0
    then copy granted (codes ".")
    else if i == 0
    then copy granted (codes ".")
    else if j == 1 && is_separator (byte_at path 0)
    then copy granted (codes "/")
    else copy granted (take j path)
