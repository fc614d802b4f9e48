-- ===== src/Text/Width.antt =====
-- The Lua functions of src/lua/vm.c that measure a line: `visible_width`, `byte_index_for_width`,
-- `pad_line`, `cell_width`. An argument is one that `luaL_optinteger` has read.
pub mod Fits
pub mod Ascii
use psi_code.Prelude.{
  Integer, pos, negsuc, ℕ, zero, suc, ◌+◌, ◌-◌, ◌*◌, ◌%◌, ◌^◌, ◌≤◌, ◌<◌, ◌≡◌, refl, Bool, true,
  false, ◌&&◌, ◌||◌, Option, none, some, List, [], ◌∷◌, ◌++◌, arith, Bytes, length, drop, take,
  ◌==◌, ltb, leb, if◌then◌else◌,
}
use psi_code.Wcwidth.{Tables, Width, minus_one, cells, wcwidth}
use psi_code.Text.Scan.{Turn, go, stop, End, ran, stopped, scan}
use psi_code.Text.Escape.{read_escape}
use psi_code.Text.Cluster.{Cluster, next_cluster, unicode_max}

-- The cells of what begins here, and its bytes: none for an escape sequence.
unfoldable pub unit : Tables → Bytes → Cluster
unfolding next_cluster read_escape
unit t s = elim (read_escape s) [
  | none ↦ next_cluster t s
  | some n ↦ record { used = n; width = 0 }
]

unfoldable pub width_body : Tables → Bytes → ℕ → Turn ℕ ℕ
unfolding unit
width_body t s width = let c = unit t s in go c.used (width + c.width)

-- The loop has no exit but its test.
abbrev pub ran_out : End ℕ ℕ → ℕ
ran_out (ran n) = n
ran_out (stopped n) = n

-- `psi_vm_text_visible_width_bytes`
unfoldable pub visible_width : Tables → Bytes → ℕ
unfolding width_body
visible_width t text = ran_out (scan (width_body t) 0 text 0)

-- What the loop of `byte_index_for_width` keeps: the bytes up to `i`, and `seen`.
pub record Seen : Type 0 where
  pub at : ℕ
  pub cells_seen : ℕ

-- An escape sequence is passed whatever the width is. The early return is a `stop`.
unfoldable pub index_body : Tables → ℕ → Bytes → Seen → Turn Seen ℕ
unfolding next_cluster read_escape
index_body t width s a =
    let c = next_cluster t s in
    elim (read_escape s) [
      | none ↦
          if ltb width (a.cells_seen + c.width)
          then stop a.at
          else go c.used (record { at = a.at + c.used; cells_seen = a.cells_seen + c.width })
      | some n ↦ go n (record a { at = a.at + n })
    ]

abbrev pub index_of : ℕ → End Seen ℕ → ℕ
index_of len (ran a) = len
index_of len (stopped i) = i

-- `(int)width_arg` where it is positive, and 0 elsewhere: the cast of a 64-bit number keeps the lower
-- 32 bits.
abbrev pub positive_int : ℕ → ℕ
positive_int n = if ltb (n % 2 ^ 32) (2 ^ 31) then n % 2 ^ 32 else 0

abbrev pub at_least_zero : Integer → ℕ
at_least_zero (pos n) = positive_int n
at_least_zero (negsuc n) = 0

abbrev pub at_least_one : Integer → ℕ
at_least_one (pos n) = if ltb n 1 then 1 else n
at_least_one (negsuc n) = 1

-- `lfn_tui_text_byte_index_for_width`
unfoldable pub byte_index_for_width : Tables → Bytes → Integer → ℕ
unfolding index_body
byte_index_for_width t text width_arg =
    let width : ℕ = at_least_zero width_arg in
    if width == 0
    then 0
    else index_of (length text)
        (scan (index_body t width) 0 text (record { at = 0; cells_seen = 0 }))

unfoldable pub spaces : ℕ → Bytes
spaces zero = []
spaces (suc n) = b' ' ∷ spaces n

-- `lfn_tui_text_pad_line`
unfoldable pub pad_line : Tables → Bytes → Integer → Bytes
unfolding visible_width spaces
pad_line t text width_arg =
    let width : ℕ = at_least_one width_arg in
    let seen = visible_width t text in text ++ spaces (if ltb seen width then width - seen else 0)

-- `lfn_cell_width`
unfoldable pub cell_width : Tables → Integer → ℕ
unfolding wcwidth
cell_width t (negsuc n) = 1
cell_width t (pos cp) =
    if ltb unicode_max cp then 1 else elim (wcwidth t cp) [ minus_one ↦ 0 | cells n ↦ n ]
