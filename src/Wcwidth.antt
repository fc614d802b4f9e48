-- ===== src/Wcwidth.antt =====
-- src/core/wcwidth.c: the cell width of a code point. The tables are data taken over from the
-- widecharwidth project, and a parameter here; the search in them and their order are the code's.
pub mod Search
mod Tests
use psi_code.Prelude.{
  ℕ, zero, suc, ◌+◌, ◌-◌, ◌/◌, Option, none, some, Bool, true, false, List, [], ◌∷◌, ltb,
  if◌then◌else◌, length,
}

-- `struct psi_wcwidth_range`
pub record Range : Type 0 where
  pub lo : ℕ
  pub hi : ℕ

-- An entry of a table; no caller reads past the end.
abbrev pub entry : List Range → ℕ → Range
entry [] i = record { lo = 0; hi = 0 }
entry (r ∷ rs) zero = r
entry (r ∷ rs) (suc i) = entry rs i

-- `while (lo <= hi)`, with `end` for `hi + 1`, which may be 0. `none` means that the fuel ran out.
unfoldable pub search : List Range → ℕ → ℕ → ℕ → ℕ → Option Bool
search t cp zero lo end = none
search t cp (suc fuel) lo end =
    let mid : ℕ = lo + (end - 1 - lo) / 2 in
    let below = search t cp fuel lo mid in
    let above = search t cp fuel (mid + 1) end in
    if ltb lo end
    then (if ltb cp (entry t mid).lo
        then below
        else if ltb (entry t mid).hi cp
        then above
        else some true)
    else some false

-- A round at least drops `mid`, so one unit more than there are entries is enough.
unfoldable pub in_table : List Range → ℕ → Bool
unfolding search
in_table t cp = elim (search t cp (length t + 1) 0 (length t)) [ none ↦ false | some b ↦ b ]

-- The tables, in the order in which they are asked.
pub record Tables : Type 0 where
  pub ascii : List Range
  pub private_use : List Range
  pub nonprint : List Range
  pub nonchar : List Range
  pub combining : List Range
  pub combining_letters : List Range
  pub doublewide : List Range
  pub ambiguous : List Range
  pub unassigned : List Range
  pub widened : List Range

-- An `int` that is -1 or a number of cells.
pub data Width : Type 0 where
  minus_one : Width
  cells : ℕ → Width

unfoldable pub wcwidth : Tables → ℕ → Width
unfolding in_table
wcwidth t cp =
    if in_table t.ascii cp
    then cells 1
    else if in_table t.private_use cp
    then cells 1
    else if in_table t.nonprint cp
    then minus_one
    else if in_table t.nonchar cp
    then minus_one
    else if in_table t.combining cp
    then cells 0
    else if in_table t.combining_letters cp
    then cells 0
    else if in_table t.doublewide cp
    then cells 2
    else if in_table t.ambiguous cp
    then cells 1
    else if in_table t.unassigned cp
    then cells 1
    else if in_table t.widened cp
    then cells 2
    else cells 1
