-- ===== src/Wcwidth/Tests.antt =====
-- Runs of the search, and its theorem at a table.
use psi_code.Prelude.{◌≡◌, refl, false, List, [], ◌∷◌, arith}
use psi_code.Wcwidth.{Range, in_table, Tables, cells, minus_one, wcwidth}
use psi_code.Wcwidth.Search.{IsSorted, covers, in_table-covers}

-- The head of `widechar_doublewide_table`.
abbrev wide : List Range
wide =
    record { lo = 0x1100; hi = 0x115f }
    ∷ record { lo = 0x231a; hi = 0x231b }
    ∷ record { lo = 0x2329; hi = 0x232a }
    ∷ []

wide-IsSorted : IsSorted wide
wide-IsSorted = (omega arith, omega arith, (omega arith, omega arith, omega arith))

in_table-covers_example : in_table wide 0x231b ≡ covers wide 0x231b
in_table-covers_example = in_table-covers wide 0x231b wide-IsSorted

in_table-between : in_table wide 0x2328 ≡ false
unfolding in_table
in_table-between = refl

abbrev tables : Tables
tables = record {
  ascii = record { lo = 0x20; hi = 0x7e } ∷ [];
  private_use = [];
  nonprint = record { lo = 0; hi = 0x1f } ∷ [];
  nonchar = [];
  combining = record { lo = 0x300; hi = 0x36f } ∷ [];
  combining_letters = [];
  doublewide = wide;
  ambiguous = [];
  unassigned = [];
  widened = [];
}

wcwidth-wide : wcwidth tables 0x1100 ≡ cells 2
unfolding wcwidth
wcwidth-wide = refl

wcwidth-nonprint : wcwidth tables 7 ≡ minus_one
unfolding wcwidth
wcwidth-nonprint = refl
