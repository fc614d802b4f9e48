-- ===== src/Wcwidth/Search.antt =====
-- The binary search of `psi_wcwidth_in_table`.
use psi_code.Prelude.{
  ℕ, zero, suc, ◌+◌, ◌-◌, ◌/◌, ◌≤◌, ◌<◌, ◌≡◌, ◌∙◌, sym, some, Bool, true, false, ◌||◌, List, [],
  ◌∷◌, arith, ltb, within, length, Bool-cases, inl, inr,
}
use psi_code.Wcwidth.{Range, entry, search, in_table}

-- The ranges are not empty, do not overlap and stand in order.
abbrev pub IsSorted : List Range → Type 0
IsSorted [] = Unit
IsSorted (r ∷ []) = r.lo ≤ r.hi
IsSorted (r ∷ s ∷ rs) = (r.lo ≤ r.hi) × (r.hi < s.lo) × IsSorted (s ∷ rs)

-- A range of the table holds the code point.
abbrev pub covers : List Range → ℕ → Bool
covers [] cp = false
covers (r ∷ rs) cp = within r.lo r.hi cp || covers rs cp

abbrev pub Holds : List Range → ℕ → ℕ → Type 0
Holds t cp i = (i < length t) × ((entry t i).lo ≤ cp) × (cp ≤ (entry t i).hi)

covers-of_Holds : (t : List Range) (cp i : ℕ) → Holds t cp i → covers t cp ≡ true
covers-of_Holds [] cp i (h, _, _) = absurd (omega arith)
covers-of_Holds (r ∷ rs) cp zero h = ground arith
covers-of_Holds (r ∷ rs) cp (suc i) (h, a, b) =
    ground (arith, covers-of_Holds rs cp i (omega arith, a, b))

Holds-of_covers : (t : List Range) (cp : ℕ) → covers t cp ≡ true → (i : ℕ) × Holds t cp i
Holds-of_covers [] cp h = cc
Holds-of_covers (r ∷ rs) cp h = elim (Bool-cases (within r.lo r.hi cp)) [
  | inl here ↦ (0, (omega arith, ground arith, ground arith))
  | inr there ↦
      let (i, held) = Holds-of_covers rs cp (ground arith) in (suc i, (omega arith, held.1, held.2))
]

IsSorted-le : (r : Range) (rs : List Range) → IsSorted (r ∷ rs) → r.lo ≤ r.hi
IsSorted-le r [] s = s
IsSorted-le r (q ∷ rs) s = s.0

-- In a sorted table a later range lies above an earlier one.
IsSorted-lt :
    (t : List Range) (i j : ℕ) → IsSorted t → i < j → j < length t → (entry t i).hi < (entry t j).lo
IsSorted-lt [] i j s h k = absurd (omega arith)
IsSorted-lt (r ∷ []) i j s h k = absurd (omega arith)
IsSorted-lt (r ∷ q ∷ rs) zero zero s h k = absurd (omega arith)
IsSorted-lt (r ∷ q ∷ rs) zero (suc zero) s h k = s.1
IsSorted-lt (r ∷ q ∷ rs) zero (suc (suc j)) s h k =
    omega (
      arith,
      IsSorted-lt (q ∷ rs) zero (suc j) s.2 (omega arith) (omega arith),
      IsSorted-le q rs s.2,
    )
IsSorted-lt (r ∷ q ∷ rs) (suc i) zero s h k = absurd (omega arith)
IsSorted-lt (r ∷ q ∷ rs) (suc i) (suc j) s h k =
    IsSorted-lt (q ∷ rs) i j s.2 (omega arith) (omega arith)

IsSorted-entry :
    (t : List Range) (j : ℕ) → IsSorted t → j < length t → (entry t j).lo ≤ (entry t j).hi
IsSorted-entry [] j s h = absurd (omega arith)
IsSorted-entry (r ∷ rs) zero s h = IsSorted-le r rs s
IsSorted-entry (r ∷ []) (suc j) s h = absurd (omega arith)
IsSorted-entry (r ∷ q ∷ rs) (suc j) s h = IsSorted-entry (q ∷ rs) j s.2 (omega arith)

some-false : some false ≡ some true → ⊥
some-false e = cc

-- The search ends with fuel for the range that is left.
search_total :
    (t : List Range) (cp fuel lo end : ℕ)
    → end - lo < fuel
    → (b : Bool) × (search t cp fuel lo end ≡ some b)
unfolding search
search_total t cp zero lo end h = absurd (omega arith)
search_total t cp (suc fuel) lo end h = elim (Bool-cases (ltb lo end)) [
  | inr over ↦ (false, rw over)
  | inl more ↦
      let mid : ℕ = lo + (end - 1 - lo) / 2 in
      elim (Bool-cases (ltb cp (entry t mid).lo)) [
        | inl below ↦ rw (more, below) (search_total t cp fuel lo mid (ground arith))
        | inr up ↦ elim (Bool-cases (ltb (entry t mid).hi cp)) [
          | inl above ↦ rw (more, up, above) (search_total t cp fuel (mid + 1) end (ground arith))
          | inr here ↦ (true, rw (more, up, here))
        ]
      ]
]

-- What is found is in the table.
search_sound :
    (t : List Range) (cp fuel lo end : ℕ)
    → end ≤ length t
    → search t cp fuel lo end ≡ some true
    → (i : ℕ) × Holds t cp i
unfolding search
search_sound t cp zero lo end h e = cc
search_sound t cp (suc fuel) lo end h e = elim (Bool-cases (ltb lo end)) [
  | inr over ↦ absurd (some-false (rw over at e))
  | inl more ↦
      let mid : ℕ = lo + (end - 1 - lo) / 2 in
      elim (Bool-cases (ltb cp (entry t mid).lo)) [
        | inl below ↦ search_sound t cp fuel lo mid (ground arith) (rw (more, below) at e)
        | inr up ↦ elim (Bool-cases (ltb (entry t mid).hi cp)) [
          | inl above ↦ search_sound t cp fuel (mid + 1) end h (rw (more, up, above) at e)
          | inr here ↦ (mid, (ground arith, ground arith, ground arith))
        ]
      ]
]

-- What the table holds between the bounds is found.
search_complete :
    (t : List Range) (cp fuel lo end i : ℕ)
    → IsSorted t
    → end ≤ length t
    → end - lo < fuel
    → Holds t cp i
    → lo ≤ i
    → i < end
    → search t cp fuel lo end ≡ some true
unfolding search
search_complete t cp zero lo end i s h f m a b = absurd (omega arith)
search_complete t cp (suc fuel) lo end i s h f m a b =
    let mid : ℕ = lo + (end - 1 - lo) / 2 in
    ground (
      arith,
      search_complete t cp fuel lo mid i s,
      search_complete t cp fuel (mid + 1) end i s,
      IsSorted-lt t i mid s,
      IsSorted-lt t mid i s,
      IsSorted-entry t mid s,
    )

-- In a sorted table the binary search answers whether some range holds the code point.
pub in_table-covers : (t : List Range) (cp : ℕ) → IsSorted t → in_table t cp ≡ covers t cp
unfolding in_table
in_table-covers t cp s =
    let (b, found) = search_total t cp (length t + 1) 0 (length t) (omega arith) in
    rw (found, in_table) (decided b found)
  where
    decided : (b : Bool) → search t cp (length t + 1) 0 (length t) ≡ some b → b ≡ covers t cp
    decided true e =
        let (i, held) = search_sound t cp (length t + 1) 0 (length t) (omega arith) e in
        sym (covers-of_Holds t cp i held)
    decided false e = elim (Bool-cases (covers t cp)) [
      | inr no_range ↦ sym no_range
      | inl range ↦
          let (i, held) = Holds-of_covers t cp range in
          absurd (
            some-false (
              sym e
              ∙ search_complete t cp (length t + 1) 0 (length t) i s (omega arith) (omega arith)
                  held (omega arith) held.0))
    ]
