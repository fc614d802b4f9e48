-- ===== src/Text/Builder.antt =====
-- `struct psi_vm_text_builder`: a buffer that grows by an allocator of the host.
pub mod Growth
use psi_code.Prelude.{
  size_max, ℕ, zero, suc, ◌+◌, ◌-◌, ◌*◌, ◌/◌, ◌%◌, ◌≤◌, ◌<◌, ◌≡◌, refl, Bool, true, false, not,
  ◌&&◌, ◌||◌, Option, none, some, List, [], ◌∷◌, ◌++◌, arith, Bytes, length, ◌==◌, ltb, leb,
  if◌then◌else◌,
}

-- `alloc` answers the requests of this buffer in their order, and `asked` counts them. The buffer
-- has no memory exactly when `cap` is 0. `text` is the bytes up to `len`.
pub record Builder : Type 0 where
  pub text : Bytes
  pub cap : ℕ
  pub alloc : ℕ → Bool
  pub asked : ℕ

abbrev pub builder_init : (ℕ → Bool) → Builder
builder_init alloc = record { text = []; cap = 0; alloc = alloc; asked = 0 }

abbrev pub clear : Builder → Builder
clear b = record b { text = [] }

-- `while (next_cap < needed)`. A round adds a byte at least, so as many rounds as bytes are
-- needed are enough.
unfoldable pub grow : ℕ → ℕ → ℕ → ℕ
grow zero next_cap needed = next_cap
grow (suc fuel) next_cap needed =
    let doubled = grow fuel (next_cap * 2) needed in
    if ltb next_cap needed
    then (if ltb (size_max / 2) next_cap then needed else doubled)
    else next_cap

-- `b->len + extra + 1u` wraps around.
abbrev pub needed_for : Builder → ℕ → ℕ
needed_for b extra = (length b.text + extra + 1) % (size_max + 1)

unfoldable pub next_cap_for : Builder → ℕ → ℕ
unfolding grow
next_cap_for b extra =
    let needed = needed_for b extra in grow needed (if b.cap == 0 then 64 else b.cap) needed

unfoldable pub reserve : Builder → ℕ → Option Builder
unfolding next_cap_for
reserve b extra =
    if ltb (size_max - length b.text) extra
    then none
    else if leb (needed_for b extra) b.cap && not (b.cap == 0)
    then some b
    else if b.alloc b.asked
    then some (record b { cap = next_cap_for b extra; asked = b.asked + 1 })
    else none

unfoldable pub append : Builder → Bytes → Option Builder
unfolding reserve
append b bytes = if length bytes == 0 then some b else elim (reserve b (length bytes)) [
  | none ↦ none
  | some b2 ↦ some (record b2 { text = b2.text ++ bytes })
]

abbrev pub append_char : Builder → ℕ → Option Builder
append_char b ch = append b (ch ∷ [])
