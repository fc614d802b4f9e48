-- ===== src/Prelude/Integers.antt =====
-- The signed numbers of C and of Lua, as they are read: `negsuc n` is `-1 - n`.
use Prim.Native.Nat.{ℕ, zero, suc}
use mathlib.Core.Bool.{Bool, true, false}

pub data Integer : Type 0 where
  pos : ℕ → Integer
  negsuc : ℕ → Integer

abbrev pub is_negative : Integer → Bool
is_negative (pos n) = false
is_negative (negsuc n) = true

abbrev pub is_positive : Integer → Bool
is_positive (pos zero) = false
is_positive (pos (suc n)) = true
is_positive (negsuc n) = false
