-- ===== src/Base/Int.antt =====
-- Integers over the native numbers: `negsuc n` is -(n + 1).
use Prim.Native.Nat.{ℕ, zero, suc}
use mathlib.Core.Bool.{Bool, true, false, not, ◌&&◌}
use logstore_node.Base.Tests.{leb}
use Prim.Native.Nat.{min, max}

pub data ℤ : Type 0 where
  pos : ℕ → ℤ
  negsuc : ℕ → ℤ

abbrev pub is_negative : ℤ → Bool
is_negative (pos n) = false
is_negative (negsuc n) = true

abbrev pub neg : ℤ → ℤ
neg (pos zero) = pos zero
neg (pos (suc n)) = negsuc n
neg (negsuc n) = pos (suc n)

-- `Math.min`.
abbrev pub min_int : ℤ → ℤ → ℤ
min_int (pos m) (pos n) = pos (min m n)
min_int (pos m) (negsuc n) = negsuc n
min_int (negsuc m) (pos n) = negsuc m
min_int (negsuc m) (negsuc n) = negsuc (max m n)

-- `<=`, `<` and `===`.
abbrev pub leb_int : ℤ → ℤ → Bool
leb_int (pos m) (pos n) = leb m n
leb_int (pos m) (negsuc n) = false
leb_int (negsuc m) (pos n) = true
leb_int (negsuc m) (negsuc n) = leb n m

abbrev pub ltb_int : ℤ → ℤ → Bool
ltb_int a b = not (leb_int b a)

abbrev pub eq_int : ℤ → ℤ → Bool
eq_int a b = leb_int a b && leb_int b a
