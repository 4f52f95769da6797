-- ===== src/Base/Integers.antt =====
-- Signed integers over the native numbers, and the cast `as i32`.
use Prim.Native.Nat.{ℕ, ◌-◌, ◌%◌, ◌^◌, compare, Ordering}
use pascals_discrete_attract.Base.Bools.{ltb, if◌then◌else◌}

-- `negsuc n` is -(n + 1).
pub data ℤ : Type 0 where
  pos : ℕ → ℤ
  negsuc : ℕ → ℤ

unfoldable pub cmpℤ : ℤ → ℤ → Ordering
cmpℤ (pos a) (pos b) = compare a b
cmpℤ (pos a) (negsuc b) = Ordering.gt
cmpℤ (negsuc a) (pos b) = Ordering.lt
cmpℤ (negsuc a) (negsuc b) = compare b a

-- The low 32 bits of the two's complement pattern.
low_word : ℤ → ℕ
low_word (pos n) = n % 2 ^ 32
low_word (negsuc n) = 2 ^ 32 - 1 - n % 2 ^ 32

-- `v as i32` truncates to the low 32 bits and reads them as signed.
unfoldable pub as_i32 : ℤ → ℤ
unfolding low_word
as_i32 v = let u = low_word v in if ltb u (2 ^ 31) then pos u else negsuc (2 ^ 32 - 1 - u)
