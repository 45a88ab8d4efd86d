-- ===== src/Prelude/Int.antt =====
-- Signed integers over the native numbers, under the library's names.
use Prim.Native.Nat.{ℕ, zero, suc}
use mathlib.Core.Bool.{Bool, true, false}

-- `negsuc n` is -(n + 1).
pub data ℤ : Type 0 where
  pos : ℕ → ℤ
  negsuc : ℕ → ℤ

-- z + 1 and z - 1.
abbrev pub incr : ℤ → ℤ
incr (pos n) = pos (suc n)
incr (negsuc zero) = pos zero
incr (negsuc (suc n)) = negsuc n

abbrev pub decr : ℤ → ℤ
decr (pos zero) = negsuc zero
decr (pos (suc n)) = pos n
decr (negsuc n) = negsuc (suc n)

-- z <= 0
abbrev pub is_nonpos : ℤ → Bool
is_nonpos (pos zero) = true
is_nonpos (pos (suc n)) = false
is_nonpos (negsuc n) = true
