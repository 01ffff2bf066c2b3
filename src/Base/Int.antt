-- ===== src/Base/Int.antt =====
-- Signed integers over the native numbers: `negsuc n` is -(n + 1).
use Prim.Native.Nat.{ℕ, zero, suc}

pub data ℤ : Type 0 where
  pos : ℕ → ℤ
  negsuc : ℕ → ℤ

-- n - 1 and z + 1.
abbrev pub pred_int : ℕ → ℤ
pred_int zero = negsuc zero
pred_int (suc n) = pos n

abbrev pub suc_int : ℤ → ℤ
suc_int (pos n) = pos (suc n)
suc_int (negsuc zero) = pos zero
suc_int (negsuc (suc n)) = negsuc n
