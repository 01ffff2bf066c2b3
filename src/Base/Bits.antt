-- ===== src/Base/Bits.antt =====
-- Facts about `bit_and` at variables, and the check of a property on every number below a bound.
use Prim.Native.Nat.{ℕ, zero, suc, ◌/◌, ◌≤◌, ◌<◌, min}
use Prim.Native.Nat.{bit_and, digits, bit_and-bitwise}
use mathlib.Core.Path.{◌≡◌}
use mathlib.Core.Bool.{Bool, true, false}
use libfossil.Base.Tests.{if◌then◌else◌}
use native.Mathlib.Omega.{arith}

-- The check passes at each of the `k` first numbers.
unfoldable pub passes_to : (ℕ → Bool) → ℕ → Bool
passes_to check zero = true
passes_to check (suc k) = let before = passes_to check k in if check k then before else false

pub passes_to_lem : (check : ℕ → Bool) (k d : ℕ) → d < k → passes_to check k ≡ true → check d ≡ true
unfolding passes_to
passes_to_lem check (suc k) d below passed = ground (arith, passes_to_lem check k d)
passes_to_lem check zero d below passed = absurd (omega arith)

and_digits-le : (n a b : ℕ) → digits (λ b. zero) min n a b ≤ b
and_digits-le zero a b = omega arith
and_digits-le (suc n) zero b = omega arith
and_digits-le (suc n) (suc a) b = omega (arith, and_digits-le n (suc a / 2) (b / 2))

-- A mask bounds what passes through it.
pub bit_and-le_right : (a b : ℕ) → bit_and a b ≤ b
bit_and-le_right a b = omega (arith, bit_and-bitwise a b, and_digits-le a a b)
