-- ===== src/Common/Words.antt =====
-- The machine words that the source counts with.
use Prim.Native.Nat.{ℕ, ◌+◌, ◌-◌, ◌^◌, ◌≤◌, min}
use mathlib.Core.Path.{◌≡◌}
use native.Mathlib.Omega.{arith}

abbrev pub u64_max : ℕ
u64_max = 2 ^ 64 - 1

abbrev pub u32_max : ℕ
u32_max = 2 ^ 32 - 1

-- `u64::saturating_add` and `u32::saturating_add`.
unfoldable pub sat_add64 : ℕ → ℕ → ℕ
sat_add64 a b = min (a + b) u64_max

unfoldable pub sat_add32 : ℕ → ℕ → ℕ
sat_add32 a b = min (a + b) u32_max

pub sat_add64_comm : (a b : ℕ) → sat_add64 a b ≡ sat_add64 b a
unfolding sat_add64
sat_add64_comm a b = omega arith

pub sat_add64_assoc : (a b c : ℕ) → sat_add64 (sat_add64 a b) c ≡ sat_add64 a (sat_add64 b c)
unfolding sat_add64
sat_add64_assoc a b c = omega arith

pub sat_add64-le : (a b : ℕ) → sat_add64 a b ≤ u64_max
unfolding sat_add64
sat_add64-le a b = omega arith
