-- ===== src/Prelude/Words.antt =====
-- Unsigned integers of Go: values are numbers below the modulus, and each operation wraps.
use Prim.Native.Nat.{ℕ, suc, ◌+◌, ◌%◌, ◌^◌, ◌≤◌, ◌<◌}
use mathlib.Core.Path.{◌≡◌}
use native.Mathlib.Omega.{arith}

-- `x + 1` on a uint64.
unfoldable pub inc64 : ℕ → ℕ
inc64 x = (x + 1) % 2 ^ 64

-- The counters come from a PostgreSQL bigint column, so they stay below this bound.
abbrev pub bigint_bound : ℕ
bigint_bound = 2 ^ 63

pub inc64-suc : (x : ℕ) → x ≤ bigint_bound → inc64 x ≡ suc x
unfolding inc64
inc64-suc x h = omega arith

-- `a + b` on a uint64.
unfoldable pub add64 : ℕ → ℕ → ℕ
add64 a b = (a + b) % 2 ^ 64

pub add64-add : (a b : ℕ) → a + b < 2 ^ 64 → add64 a b ≡ a + b
unfolding add64
add64-add a b h = omega arith
