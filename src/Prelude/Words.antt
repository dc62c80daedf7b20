-- ===== src/Prelude/Words.antt =====
-- Rust's unsigned 64-bit arithmetic on natural numbers below `2 ^ 64`.
use Prim.Native.Nat.{ℕ, ◌+◌, ◌*◌, ◌%◌, ◌<◌, ◌^◌, ◌-◌}
use mathlib.Core.Option.{Option, none, some}
use native.Mathlib.Omega.{arith}
use shield_net.Prelude.Tests.{ltb, if◌then◌else◌}

abbrev pub u64_max : ℕ
u64_max = 2 ^ 64 - 1

-- `a.saturating_add(b)`
unfoldable pub saturating_add : ℕ → ℕ → ℕ
saturating_add a b = if ltb u64_max (a + b) then u64_max else a + b

-- `a.checked_add(b)`
unfoldable pub checked_add : ℕ → ℕ → Option ℕ
checked_add a b = if ltb u64_max (a + b) then none else some (a + b)

-- `a.checked_sub(b)`
unfoldable pub checked_sub : ℕ → ℕ → Option ℕ
checked_sub a b = if ltb a b then none else some (a - b)

-- `a.saturating_mul(b)`
unfoldable pub saturating_mul : ℕ → ℕ → ℕ
saturating_mul a b = if ltb u64_max (a * b) then u64_max else a * b

-- `n as u16`
abbrev pub as_u16 : ℕ → ℕ
as_u16 n = n % 2 ^ 16

-- A deadline set from a block below the last one lies after it.
pub lt-saturating_add : (a b : ℕ) → a < u64_max → 0 < b → a < saturating_add a b
unfolding saturating_add
lt-saturating_add a b h k = ground arith
