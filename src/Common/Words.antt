-- ===== src/Common/Words.antt =====
-- Unsigned machine words with saturating arithmetic: `u64::saturating_add` and its relatives.
use Prim.Native.Nat.{ℕ, ◌+◌, ◌≤◌, min}
use mathlib.Core.Path.{◌≡◌}
use native.Mathlib.Omega.{arith}

-- `u64::MAX` and `usize::MAX` on the 64-bit targets that the program supports.
abbrev pub u64_max : ℕ
u64_max = 18446744073709551615

abbrev pub u32_max : ℕ
u32_max = 4294967295

-- `a.saturating_add(b)` on `u64`.
unfoldable pub sat_add : ℕ → ℕ → ℕ
sat_add a b = min (a + b) u64_max

-- `a.saturating_add(1)`.
abbrev pub sat_inc : ℕ → ℕ
sat_inc a = sat_add a 1

pub sat_add-le_max : (a b : ℕ) → sat_add a b ≤ u64_max
unfolding sat_add
sat_add-le_max a b = omega arith

pub sat_add-of_room : (a b : ℕ) → a + b ≤ u64_max → sat_add a b ≡ a + b
unfolding sat_add
sat_add-of_room a b h = omega arith

pub sat_add-le_add : (a b : ℕ) → sat_add a b ≤ a + b
unfolding sat_add
sat_add-le_add a b = omega arith

pub le-sat_add : (a b : ℕ) → a ≤ u64_max → a ≤ sat_add a b
unfolding sat_add
le-sat_add a b h = omega arith
