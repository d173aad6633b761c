-- ===== src/Prelude/Words.antt =====
-- Machine words: `size_t` and `uint64_t`, with their wrap-around written out.
use Prim.Native.Nat.{ℕ, ◌+◌, ◌-◌, ◌%◌, ◌^◌, ◌≤◌, ◌<◌}
use mathlib.Core.Path.{◌≡◌}
use native.Mathlib.Omega.{arith}

abbrev pub u64 : ℕ → ℕ
u64 n = n % 2 ^ 64

-- The difference of two words.
abbrev pub minus64 : ℕ → ℕ → ℕ
minus64 a b = u64 (a + 2 ^ 64 - b)

pub u64-id : (n : ℕ) → n < 2 ^ 64 → u64 n ≡ n
u64-id n h = omega arith

pub minus64-id : (a b : ℕ) → b ≤ a → a < 2 ^ 64 → minus64 a b ≡ a - b
minus64-id a b h k = omega arith

-- A decrement that does not wrap.
pub minus64-one : (n : ℕ) → 1 ≤ n → n < 2 ^ 64 → minus64 n 1 + 1 ≡ n
minus64-one n h k = omega arith
