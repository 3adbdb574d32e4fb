-- ===== src/Prelude/Words.antt =====
-- Machine words as numbers below a power of two, with Rust's wrapping and saturating operations.
-- `U256` is alloy's: its operators wrap.
use Prim.Native.Nat.{ℕ, ◌+◌, ◌-◌, ◌*◌, ◌%◌, ◌^◌, ◌<◌, ◌≤◌, min}
use mathlib.Core.Path.{◌≡◌}
use native.Mathlib.Omega.{arith}
use native.Mathlib.Nat.{mod-eq_of_lt}

abbrev pub u32_mod : ℕ
u32_mod = 2 ^ 32

abbrev pub u64_mod : ℕ
u64_mod = 2 ^ 64

abbrev pub u256_mod : ℕ
u256_mod = 2 ^ 256

-- `a + b`, `a - b` and `a * b` on `U256`.
unfoldable pub add256 : ℕ → ℕ → ℕ
add256 a b = (a + b) % u256_mod

unfoldable pub sub256 : ℕ → ℕ → ℕ
sub256 a b = (a + u256_mod - b) % u256_mod

unfoldable pub mul256 : ℕ → ℕ → ℕ
mul256 a b = a * b % u256_mod

-- `saturating_add` and `saturating_mul` on a word of the modulus `m`; `saturating_sub` is `-`.
abbrev pub saturating_add : ℕ → ℕ → ℕ → ℕ
saturating_add m a b = min (m - 1) (a + b)

abbrev pub saturating_mul : ℕ → ℕ → ℕ → ℕ
saturating_mul m a b = min (m - 1) (a * b)

pub add256_lem : (a b : ℕ) → a + b < u256_mod → add256 a b ≡ a + b
unfolding add256
add256_lem a b h = mod-eq_of_lt h

pub mul256_lem : (a b : ℕ) → a * b < u256_mod → mul256 a b ≡ a * b
unfolding mul256
mul256_lem a b h = mod-eq_of_lt h

pub sub256_lem : (a b : ℕ) → a < u256_mod → b ≤ a → sub256 a b ≡ a - b
unfolding sub256
sub256_lem a b h k = omega arith
