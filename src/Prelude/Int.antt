-- ===== src/Prelude/Int.antt =====
-- Integers over the native numbers, and the two's complement wrap of an `i128`.
use Prim.Native.Nat.{ℕ, suc, ◌+◌, ◌-◌, ◌%◌, ◌^◌, ◌≤◌}
use mathlib.Core.Path.{◌≡◌}
use mathlib.Core.Bool.{Bool}
use native.Mathlib.Omega.{arith}
use arrow_head.Prelude.Tests.{ltb, leb, if◌then◌else◌}

-- `negsuc n` is -(n + 1).
pub data ℤ : Type 0 where
  pos : ℕ → ℤ
  negsuc : ℕ → ℤ

abbrev pub pos_part : ℤ → ℕ
pos_part (pos n) = n
pos_part (negsuc n) = 0

abbrev pub neg_part : ℤ → ℕ
neg_part (pos n) = 0
neg_part (negsuc n) = suc n

abbrev pub sub_ℕ : ℕ → ℕ → ℤ
sub_ℕ a b = if leb b a then pos (a - b) else negsuc (b - a - 1)

infixl 65 ◌+ℤ◌
infix 50 ◌≤ℤ◌
unfoldable pub ◌+ℤ◌ : ℤ → ℤ → ℤ
a +ℤ b = sub_ℕ (pos_part a + pos_part b) (neg_part a + neg_part b)

abbrev pub ◌≤ℤ◌ : ℤ → ℤ → Type 0
a ≤ℤ b = pos_part a + neg_part b ≤ pos_part b + neg_part a

abbrev pub ltb_ℤ : ℤ → ℤ → Bool
ltb_ℤ a b = ltb (pos_part a + neg_part b) (pos_part b + neg_part a)

abbrev pub i128_max : ℕ
i128_max = 2 ^ 127 - 1

-- The integer that an `i128` holds after an operation whose exact result is `z`.
unfoldable pub wrap_i128 : ℤ → ℤ
wrap_i128 z =
    let bits = (pos_part z + (2 ^ 128 - neg_part z % 2 ^ 128)) % 2 ^ 128 in
    if leb bits i128_max then pos bits else negsuc (2 ^ 128 - 1 - bits)

-- The integers of an `i128`.
abbrev pub IsI128 : ℤ → Type 0
IsI128 z = (pos_part z ≤ i128_max) × (neg_part z ≤ i128_max + 1)

pub wrap_i128-eq : (z : ℤ) → IsI128 z → wrap_i128 z ≡ z
unfolding wrap_i128
wrap_i128-eq (pos n) h = ground arith
wrap_i128-eq (negsuc n) h = ground arith
