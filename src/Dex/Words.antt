-- ===== src/Dex/Words.antt =====
-- The pricing formulas on amounts that do not overflow.
use arrow_head.Prelude.{
  ℕ, ◌+◌, ◌-◌, ◌*◌, ◌/◌, ◌^◌, ◌≤◌, ◌<◌, ◌≡◌, refl, arith, u256_mod, mul256_lem, add256_lem,
  sub256_lem, ◌+◌, Bool-cases, ◌||◌, ◌==◌, ==_iff, inl, inr, if◌then◌else◌,
}
use arrow_head.Dex.{v2_amount_out, v2_amount_in, fee_num}
use native.Mathlib.Nat.{mul-le-mul, zero-div, zero-mul, div-le_self}

-- Reserves of a pair are `uint112`, and an amount is held to the same bound.
abbrev pub u112_mod : ℕ
u112_mod = 2 ^ 112

pub fee_num_lem : (fee : ℕ) → fee ≤ 10_000 → fee_num fee ≡ 10_000 - fee
unfolding fee_num
fee_num_lem fee h = omega arith

mul_lt : (a b m n : ℕ) → a < m → b < n → a * b < m * n
mul_lt a b m n h k = grind arith

-- The tests in front of the division fall away where the reserve is set.
tests_fall :
    (x rin rout xf : ℕ)
    → 0 < rin
    → (x ≡ 0 → xf ≡ 0)
    → (if x == 0 || rin == 0 || rout == 0
        then 0
        else if rin * 10_000 + xf == 0
        then 0
        else xf * rout / (rin * 10_000 + xf))
      ≡ xf * rout / (rin * 10_000 + xf)
tests_fall x rin rout xf pos h = elim (Bool-cases (xf * rout == 0)) [
  | inl z ↦
      let none_out : xf * rout ≡ 0 = (==_iff (xf * rout) 0).0 z in
      rw (none_out, zero-div) (ground arith)
  | inr nz ↦ ground (arith, ==_iff (xf * rout) 0)
]

-- The output in plain arithmetic.
pub v2_amount_out_lem :
    (x rin rout fee : ℕ)
    → x < u112_mod
    → rin < u112_mod
    → rout < u112_mod
    → fee ≤ 10_000
    → 0 < rin
    → v2_amount_out x rin rout fee ≡ x * (10_000 - fee) * rout / (rin * 10_000 + x * (10_000 - fee))
unfolding v2_amount_out
v2_amount_out_lem x rin rout fee hx hi ho hf pos =
    let f = 10_000 - fee in
    let fee_le : f ≤ 10_000 = omega arith in
    let in_le : x * f ≤ u112_mod * 10_000 =
      mul-le-mul {n₂ = u112_mod} {m₂ = 10_000} (omega arith) fee_le in
    let num_le : x * f * rout ≤ u112_mod * 10_000 * u112_mod =
      mul-le-mul {n₂ = u112_mod * 10_000} {m₂ = u112_mod} in_le (omega arith) in
    rw
      (
        fee_num_lem fee hf,
        mul256_lem x f (omega arith),
        mul256_lem (x * f) rout (omega arith),
        mul256_lem rin 10_000 (omega arith),
        add256_lem (rin * 10_000) (x * f) (omega arith),
      )
      (tests_fall x rin rout (x * f) pos (λ e. rw (e, zero-mul f) refl))

-- The input asked for, in plain arithmetic.
pub v2_amount_in_lem :
    (o rin rout fee : ℕ)
    → 0 < o
    → o < rout
    → rin < u112_mod
    → rout < u112_mod
    → fee < 10_000
    → v2_amount_in o rin rout fee ≡ rin * o * 10_000 / ((rout - o) * (10_000 - fee)) + 1
unfolding v2_amount_in
v2_amount_in_lem o rin rout fee po ho hi hr hf =
    let f = 10_000 - fee in
    let prod_le : rin * o ≤ u112_mod * u112_mod =
      mul-le-mul {n₂ = u112_mod} {m₂ = u112_mod} (omega arith) (omega arith) in
    let num_lt : rin * o * 10_000 < u256_mod - 1 = omega arith in
    let den_le : (rout - o) * f ≤ u112_mod * 10_000 =
      mul-le-mul {n₂ = u112_mod} {m₂ = 10_000} (omega arith) (omega arith) in
    let den_pos : 0 < (rout - o) * f = grind arith in
    let quotient_le : rin * o * 10_000 / ((rout - o) * f) ≤ rin * o * 10_000 = div-le_self _ _ in
    rw
      (
        fee_num_lem fee (omega arith),
        mul256_lem rin o (omega arith),
        mul256_lem (rin * o) 10_000 (omega arith),
        sub256_lem rout o (omega arith) (omega arith),
        mul256_lem (rout - o) f (omega arith),
        add256_lem (rin * o * 10_000 / ((rout - o) * f)) 1 (omega arith),
      )
      (ground (arith, ==_iff o 0, ==_iff ((rout - o) * f) 0))
