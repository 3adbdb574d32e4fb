-- ===== src/Valuation/Haircut.antt =====
-- `apply_haircut` of bot/crates/mev-bot/src/valuation.rs and its plain formula.
use arrow_head.Prelude.{
  ℕ, ◌+◌, ◌-◌, ◌*◌, ◌/◌, ◌%◌, ◌≤◌, ◌<◌, ◌≡◌, min, ap, ◌∙◌, arith, u256_mod, mul256_lem,
}
use arrow_head.Valuation.{apply_haircut}
use native.Mathlib.Nat.{mul-le-mul}

shares : (q r keep : ℕ) → (q * 10_000 + r) * keep ≡ q * keep * 10_000 + r * keep
shares q r keep = grind arith

-- A quotient and a remainder, each scaled.
pub split_product :
    (v keep : ℕ) → v * keep / 10_000 ≡ v / 10_000 * keep + v % 10_000 * keep / 10_000
split_product v keep =
    let q = v / 10_000 in
    let r = v % 10_000 in
    let whole : v ≡ q * 10_000 + r = omega arith in
    let e : v * keep ≡ q * keep * 10_000 + r * keep = ap (λ m. m * keep) whole ∙ shares q r keep in
    omega arith

-- The split multiplication gives the rounded-down share exactly, for every 256-bit value and any
-- haircut, and no step of it overflows: the value less the haircut, of at most the whole.
pub apply_haircut_lem :
    (v haircut_bps : ℕ)
    → v < u256_mod
    → (apply_haircut v haircut_bps ≡ v * (10_000 - min haircut_bps 10_000) / 10_000)
      × (apply_haircut v haircut_bps ≤ v)
unfolding apply_haircut
apply_haircut_lem v haircut_bps h =
    let keep = 10_000 - min haircut_bps 10_000 in
    let q = v / 10_000 in
    let r = v % 10_000 in
    let r_le : r * keep ≤ 10_000 * 10_000 =
      mul-le-mul {n₂ = 10_000} {m₂ = 10_000} (omega arith) (omega arith) in
    let q_le : q * keep ≤ q * 10_000 =
      mul-le-mul {n₂ = q} {m₂ = 10_000} (omega arith) (omega arith) in
    let r_le' : r * keep ≤ r * 10_000 =
      mul-le-mul {n₂ = r} {m₂ = 10_000} (omega arith) (omega arith) in
    rw (mul256_lem r keep (omega arith), split_product v keep) (omega arith, omega arith)
