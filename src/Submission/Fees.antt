-- ===== src/Submission/Fees.antt =====
-- The fees of a replacement.
use arrow_head.Prelude.{ℕ, ◌+◌, ◌*◌, ◌^◌, ◌≤◌, ◌<◌, ◌≡◌, some, arith}
use arrow_head.Submission.{bump_by_bps, replacement_fees, cancel_priority_floor_bump_wei}
use native.Mathlib.Nat.{mul-le-mul}

-- Amounts at which nothing saturates.
abbrev pub amount_limit : ℕ
amount_limit = 2 ^ 192

bump_by_bps-lower :
    (v bps : ℕ) → v < amount_limit → bps < 2 ^ 32 → v * (10_000 + bps) ≤ bump_by_bps v bps * 10_000
unfolding bump_by_bps
bump_by_bps-lower v bps h k =
    let le : v * bps ≤ amount_limit * 2 ^ 32 =
      mul-le-mul {n₂ = amount_limit} {m₂ = 2 ^ 32} (omega arith) (omega arith) in
    grind arith

bump_by_bps-upper :
    (v bps : ℕ) → v < amount_limit → bps < 2 ^ 32 → bump_by_bps v bps ≤ amount_limit * 2 ^ 33
unfolding bump_by_bps
bump_by_bps-upper v bps h k =
    let le : v * bps ≤ amount_limit * 2 ^ 32 =
      mul-le-mul {n₂ = amount_limit} {m₂ = 2 ^ 32} (omega arith) (omega arith) in
    omega arith

-- The fees of a replacement, for amounts below 2^192: both caps are those of the original raised by
-- the demanded share at least, the tip by a gwei over the configured one too, the fee cap covers twice the base
-- fee and the tip, and it lies within the hard limit. No fees are given where these cannot be had.
pub replacement_fees-some :
    (priority0 max_fee0 base_fee configured bps hard p m : ℕ)
    → priority0 < amount_limit
    → max_fee0 < amount_limit
    → base_fee < amount_limit
    → configured < amount_limit
    → bps < 2 ^ 32
    → replacement_fees priority0 max_fee0 base_fee configured bps hard ≡ some (p, m)
    → (priority0 * (10_000 + bps) ≤ p * 10_000)
      × (max_fee0 * (10_000 + bps) ≤ m * 10_000)
      × (configured + cancel_priority_floor_bump_wei ≤ p)
      × (base_fee * 2 + p ≤ m)
      × (m ≤ hard)
unfolding replacement_fees
replacement_fees-some priority0 max_fee0 base_fee configured bps hard p m h1 h2 h3 h4 h5 e =
    let low_p = bump_by_bps-lower priority0 bps h1 h5 in
    let low_m = bump_by_bps-lower max_fee0 bps h2 h5 in
    let high_p = bump_by_bps-upper priority0 bps h1 h5 in
    let grown = priority0 * (10_000 + bps) in
    let grown_cap = max_fee0 * (10_000 + bps) in ground arith
