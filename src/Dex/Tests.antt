-- ===== src/Dex/Tests.antt =====
-- Quotes and sizes of concrete pools, and the theorems at them.
use arrow_head.Prelude.{
  ℕ, ◌+◌, ◌-◌, ◌*◌, ◌<◌, ◌≤◌, ◌≡◌, refl, min, arith, some, add256, sub256, mul256,
}
use arrow_head.Prelude.Outcome.{value}
use arrow_head.Dex.{
  Venue, V2Pool, v2_amount_out, v2_amount_in, with_swap, amount_out, reserves_for, fee_num,
}
use arrow_head.Dex.Words.{u112_mod}
use arrow_head.Dex.Quotes.{IsPriced, v2_amount_out-product, v2_amount_out-v2_amount_in}
use arrow_head.Dex.Search.{ternary_search_max, IsPeak}
use arrow_head.Dex.Search.Peak.{ternary_search_max-peak}
use arrow_head.Dex.Sizing.{optimal_sandwich_in, optimal_two_leg_arb}
use arrow_head.Dex.Sizing.Profit.{
  IsSized, IsArb, optimal_sandwich_in-IsSized, optimal_two_leg_arb-IsArb,
}

abbrev pool : V2Pool
pool = record {
  address = 1;
  token0 = 10;
  token1 = 20;
  reserve0 = 1_000;
  reserve1 = 1_000;
  fee_bps = 30;
  venue = Venue.uni_v2;
  block = 0;
}

-- The same pair with the second token dearer.
abbrev dear_pool : V2Pool
dear_pool = record pool { reserve0 = 4_000 }

pool-IsPriced : IsPriced 1_000 1_000 30
unfolding IsPriced
pool-IsPriced = (omega arith, omega arith, omega arith, omega arith, omega arith)

v2_amount_out_100 : v2_amount_out 100 1_000 1_000 30 ≡ 90
unfolding v2_amount_out mul256 add256 fee_num
v2_amount_out_100 = refl

v2_amount_out-product_example :
    (v2_amount_out 100 1_000 1_000 30 < 1_000)
    × (1_000 * 1_000 ≤ (1_000 + 100) * (1_000 - v2_amount_out 100 1_000 1_000 30))
v2_amount_out-product_example = v2_amount_out-product 100 1_000 1_000 30 pool-IsPriced (omega arith)

v2_amount_in_90 : v2_amount_in 90 1_000 1_000 30 < u112_mod
unfolding v2_amount_in mul256 add256 sub256 fee_num
v2_amount_in_90 = omega arith

v2_amount_out-v2_amount_in_example :
    90 ≤ v2_amount_out (v2_amount_in 90 1_000 1_000 30) 1_000 1_000 30
v2_amount_out-v2_amount_in_example =
    v2_amount_out-v2_amount_in 90 1_000 1_000 30 pool-IsPriced (omega arith) (omega arith)
      (omega arith) v2_amount_in_90

swapped : with_swap pool 10 100 ≡ some (record pool { reserve0 = 1_100; reserve1 = 910 }, 90)
unfolding with_swap amount_out reserves_for v2_amount_out mul256 add256 fee_num
swapped = refl

-- A tent with its top at 40.
abbrev tent : ℕ → ℕ
tent x = min x (80 - x)

tent-IsPeak : IsPeak tent 0 40 200
unfolding IsPeak
tent-IsPeak = (λ x y h k l. omega arith, λ x y h k l. omega arith)

ternary_search_max-peak_example : ternary_search_max 0 200 tent ≡ value (40, 40)
ternary_search_max-peak_example =
    ternary_search_max-peak 0 40 200 tent (omega arith) (omega arith) (omega arith) tent-IsPeak

optimal_sandwich_in-IsSized_example :
    IsSized pool 10 100 80 500 (optimal_sandwich_in pool 10 100 80 500)
optimal_sandwich_in-IsSized_example =
    optimal_sandwich_in-IsSized pool 10 100 80 500 refl (omega arith) (omega arith)

optimal_two_leg_arb-IsArb_example :
    IsArb pool dear_pool 10 500 (optimal_two_leg_arb pool dear_pool 10 500)
optimal_two_leg_arb-IsArb_example =
    optimal_two_leg_arb-IsArb pool dear_pool 10 500 (omega arith) (omega arith)
