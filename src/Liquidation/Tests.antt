-- ===== src/Liquidation/Tests.antt =====
-- Runs of bot/crates/mev-bot/src/strategies/liquidation_maker.rs and liquidation_morpho.rs, most on
-- the numbers of their own tests.
use arrow_head.Prelude.{
  ℕ, ◌+◌, ◌*◌, ◌^◌, ◌≤◌, ◌≡◌, ◌⊎◌, refl, arith, true, false, some, none, sub256, mul256,
}
use arrow_head.Prelude.Outcome.{value, absent}
use arrow_head.Liquidation.{
  wad, ray, Terms, Lot, divided, lot_of, auction_math, market_price_ray, price_scale,
  is_liquidatable, max_liquidation_incentive, liquidation_incentive, div_ceil, to_assets_up,
}
use arrow_head.Liquidation.Auctions.{IsRefused, IsAuction, auction_math-IsAuction}
use arrow_head.Liquidation.Morpho.{liquidation_incentive-antitone}

-- An urn of 10 ether with the debt, on a dog with the room.
abbrev urn : ℕ → ℕ → Terms
urn debt room = record {
  ink = 10 * wad;
  art = debt * wad;
  rate = ray;
  spot = 1_500 * ray;
  dust = 100 * wad * ray;
  chop = wad;
  hole = room * ray * wad;
  dirt = 0;
  ilk_hole = 2_000 * ray * wad;
  ilk_dirt = 0;
}

covered_urn : auction_math (urn 12_000 1_001) ≡ absent
unfolding auction_math
covered_urn = refl

-- What is left of the debt is no dust.
partial_bark :
    auction_math (urn 16_000 1_001)
    ≡ value (record { dink = 625_625 * 10 ^ 12; dart = 1_001 * wad; tab = 1_001 * wad * ray })
unfolding auction_math divided lot_of sub256 mul256
partial_bark = refl

-- What would be left of the debt is dust, so that all of it is sold.
dusty_bark :
    auction_math (record (urn 16_000 1_001) { dust = 15_000 * wad * ray })
    ≡ value (record { dink = 10 * wad; dart = 16_000 * wad; tab = 16_000 * wad * ray })
unfolding auction_math divided lot_of sub256 mul256
dusty_bark = refl

auction_math-IsAuction_example :
    ((auction_math (urn 16_000 1_001) ≡ absent) × IsRefused (urn 16_000 1_001))
    ⊎ ((lot : Lot) × (auction_math (urn 16_000 1_001) ≡ value lot)
        × IsAuction (urn 16_000 1_001) lot)
unfolding sub256
auction_math-IsAuction_example = auction_math-IsAuction (urn 16_000 1_001) record {
  rate_pos = omega arith;
  chop_pos = omega arith;
  hole_word = omega arith;
  ilk_hole_word = omega arith;
  art_word = omega arith;
  room_fits = omega arith;
  sale_fits = omega arith;
  debt_fits = omega arith;
  tab_fits = omega arith;
}

market_price : market_price_ray (3_000_000 * wad) (1_000 * wad) ≡ some (3_000 * ray)
unfolding market_price_ray mul256
market_price = refl

no_market_price : market_price_ray 0 wad ≡ none
unfolding market_price_ray
no_market_price = refl

no_risk : liquidation_incentive wad ≡ value wad
unfolding liquidation_incentive divided
no_risk = refl

capped_incentive : liquidation_incentive 0 ≡ value max_liquidation_incentive
unfolding liquidation_incentive divided
capped_incentive = refl

healthy : is_liquidatable (10 * wad) (2_000 * price_scale) (915 * 10 ^ 15) (18_300 * wad) ≡ false
unfolding is_liquidatable mul256
healthy = refl

unhealthy :
    is_liquidatable (10 * wad) (2_000 * price_scale) (915 * 10 ^ 15) (18_300 * wad + 1) ≡ true
unfolding is_liquidatable mul256
unhealthy = refl

rounded_up : to_assets_up 1_000 1_000_003 1_000_000 ≡ value 501
unfolding to_assets_up div_ceil
rounded_up = refl

liquidation_incentive-antitone_example :
    (most least : ℕ) × (liquidation_incentive (700 * 10 ^ 15) ≡ value most)
    × (liquidation_incentive (915 * 10 ^ 15) ≡ value least)
    × (wad ≤ least)
    × (least ≤ most)
    × (most ≤ max_liquidation_incentive)
liquidation_incentive-antitone_example =
    liquidation_incentive-antitone (700 * 10 ^ 15) (915 * 10 ^ 15) (omega arith)
