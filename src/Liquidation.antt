-- ===== src/Liquidation.antt =====
-- The arithmetic of bot/crates/mev-bot/src/strategies/liquidation_maker.rs and
-- liquidation_morpho.rs: the lot of a Maker auction, and Morpho's debt, incentive and health.
use arrow_head.Prelude.{
  ℕ, ◌+◌, ◌-◌, ◌*◌, ◌/◌, ◌^◌, min, Bool, true, false, Option, some, none, ltb, leb, ◌==◌, ◌&&◌,
  ◌||◌, if◌then◌else◌, u256_mod, sub256, mul256, saturating_add, saturating_mul,
}
use arrow_head.Prelude.Outcome.{Outcome, value, absent, panicked, ◌>>=◌, ◌>>◌, absent_if}
pub mod Auctions
pub mod Morpho
mod Tests

abbrev pub wad : ℕ
wad = 10 ^ 18

abbrev pub ray : ℕ
ray = 10 ^ 27

-- `a / b` on `U256`.
unfoldable pub divided : ℕ → ℕ → Outcome ℕ
divided a b = if b == 0 then panicked else value (a / b)

-- The arguments of `auction_math`: the urn, the ilk's rate, spot and dust, and the dog's limits.
pub record Terms : Type 0 where
  pub ink : ℕ
  pub art : ℕ
  pub rate : ℕ
  pub spot : ℕ
  pub dust : ℕ
  pub chop : ℕ
  pub hole : ℕ
  pub dirt : ℕ
  pub ilk_hole : ℕ
  pub ilk_dirt : ℕ

abbrev pub room_of : Terms → ℕ
room_of a = min (sub256 a.hole a.dirt) (sub256 a.ilk_hole a.ilk_dirt)

-- The debt to sell for, and all of it where what is left would be dust.
abbrev pub dart_of : Terms → ℕ → ℕ
dart_of a capped =
    let dart = min a.art capped in
    if ltb dart a.art && ltb (mul256 (sub256 a.art dart) a.rate) a.dust then a.art else dart

pub record Lot : Type 0 where
  pub dink : ℕ
  pub dart : ℕ
  pub tab : ℕ

unfoldable pub lot_of : Terms → ℕ → Outcome Lot
lot_of a dart =
    let lot : ℕ → Lot =
      λ dink. record { dink = dink; dart = dart; tab = mul256 (mul256 dart a.rate) a.chop / wad } in
    absent_if (dart == 0)
    >> (divided (mul256 a.ink dart) a.art >>= λ dink. (absent_if (dink == 0) >> value (lot dink)))

abbrev pub is_empty_urn : Terms → Bool
is_empty_urn a = (a.spot == 0) || ((a.art == 0) || (a.ink == 0))

abbrev pub is_safe : Terms → Bool
is_safe a = leb (saturating_mul u256_mod a.art a.rate) (saturating_mul u256_mod a.ink a.spot)

abbrev pub is_out_of_room : Terms → Bool
is_out_of_room a = leb a.hole a.dirt || leb a.ilk_hole a.ilk_dirt

unfoldable pub auction_math : Terms → Outcome Lot
auction_math a =
    absent_if (is_empty_urn a)
    >> (absent_if (is_safe a)
        >> (absent_if (is_out_of_room a)
            >> (divided (mul256 (room_of a) wad) a.rate >>= λ per_rate.
                (divided per_rate a.chop >>= λ capped. lot_of a (dart_of a capped)))))

unfoldable pub market_price_ray : ℕ → ℕ → Option ℕ
market_price_ray reserve_dai reserve_gem =
    if (reserve_dai == 0) || (reserve_gem == 0)
    then none
    else some (mul256 reserve_dai ray / reserve_gem)

abbrev pub price_scale : ℕ
price_scale = 10 ^ 36

abbrev pub liquidation_cursor : ℕ
liquidation_cursor = 3 * 10 ^ 17

abbrev pub max_liquidation_incentive : ℕ
max_liquidation_incentive = 115 * 10 ^ 16

abbrev pub virtual_shares : ℕ
virtual_shares = 10 ^ 6

abbrev pub virtual_assets : ℕ
virtual_assets = 1

-- `a.div_ceil(b)`, which panics on zero as `/` does.
unfoldable pub div_ceil : ℕ → ℕ → Outcome ℕ
div_ceil a b = if b == 0 then panicked else value ((a + (b - 1)) / b)

unfoldable pub to_assets_up : ℕ → ℕ → ℕ → Outcome ℕ
to_assets_up shares total_assets total_shares =
    div_ceil (saturating_mul u256_mod shares (saturating_add u256_mod total_assets virtual_assets))
      (saturating_add u256_mod total_shares virtual_shares)

-- The denominator of the incentive.
abbrev pub discount_of : ℕ → ℕ
discount_of lltv = wad - saturating_mul u256_mod liquidation_cursor (wad - lltv) / wad

unfoldable pub liquidation_incentive : ℕ → Outcome ℕ
liquidation_incentive lltv =
    divided (saturating_mul u256_mod wad wad) (discount_of lltv) >>= λ uncapped.
    value (min uncapped max_liquidation_incentive)

unfoldable pub is_liquidatable : ℕ → ℕ → ℕ → ℕ → Bool
is_liquidatable collateral collateral_price lltv borrowed =
    if borrowed == 0
    then false
    else ltb (mul256 (saturating_mul u256_mod collateral collateral_price / price_scale) lltv / wad)
        borrowed
