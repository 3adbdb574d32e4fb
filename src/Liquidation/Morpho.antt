-- ===== src/Liquidation/Morpho.antt =====
-- The incentive and the debt of bot/crates/mev-bot/src/strategies/liquidation_morpho.rs.
use arrow_head.Prelude.{
  ℕ, suc, ◌^◌, ◌+◌, ◌-◌, ◌*◌, ◌/◌, ◌≤◌, ◌<◌, ◌≡◌, ◌↔◌, refl, min, arith, false, u256_mod,
  saturating_add, saturating_mul, ◌==◌,
}
use arrow_head.Prelude.Outcome.{value}
use arrow_head.Liquidation.{
  wad, divided, div_ceil, discount_of, max_liquidation_incentive, liquidation_incentive,
  virtual_assets, virtual_shares, to_assets_up,
}
use native.Mathlib.Nat.{le-div_iff_mul-le, div-lt_iff_lt-mul, mul-le-mul_left, suc-mul, le_refl}

-- The discount is above zero and no more than one.
discount_of-bounds : (lltv : ℕ) → (7 * 10 ^ 17 ≤ discount_of lltv) × (discount_of lltv ≤ wad)
discount_of-bounds lltv = (omega arith, omega arith)

discount_of-monotone : (lltv higher : ℕ) → lltv ≤ higher → discount_of lltv ≤ discount_of higher
discount_of-monotone lltv higher h = omega arith

liquidation_incentive-value :
    (lltv : ℕ)
    → liquidation_incentive lltv
      ≡ value (min (wad * wad / discount_of lltv) max_liquidation_incentive)
unfolding liquidation_incentive divided
liquidation_incentive-value lltv =
    let (low, _) = discount_of-bounds lltv in
    let some : (discount_of lltv == 0) ≡ false = ground arith in rw some refl

-- The incentive is never below the value of what is repaid and never above the cap, its division is
-- not by zero, and a lower threshold never has the lower incentive.
pub liquidation_incentive-antitone :
    (lltv higher : ℕ)
    → lltv ≤ higher
    → (most least : ℕ) × (liquidation_incentive lltv ≡ value most)
      × (liquidation_incentive higher ≡ value least)
      × (wad ≤ least)
      × (least ≤ most)
      × (most ≤ max_liquidation_incentive)
liquidation_incentive-antitone lltv higher h =
    let n = wad * wad in
    let a = discount_of lltv in
    let b = discount_of higher in
    let a_pos : 0 < a = let (low, _) = discount_of-bounds lltv in omega (arith, low) in
    let b_pos : 0 < b = let (low, _) = discount_of-bounds higher in omega (arith, low) in
    let b_one : wad * b ≤ n = let (_, high) = discount_of-bounds higher in omega (arith, high) in
    let whole : wad ≤ n / b = (le-div_iff_mul-le b_pos).1 b_one in
    let covers : n / b * b ≤ n = (le-div_iff_mul-le b_pos).0 (le_refl (n / b)) in
    let less : n / b * a ≤ n / b * b =
      mul-le-mul_left (n / b) (discount_of-monotone lltv higher h) in
    let fewer : n / b ≤ n / a = (le-div_iff_mul-le a_pos).1 (omega (arith, less, covers)) in
    (
      min (n / a) max_liquidation_incentive,
      min (n / b) max_liquidation_incentive,
      liquidation_incentive-value lltv,
      liquidation_incentive-value higher,
      omega (arith, whole),
      omega (arith, fewer),
      omega arith,
    )

-- The assets that shares are worth, where no operation saturates, are the fewest that cover the
-- shares at the market's rate.
pub to_assets_up-least :
    (shares total_assets total_shares : ℕ)
    → total_shares + virtual_shares < u256_mod
    → total_assets + virtual_assets < u256_mod
    → shares * (total_assets + virtual_assets) < u256_mod
    → (assets : ℕ) × (to_assets_up shares total_assets total_shares ≡ value assets)
      × ((n : ℕ)
          → (assets ≤ n)
            ↔ (shares * (total_assets + virtual_assets) ≤ n * (total_shares + virtual_shares)))
unfolding to_assets_up div_ceil
to_assets_up-least shares total_assets total_shares hs ha hp =
    let worth = shares * (total_assets + virtual_assets) in
    let all = total_shares + virtual_shares in
    let s : saturating_add u256_mod total_shares virtual_shares ≡ all = omega arith in
    let a : saturating_add u256_mod total_assets virtual_assets ≡ total_assets + virtual_assets =
      omega arith in
    let p : saturating_mul u256_mod shares (total_assets + virtual_assets) ≡ worth = omega arith in
    let pos : 0 < all = omega arith in
    let some_all : (all == 0) ≡ false = ground arith in
    rw (s, a)
      (rw p (
        rw some_all (
          (worth + (all - 1)) / all,
          refl,
          λ n.
              let (to, fro) : ((worth + (all - 1)) / all < suc n)
                  ↔ (worth + (all - 1) < suc n * all) =
                div-lt_iff_lt-mul pos in
              let one_more : suc n * all ≡ n * all + all = suc-mul n all in
              (
                λ h. let lt = to (omega (arith, h)) in omega (arith, lt, one_more, pos),
                λ h. let lt = fro (omega (arith, h, one_more, pos)) in omega (arith, lt),
              ),
        )))
