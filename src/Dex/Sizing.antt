-- ===== src/Dex/Sizing.antt =====
-- The trade sizes of bot/crates/mev-bot/src/dex.rs: `optimal_sandwich_in` and `optimal_two_leg_arb`.
pub mod Profit
use arrow_head.Prelude.{
  ℕ, zero, suc, ◌+◌, ◌-◌, ◌*◌, ◌≤◌, ◌<◌, ◌≡◌, ◌^◌, min, refl, arith, Option, none, some, add256,
  sub256, ltb, leb, Bool-cases, Bool, true, false, if◌then◌else◌, ◌==◌, ◌||◌, ◌&&◌, not, inl, inr,
}
use arrow_head.Prelude.Outcome.{
  Outcome, value, absent, panicked, out_of_fuel, ◌>>=◌, absent_if, ◌>>◌,
}
use arrow_head.Types.{Address}
use arrow_head.Dex.{V2Pool, v2_amount_out, reserves_for, other_token}
use arrow_head.Dex.Words.{u112_mod}
use arrow_head.Dex.Search.{ternary_search_max}
use arrow_head.Dex.Search.Peak.{ternary_search_max-IsFound, IsFound}

pub record SandwichSizing : Type 0 where
  pub amount_in : ℕ
  pub front_out : ℕ
  pub back_out : ℕ
  pub gross_profit : ℕ
  pub victim_out : ℕ

-- `option?` where the caller returns an option.
abbrev pub or_absent : {A : Type 0} → Option A → Outcome A
or_absent none = absent
or_absent (some a) = value a

-- The three legs, of a front-run of `x` on the reserves `r_in` and `r_out`.
module _ (r_in r_out fee victim_amount_in : ℕ) where
  abbrev pub front_of : ℕ → ℕ
  front_of x = v2_amount_out x r_in r_out fee

  abbrev pub victim_of : ℕ → ℕ
  victim_of x = v2_amount_out victim_amount_in (add256 r_in x) (sub256 r_out (front_of x)) fee

  abbrev pub back_of : ℕ → ℕ
  back_of x =
      v2_amount_out (front_of x) (sub256 (sub256 r_out (front_of x)) (victim_of x))
        (add256 (add256 r_in x) victim_amount_in) fee

  -- `profit_of` of `optimal_sandwich_in`
  unfoldable pub sandwich_profit : ℕ → ℕ → ℕ
  sandwich_profit victim_min_out x =
      if x == 0
      then 0
      else if front_of x == 0 || leb r_out (front_of x)
      then 0
      else if victim_of x == 0 || leb (sub256 r_out (front_of x)) (victim_of x)
      then 0
      else if not (victim_min_out == 0) && ltb (victim_of x) victim_min_out
      then 0
      else back_of x - x

  unfoldable pub sandwich_of : ℕ × ℕ → Outcome SandwichSizing
  sandwich_of (best_x, best_profit) = do
    absent_if (best_profit == 0 || best_x == 0)
    value record {
      amount_in = best_x;
      front_out = front_of best_x;
      back_out = back_of best_x;
      gross_profit = best_profit;
      victim_out = victim_of best_x;
    }

unfoldable pub optimal_sandwich_in : V2Pool → Address → ℕ → ℕ → ℕ → Outcome SandwichSizing
unfolding reserves_for
optimal_sandwich_in pool token_in victim_amount_in victim_min_out max_in = do
  (r_in, r_out) ← or_absent (reserves_for pool token_in)
  absent_if (r_in == 0 || r_out == 0 || victim_amount_in == 0)
  best ←
      ternary_search_max 0 (min max_in r_in)
        (sandwich_profit r_in r_out pool.fee_bps victim_amount_in victim_min_out)
  sandwich_of r_in r_out pool.fee_bps victim_amount_in best

-- `profit_of` of `optimal_two_leg_arb`
unfoldable pub arb_profit : ℕ → ℕ → ℕ → ℕ → ℕ → ℕ → ℕ → ℕ
arb_profit ar_in ar_out a_fee br_in br_out b_fee x =
    let mid = v2_amount_out x ar_in ar_out a_fee in
    if mid == 0 then 0 else v2_amount_out mid br_in br_out b_fee - x

-- `optimal_two_leg_arb` from where the middle token is known.
unfoldable pub two_leg_between : V2Pool → V2Pool → Address → Address → ℕ → Outcome (ℕ × ℕ)
unfolding reserves_for
two_leg_between a b token_in token_mid max_in = do
  (ar_in, ar_out) ← or_absent (reserves_for a token_in)
  (br_in, br_out) ← or_absent (reserves_for b token_mid)
  absent_if (ar_in == 0 || ar_out == 0 || br_in == 0 || br_out == 0)
  (x, p) ←
      ternary_search_max 0 (min max_in ar_in)
        (arb_profit ar_in ar_out a.fee_bps br_in br_out b.fee_bps)
  if p == 0 || x == 0 then absent else value (x, p)

unfoldable pub optimal_two_leg_arb : V2Pool → V2Pool → Address → ℕ → Outcome (ℕ × ℕ)
unfolding other_token two_leg_between
optimal_two_leg_arb a b token_in max_in = do
  token_mid ← or_absent (other_token a token_in)
  back ← or_absent (other_token b token_mid)
  absent_if (not (back == token_in))
  two_leg_between a b token_in token_mid max_in
