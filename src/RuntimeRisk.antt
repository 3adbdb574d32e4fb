-- ===== src/RuntimeRisk.antt =====
-- The limits and toggles that an operator changes while the bot runs: `RuntimeRisk` and
-- `RiskPatch` of bot/crates/mev-bot/src/risk.rs, `RiskConfig` and `StrategyToggles` of config.rs.
-- The locks are the fields of a record. `max_revert_rate`, a float that this code never reads, is
-- left out. A HashMap is the list of its entries, in the order in which it is walked.
pub mod Limits
pub mod Patches
pub mod Toggles
mod Tests
use arrow_head.Prelude.{
  ℕ, Bool, true, false, Option, none, some, List, [], ◌∷◌, ◌&&◌, ◌||◌, ltb, ◌==◌, not,
  if◌then◌else◌,
}
use arrow_head.Prelude.Results.{Result, ok, err, ◌>>=◌, ◌>>◌, fail_if}
use arrow_head.Types.{Strategy, as_str, all}
use Prim.Native.String.{String}
use text.Mathlib.Text.{◌==◌ as str_eq}

pub record RiskConfig : Type 0 where
  pub min_net_profit_wei : ℕ
  pub max_position_wei : ℕ
  pub max_base_fee_wei : ℕ
  pub bribe_bps : ℕ
  pub max_gas_per_bundle : ℕ
  pub max_drawdown_wei : ℕ
  pub max_inflight_per_strategy : ℕ

pub record StrategyToggles : Type 0 where
  pub sandwich : Bool
  pub sandwich_v3 : Bool
  pub jit : Bool
  pub atomic_arb : Bool
  pub liquidation : Bool
  pub liquidation_compound : Bool
  pub liquidation_morpho : Bool
  pub liquidation_maker : Bool
  pub oracle_frontrun : Bool

-- The field of a strategy, as `enabled` and `enabled_at_boot` pick it.
unfoldable pub toggle : StrategyToggles → Strategy → Bool
toggle t Strategy.sandwich = t.sandwich
toggle t Strategy.sandwich_v3 = t.sandwich_v3
toggle t Strategy.jit = t.jit
toggle t Strategy.atomic_arb = t.atomic_arb
toggle t Strategy.liquidation = t.liquidation
toggle t Strategy.liquidation_compound = t.liquidation_compound
toggle t Strategy.liquidation_morpho = t.liquidation_morpho
toggle t Strategy.liquidation_maker = t.liquidation_maker
toggle t Strategy.oracle_frontrun = t.oracle_frontrun

-- The assignment in the `match` of `apply`.
unfoldable pub set_toggle : StrategyToggles → Strategy → Bool → StrategyToggles
set_toggle t Strategy.sandwich on = record t { sandwich = on }
set_toggle t Strategy.sandwich_v3 on = record t { sandwich_v3 = on }
set_toggle t Strategy.jit on = record t { jit = on }
set_toggle t Strategy.atomic_arb on = record t { atomic_arb = on }
set_toggle t Strategy.liquidation on = record t { liquidation = on }
set_toggle t Strategy.liquidation_compound on = record t { liquidation_compound = on }
set_toggle t Strategy.liquidation_morpho on = record t { liquidation_morpho = on }
set_toggle t Strategy.liquidation_maker on = record t { liquidation_maker = on }
set_toggle t Strategy.oracle_frontrun on = record t { oracle_frontrun = on }

pub record RuntimeRisk : Type 0 where
  pub risk : RiskConfig
  pub strategies : StrategyToggles
  pub boot : StrategyToggles

unfoldable pub new : RiskConfig → StrategyToggles → RuntimeRisk
new risk boot = record { risk = risk; strategies = boot; boot = boot }

-- `RuntimeRisk::enabled`
unfoldable pub enabled : RuntimeRisk → Strategy → Bool
enabled r s = toggle r.strategies s && toggle r.boot s

enabled_of : RuntimeRisk → List Strategy → List String
unfolding enabled
enabled_of r [] = []
enabled_of r (s ∷ ss) = if enabled r s then as_str s ∷ enabled_of r ss else enabled_of r ss

-- `RuntimeRisk::enabled_names`
unfoldable pub enabled_names : RuntimeRisk → List String
unfolding enabled_of
enabled_names r = enabled_of r all

pub record RiskPatch : Type 0 where
  pub min_net_profit_wei : Option String
  pub max_position_wei : Option String
  pub max_base_fee_wei : Option String
  pub max_drawdown_wei : Option String
  pub bribe_bps : Option ℕ
  pub max_gas_per_bundle : Option ℕ
  pub max_inflight_per_strategy : Option ℕ
  pub strategies : Option (List (String × Bool))

-- The refusals of `apply`, in the place of their texts.
pub data PatchError : Type 0 where
  not_a_wei_amount : String → PatchError
  position_zero base_fee_zero : PatchError
  bribe_too_high gas_out_of_range inflight_out_of_range : ℕ → PatchError
  unknown_strategy not_built_at_boot : String → PatchError

-- `MAX_TX_GAS_CEILING` of sim/anvil.rs.
abbrev pub max_tx_gas_ceiling : ℕ
max_tx_gas_ceiling = 16_777_216

-- `all.iter().find(|s| s.as_str() == name)`
unfoldable pub find_strategy : String → List Strategy → Option Strategy
unfolding as_str
find_strategy name [] = none
find_strategy name (s ∷ ss) = if str_eq (as_str s) name then some s else find_strategy name ss

or_unknown : Option Strategy → String → Result PatchError Strategy
or_unknown none name = err (PatchError.unknown_strategy name)
or_unknown (some s) name = ok s

-- The loop over the wanted toggles.
unfoldable pub apply_toggles :
    StrategyToggles → List (String × Bool) → StrategyToggles → Result PatchError StrategyToggles
unfolding or_unknown
apply_toggles boot [] t = ok t
apply_toggles boot ((name, on) ∷ rest) t = do
  s ← or_unknown (find_strategy name all) name
  fail_if (on && not (toggle boot s)) (PatchError.not_built_at_boot name)
  apply_toggles boot rest (set_toggle t s on)

unfoldable pub wanted_toggles :
    Option (List (String × Bool))
    → StrategyToggles
    → StrategyToggles
    → Result PatchError StrategyToggles
wanted_toggles none boot t = ok t
wanted_toggles (some wanted) boot t = apply_toggles boot wanted t

-- `parse` is `trim` and the `FromStr` of `U256`, which is not this repository's code.
module _ (parse : String → Option ℕ) where
  unfoldable pub parse_wei : String → Result PatchError ℕ
  parse_wei raw = elim (parse raw) [ none ↦ err (PatchError.not_a_wei_amount raw) | some v ↦ ok v ]

  unfoldable pub patch_min_net_profit : Option String → RiskConfig → Result PatchError RiskConfig
  patch_min_net_profit none risk = ok risk
  patch_min_net_profit (some raw) risk = do
    v ← parse_wei raw
    ok (record risk { min_net_profit_wei = v })

  unfoldable pub patch_max_position : Option String → RiskConfig → Result PatchError RiskConfig
  patch_max_position none risk = ok risk
  patch_max_position (some raw) risk = do
    v ← parse_wei raw
    fail_if (v == 0) PatchError.position_zero
    ok (record risk { max_position_wei = v })

  unfoldable pub patch_max_base_fee : Option String → RiskConfig → Result PatchError RiskConfig
  patch_max_base_fee none risk = ok risk
  patch_max_base_fee (some raw) risk = do
    v ← parse_wei raw
    fail_if (v == 0) PatchError.base_fee_zero
    ok (record risk { max_base_fee_wei = v })

  unfoldable pub patch_max_drawdown : Option String → RiskConfig → Result PatchError RiskConfig
  patch_max_drawdown none risk = ok risk
  patch_max_drawdown (some raw) risk = do
    v ← parse_wei raw
    ok (record risk { max_drawdown_wei = v })

unfoldable pub patch_bribe : Option ℕ → RiskConfig → Result PatchError RiskConfig
patch_bribe none risk = ok risk
patch_bribe (some v) risk = do
  fail_if (ltb 10_000 v) (PatchError.bribe_too_high v)
  ok (record risk { bribe_bps = v })

unfoldable pub patch_max_gas : Option ℕ → RiskConfig → Result PatchError RiskConfig
patch_max_gas none risk = ok risk
patch_max_gas (some v) risk = do
  fail_if (ltb v 21_000 || ltb max_tx_gas_ceiling v) (PatchError.gas_out_of_range v)
  ok (record risk { max_gas_per_bundle = v })

unfoldable pub patch_max_inflight : Option ℕ → RiskConfig → Result PatchError RiskConfig
patch_max_inflight none risk = ok risk
patch_max_inflight (some v) risk = do
  fail_if (ltb v 1 || ltb 256 v) (PatchError.inflight_out_of_range v)
  ok (record risk { max_inflight_per_strategy = v })

-- The checks of the limits, in the order of `apply`.
unfoldable pub patch_limits :
    (String → Option ℕ) → RiskPatch → RiskConfig → Result PatchError RiskConfig
patch_limits parse patch r0 = do
  r1 ← patch_min_net_profit parse patch.min_net_profit_wei r0
  r2 ← patch_max_position parse patch.max_position_wei r1
  r3 ← patch_max_base_fee parse patch.max_base_fee_wei r2
  r4 ← patch_max_drawdown parse patch.max_drawdown_wei r3
  r5 ← patch_bribe patch.bribe_bps r4
  r6 ← patch_max_gas patch.max_gas_per_bundle r5
  patch_max_inflight patch.max_inflight_per_strategy r6

-- All that `apply` checks before it writes.
unfoldable pub validated :
    (String → Option ℕ) → RuntimeRisk → RiskPatch → Result PatchError (RiskConfig × StrategyToggles)
validated parse r patch = do
  risk ← patch_limits parse patch r.risk
  t ← wanted_toggles patch.strategies r.boot r.strategies
  ok (risk, t)

-- The writes, which only an accepted patch reaches.
abbrev pub commit :
    RuntimeRisk
    → Result PatchError (RiskConfig × StrategyToggles)
    → Result PatchError (Unit {0}) × RuntimeRisk
commit r (err e) = (err e, r)
commit r (ok (risk, t)) = (ok tt, record r { risk = risk; strategies = t })

-- `RuntimeRisk::apply`: the answer, and the state that is left.
unfoldable pub apply :
    (String → Option ℕ) → RuntimeRisk → RiskPatch → Result PatchError (Unit {0}) × RuntimeRisk
apply parse r patch = commit r (validated parse r patch)
