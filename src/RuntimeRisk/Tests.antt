-- ===== src/RuntimeRisk/Tests.antt =====
-- Patches of a concrete configuration, and the theorems at them.
use arrow_head.Prelude.{
  ℕ, ◌≡◌, ◌⊎◌, refl, Bool, true, false, Option, none, some, List, [], ◌∷◌, arith,
}
use arrow_head.Prelude.Results.{ok, err}
use arrow_head.Types.{Strategy}
use arrow_head.RuntimeRisk.{
  RiskConfig, StrategyToggles, RuntimeRisk, RiskPatch, PatchError, toggle, enabled, apply_toggles,
  apply, new, validated, patch_limits, wanted_toggles, parse_wei, patch_min_net_profit,
  patch_max_position, patch_max_base_fee, patch_max_drawdown, patch_bribe, patch_max_gas,
  patch_max_inflight, find_strategy, set_toggle,
}
use arrow_head.RuntimeRisk.Limits.{IsInRange}
use arrow_head.RuntimeRisk.Patches.{
  IsValid, Applies, apply-Applies, apply-IsValid, apply_each, enabled-apply_each,
}
use Prim.Native.String.{String}

-- All strategies but `jit`.
abbrev boot : StrategyToggles
boot = record {
  sandwich = true;
  sandwich_v3 = true;
  jit = false;
  atomic_arb = true;
  liquidation = true;
  liquidation_compound = true;
  liquidation_morpho = true;
  liquidation_maker = true;
  oracle_frontrun = true;
}

abbrev limits : RiskConfig
limits = record {
  min_net_profit_wei = 1_000;
  max_position_wei = 50_000;
  max_base_fee_wei = 100;
  bribe_bps = 9_000;
  max_gas_per_bundle = 1_000_000;
  max_drawdown_wei = 500;
  max_inflight_per_strategy = 3;
}

-- Every text is the amount 77.
abbrev parse : String → Option ℕ
parse _ = some 77

abbrev arb_off : List (String × Bool)
arb_off = ("atomic_arb", false) ∷ ("sandwich", true) ∷ []

abbrev patch : RiskPatch
patch = record {
  min_net_profit_wei = none;
  max_position_wei = some "77";
  max_base_fee_wei = none;
  max_drawdown_wei = none;
  bribe_bps = some 10_000;
  max_gas_per_bundle = none;
  max_inflight_per_strategy = none;
  strategies = some arb_off;
}

abbrev runtime : RuntimeRisk
runtime = record { risk = limits; strategies = boot; boot = boot }

limits-IsInRange : IsInRange limits
limits-IsInRange = record {
  position = omega arith;
  base_fee = omega arith;
  bribe = omega arith;
  gas_low = omega arith;
  gas_high = omega arith;
  inflight_low = omega arith;
  inflight_high = omega arith;
}

runtime-IsValid : IsValid runtime
runtime-IsValid = record { limits = limits-IsInRange; narrow = λ s h. h }

apply-Applies_example : Applies parse patch runtime (apply parse runtime patch)
apply-Applies_example = apply-Applies parse runtime patch (refl, (refl, tt))

apply-IsValid_example : IsValid (apply parse runtime patch).1
apply-IsValid_example = apply-IsValid parse runtime patch runtime-IsValid

enabled-apply_each_example :
    (enabled (apply_each parse (new limits boot) (patch ∷ patch ∷ [])) Strategy.jit
      ≡ toggle (apply_each parse (new limits boot) (patch ∷ patch ∷ [])).strategies Strategy.jit)
    × ((enabled (apply_each parse (new limits boot) (patch ∷ patch ∷ [])) Strategy.jit ≡ false)
        ⊎ (toggle boot Strategy.jit ≡ true))
enabled-apply_each_example =
    enabled-apply_each parse limits boot (patch ∷ patch ∷ []) Strategy.jit limits-IsInRange

arb_off-accepted : apply_toggles boot arb_off boot ≡ ok (record boot { atomic_arb = false })
unfolding apply_toggles find_strategy set_toggle toggle
arb_off-accepted = refl

-- A strategy that was off at boot is not turned on, and nothing of the patch is kept.
jit_refused :
    apply parse runtime (record patch { strategies = some (("jit", true) ∷ []) })
    ≡ (err (PatchError.not_built_at_boot "jit"), runtime)
unfolding apply validated wanted_toggles apply_toggles find_strategy toggle patch_limits
    patch_min_net_profit patch_max_position patch_max_base_fee patch_max_drawdown patch_bribe
    patch_max_gas patch_max_inflight parse_wei
jit_refused = refl
