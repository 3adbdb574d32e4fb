-- ===== src/RiskEngine/Tests.antt =====
-- Runs of the gate and the kill switch, and the theorems at them.
use arrow_head.Prelude.{◌≡◌, refl, true, false, some, [], ◌∷◌}
use arrow_head.Prelude.Int.{pos, negsuc}
use arrow_head.Types.{Strategy, Opportunity, SimulationResult}
use arrow_head.RuntimeRisk.{RuntimeRisk, StrategyToggles}
use arrow_head.RiskEngine.{RiskEngine, PersistedRiskState, boot, restore}
use arrow_head.RiskEngine.KillSwitch.{Event, run, boot-unread}

abbrev on : StrategyToggles
on = record {
  sandwich = true;
  sandwich_v3 = true;
  jit = false;
  atomic_arb = true;
  liquidation = true;
  liquidation_compound = true;
  liquidation_morpho = true;
  liquidation_maker = true;
  oracle_frontrun = true;
}

abbrev runtime : RuntimeRisk
runtime = record {
  risk = record {
    min_net_profit_wei = 1_000;
    max_position_wei = 50_000;
    max_base_fee_wei = 100;
    bribe_bps = 9_000;
    max_gas_per_bundle = 1_000_000;
    max_drawdown_wei = 500;
    max_inflight_per_strategy = 1;
  };
  strategies = on;
  boot = on;
}

abbrev trade : Opportunity
trade = record {
  id = "op";
  strategy = Strategy.atomic_arb;
  victim_hashes = [];
  front_calls = record { target = 1; value = 0; payload = [] } ∷ [];
  back_calls = [];
  flash_tokens = 3 ∷ [];
  flash_amounts = 1_000 ∷ [];
  profit_token = 3;
  expected_profit_wei = 10;
  notional_wei = 1_000;
  target_block = 101;
  created_at_ms = 0;
  notes = "";
}

-- A loss of 501 wei, one more than the drawdown limit.
abbrev loss : SimulationResult
loss = record {
  opportunity_id = "op";
  strategy = Strategy.atomic_arb;
  success = true;
  gross_profit_wei = 0;
  gas_used = 200_000;
  gas_price_wei = 1;
  gas_cost_wei = 501;
  bribe_wei = 0;
  net_profit_wei = negsuc 500;
  target_block = 101;
}

abbrev row : PersistedRiskState
row = record { tripped = false; cumulative_net_wei = pos 0 }

abbrev engine : RiskEngine
engine = boot runtime row true

abbrev tripped_engine : RiskEngine
tripped_engine = restore engine (record row { tripped = true })

is_tripped : tripped_engine.tripped ≡ true
unfolding restore
is_tripped = refl

boot-unread_example :
    ((run (Event.observed true loss ∷ []) (boot runtime row false)).tripped ≡ true)
    × ((kept : PersistedRiskState) × ((run
            (Event.observed true loss ∷ [])
            (boot runtime row false)).store
          ≡ some kept)
        × ((boot runtime kept true).tripped ≡ row.tripped)
        × ((boot runtime kept true).cumulative_net ≡ row.cumulative_net_wei))
boot-unread_example = boot-unread (Event.observed true loss ∷ []) runtime runtime row
