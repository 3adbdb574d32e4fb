-- ===== src/RiskEngine.antt =====
-- The gate in front of the simulator and the drawdown kill switch: `RiskEngine` of
-- bot/crates/mev-bot/src/risk.rs. The locks are the fields of a record. The store is what SQLite
-- holds of the kill switch, `none` where no store is attached; whether it accepts a write is an
-- argument.
pub mod Gate
pub mod KillSwitch
mod Tests
use arrow_head.Prelude.{
  ℕ, ◌+◌, ◌-◌, ◌%◌, Bool, true, false, Option, none, some, ltb, leb, ◌==◌, not, ◌&&◌, ◌||◌,
  if◌then◌else◌, is_empty, u64_mod,
}
use arrow_head.Prelude.Int.{ℤ, pos, negsuc, ◌+ℤ◌, ltb_ℤ, sub_ℕ, wrap_i128, i128_max, pos_part}
use arrow_head.Prelude.Results.{Result, ok, err, ◌>>◌, fail_if}
use arrow_head.Types.{Strategy, strategy_eq, live_candidate, Opportunity, SimulationResult}
use arrow_head.RuntimeRisk.{RuntimeRisk, enabled}

pub data Reject : Type 0 where
  disabled too_large base_fee_too_high too_many_inflight kill_switch no_calls : Reject

-- `PersistedRiskState` of store.rs, without the time of the trip.
pub record PersistedRiskState : Type 0 where
  pub tripped : Bool
  pub cumulative_net_wei : ℤ

pub record RiskEngine : Type 0 where
  pub runtime : RuntimeRisk
  pub inflight : Strategy → Option ℕ
  pub cumulative_net : ℤ
  pub tripped : Bool
  pub store : Option PersistedRiskState

-- `RiskEngine::new` with `with_store`.
unfoldable pub new : RuntimeRisk → Option PersistedRiskState → RiskEngine
new runtime store = record {
  runtime = runtime;
  inflight = λ _. none;
  cumulative_net = pos 0;
  tripped = false;
  store = store;
}

unfoldable pub restore : RiskEngine → PersistedRiskState → RiskEngine
restore e state = record e { tripped = state.tripped; cumulative_net = state.cumulative_net_wei }

-- The start of `Engine::new`, on a store that holds the row: restored from it where it is read, and
-- tripped where the read fails.
unfoldable pub boot : RuntimeRisk → PersistedRiskState → Bool → RiskEngine
boot runtime row readable =
    restore (new runtime (some row))
      (if readable then row else record { tripped = true; cumulative_net_wei = pos 0 })

abbrev written : Bool → RiskEngine → Option PersistedRiskState → Option PersistedRiskState
written accepted e none = none
written accepted e (some old) =
    if accepted
    then some (record { tripped = e.tripped; cumulative_net_wei = e.cumulative_net })
    else some old

-- A write that the store refuses is logged only.
unfoldable pub persist : Bool → RiskEngine → RiskEngine
persist accepted e = record e { store = written accepted e e.store }

abbrev or_zero : Option ℕ → ℕ
or_zero none = 0
or_zero (some n) = n

-- `RiskEngine::inflight`
unfoldable pub inflight_of : RiskEngine → Strategy → ℕ
inflight_of e s = or_zero (e.inflight s)

unfoldable pub check : RiskEngine → Opportunity → ℕ → Result Reject (Unit {0})
unfolding inflight_of
check e opp base_fee = do
  fail_if (not (enabled e.runtime opp.strategy)) Reject.disabled
  fail_if e.tripped Reject.kill_switch
  fail_if (is_empty opp.front_calls && is_empty opp.back_calls) Reject.no_calls
  fail_if (ltb e.runtime.risk.max_position_wei opp.notional_wei) Reject.too_large
  fail_if (ltb e.runtime.risk.max_base_fee_wei base_fee) Reject.base_fee_too_high
  fail_if (leb e.runtime.risk.max_inflight_per_strategy (inflight_of e opp.strategy))
      Reject.too_many_inflight
  ok tt

-- The count of `s` set to `v`, in the map of the counts.
abbrev put_inflight : Strategy → Option ℕ → RiskEngine → RiskEngine
put_inflight s v e = record e { inflight = λ t. if strategy_eq s t then v else e.inflight t }

-- `*entry(s).or_insert(0) += 1`
unfoldable pub begin : RiskEngine → Strategy → RiskEngine
unfolding inflight_of
begin e s = put_inflight s (some ((inflight_of e s + 1) % u64_mod)) e

abbrev less_one : Option ℕ → Option ℕ
less_one none = none
less_one (some v) = some (v - 1)

-- `RiskEngine::end`
unfoldable pub finish : RiskEngine → Strategy → RiskEngine
finish e s = put_inflight s (less_one (e.inflight s)) e

-- `to_i128` of sim/anvil.rs.
unfoldable pub to_i128 : ℕ → ℤ
to_i128 v = if ltb i128_max v then pos i128_max else pos v

-- `limit` is set and the sum lies below minus it.
unfoldable pub is_breach : ℕ → ℤ → Bool
unfolding to_i128
is_breach limit net = not (limit == 0) && ltb_ℤ net (sub_ℕ 0 (pos_part (to_i128 limit)))

-- The trip at the end of `observe`, which writes through only when it is new.
trip : Bool → Bool → RiskEngine → RiskEngine
unfolding persist
trip accepted true e = if e.tripped then e else persist accepted (record e { tripped = true })
trip accepted false e = e

unfoldable pub observe : Bool → RiskEngine → SimulationResult → RiskEngine
unfolding is_breach trip
observe accepted e sim =
    let net = wrap_i128 (e.cumulative_net +ℤ sim.net_profit_wei) in
    trip accepted (is_breach e.runtime.risk.max_drawdown_wei net)
      (record e { cumulative_net = net })

unfoldable pub reset : Bool → RiskEngine → RiskEngine
unfolding persist
reset accepted e = persist accepted (record e { tripped = false; cumulative_net = pos 0 })

unfoldable pub submittable : RiskEngine → SimulationResult → Bool
submittable e sim =
    live_candidate sim.strategy
    && sim.success
    && ltb_ℤ (pos 0) sim.net_profit_wei
    && leb e.runtime.risk.min_net_profit_wei (pos_part sim.net_profit_wei)
    && leb sim.gas_used e.runtime.risk.max_gas_per_bundle
