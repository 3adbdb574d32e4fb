-- ===== src/RiskEngine/Gate.antt =====
-- What passes the gate, and the lanes behind it.
use arrow_head.Prelude.{
  ℕ, ◌+◌, ◌≤◌, ◌<◌, ◌≡◌, ◌↔◌, true, false, Option, none, some, arith, is_empty, if◌then◌else◌, ◌⊎◌,
  inl, inr, Bool-cases,
}
use arrow_head.Prelude.Int.{pos, ◌≤ℤ◌}
use arrow_head.Prelude.Results.{ok}
use arrow_head.Types.{Strategy, Opportunity, SimulationResult, live_candidate, strategy_eq}
use arrow_head.RuntimeRisk.{enabled}
use arrow_head.RuntimeRisk.Limits.{IsInRange}
use arrow_head.RiskEngine.{
  RiskEngine, check, begin, finish, inflight_of, submittable, or_zero, less_one,
}

-- What an opportunity needs in order to pass.
pub record Admits (e : RiskEngine) (opp : Opportunity) (base_fee : ℕ) : Type 0 where
  pub strategy_on : enabled e.runtime opp.strategy ≡ true
  pub armed : e.tripped ≡ false
  pub calls : (is_empty opp.front_calls ≡ false) ⊎ (is_empty opp.back_calls ≡ false)
  pub size : opp.notional_wei ≤ e.runtime.risk.max_position_wei
  pub fee : base_fee ≤ e.runtime.risk.max_base_fee_wei
  pub slot : inflight_of e opp.strategy < e.runtime.risk.max_inflight_per_strategy

-- The gate passes an opportunity exactly when its strategy is enabled, the kill switch is not
-- tripped, it has a call, its notional and the base fee lie within the limits, and a slot of its
-- strategy is free.
pub check-ok_iff :
    (e : RiskEngine) (opp : Opportunity) (base_fee : ℕ)
    → (check e opp base_fee ≡ ok tt) ↔ Admits e opp base_fee
unfolding check
check-ok_iff e opp base_fee = (λ h. ground arith, λ a. ground arith)

-- No strategy has more slots than the limit.
abbrev pub IsBounded : RiskEngine → Type 0
IsBounded e = (s : Strategy) → inflight_of e s ≤ e.runtime.risk.max_inflight_per_strategy

eq_of_strategy_eq : (s s' : Strategy) → strategy_eq s s' ≡ true → s ≡ s'
eq_of_strategy_eq Strategy.sandwich s' e = ground arith
eq_of_strategy_eq _ s' e = ground arith

pub inflight_of-begin :
    (e : RiskEngine) (s s' : Strategy)
    → inflight_of e s < 256
    → inflight_of (begin e s) s'
      ≡ (if strategy_eq s s' then inflight_of e s + 1 else inflight_of e s')
unfolding begin inflight_of
inflight_of-begin e s s' h = ground arith

less_one-le : (o : Option ℕ) → or_zero (less_one o) ≤ or_zero o
less_one-le none = omega arith
less_one-le (some v) = omega arith

inflight_of-finish :
    (e : RiskEngine) (s s' : Strategy) → inflight_of (finish e s) s' ≤ inflight_of e s'
unfolding finish inflight_of
inflight_of-finish e s s' = elim (Bool-cases (strategy_eq s s')) [
  | inl same ↦ rw (same, eq_of_strategy_eq s s' same) (less_one-le (e.inflight s'))
  | inr other ↦ rw other (omega arith)
]

-- A candidate that takes its slot at once after the gate has passed it leaves every strategy within
-- the limit.
pub begin-IsBounded :
    (e : RiskEngine) (opp : Opportunity) (base_fee : ℕ)
    → IsInRange e.runtime.risk
    → check e opp base_fee ≡ ok tt
    → IsBounded e
    → (s : Strategy)
    → inflight_of (begin e opp.strategy) s ≤ e.runtime.risk.max_inflight_per_strategy
begin-IsBounded e opp base_fee range passed h s =
    let a = (check-ok_iff e opp base_fee).0 passed in
    rw (inflight_of-begin e opp.strategy s (omega (arith, a.slot, range.inflight_high)))
      (ground (arith, a.slot, h s))

-- A simulation is submittable exactly when its strategy may go live, it succeeded, its net profit
-- is above zero and reaches the minimum, and its gas lies within the limit.
pub submittable_iff :
    (e : RiskEngine) (sim : SimulationResult)
    → (submittable e sim ≡ true)
      ↔ (live_candidate sim.strategy ≡ true)
        × (sim.success ≡ true)
        × (¬ (sim.net_profit_wei ≤ℤ pos 0))
        × (pos e.runtime.risk.min_net_profit_wei ≤ℤ sim.net_profit_wei)
        × (sim.gas_used ≤ e.runtime.risk.max_gas_per_bundle)
unfolding submittable
submittable_iff e sim = (λ h. ground arith, λ h. ground arith)
