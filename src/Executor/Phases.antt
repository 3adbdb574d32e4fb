-- ===== src/Executor/Phases.antt =====
-- The calls of a bundle (bot/crates/mev-bot/src/bundle.rs) against the phases of the executor
-- (contracts/src/MevExecutor.sol).
use arrow_head.Prelude.{
  ℕ, ◌-◌, ◌*◌, ◌/◌, if◌then◌else◌, ◌≤◌, ◌≡◌, refl, false, Option, none, is_empty, Bool-cases, ◌⊎◌,
  inl, inr,
}
use arrow_head.Prelude.Results.{Result, ok, err, ◌>>=◌}
use arrow_head.Types.{B256, Opportunity}
use arrow_head.RuntimeRisk.{RiskConfig}
use arrow_head.Bundle.{Guard, executor_call, guard_of, enforce}
use arrow_head.Executor.{Revert, Baseline, Block, Effects, is_ether, check_guards, closing, enter}
use Prim.Native.String.{String}

-- A block in which the opportunity is in time and the base fee within the limit.
pub record IsTimely (b : Block) (opp : Opportunity) (risk : RiskConfig) : Type 0 where
  pub in_time : b.number ≤ opp.target_block
  pub fee : b.base_fee ≤ risk.max_base_fee_wei
  pub bribe : risk.bribe_bps ≤ 10_000

-- The share of a gross profit that is bid, rounded down, where the profit is ether.
abbrev pub bid_of : Effects → Opportunity → RiskConfig → ℕ → ℕ
bid_of fx opp risk profit =
    if is_ether fx.weth opp.profit_token then profit * risk.bribe_bps / 10_000 else 0

-- What is left of the gain since the front leg after the bid.
abbrev pub retained_of : Effects → Opportunity → RiskConfig → ℕ → ℕ → ℕ
retained_of fx opp risk before after = after - before - bid_of fx opp risk (after - before)

-- What follows a check is refused with it or on its own.
>>=-err :
    (c : Result Revert (Unit {0})) (k : Unit {0} → Result Revert (Option Baseline))
    → ((u : Unit {0}) → (r : Revert) × (k u ≡ err r))
    → (r : Revert) × ((c >>= k) ≡ err r)
>>=-err (ok u) k h = h u
>>=-err (err r) k h = (r, refl)

-- The executor never takes the leg of an opportunity that has back calls only, since it asks to
-- close a phase that no front leg has opened: in every block, when the tag has no baseline, the call
-- is reverted, and a flash-funded one is reverted whatever the baseline.
pub enter-back_only :
    (tag_of : String → B256) (b : Block) (fx : Effects) (base : Option Baseline) (opp : Opportunity)
    (risk : RiskConfig)
    → is_empty opp.back_calls ≡ false
    → (base ≡ none) ⊎ (is_empty opp.flash_tokens ≡ false)
    → (r : Revert) × (enter b fx base (executor_call tag_of opp opp.back_calls false risk) ≡ err r)
unfolding executor_call guard_of enforce enter closing
enter-back_only tag_of b fx base opp risk two h =
    let guard : Guard = record {
      profit_token = opp.profit_token;
      min_profit = risk.min_net_profit_wei;
      bribe_bps = risk.bribe_bps;
      block_deadline = opp.target_block;
      max_base_fee = risk.max_base_fee_wei;
      phase = 2;
    } in
    elim (Bool-cases (is_empty opp.flash_tokens)) [
      | inl unfunded ↦
          let no_baseline : base ≡ none = elim h [ inl e ↦ e | inr e ↦ cc (e, unfunded) ] in
          rw (two, unfunded, no_baseline)
            (>>=-err (check_guards b guard) _ (λ _. (Revert.baseline_missing, refl)))
      | inr funded ↦
          rw (two, funded) (>>=-err (check_guards b guard) _ (λ _. (Revert.bad_phase, refl)))
    ]
