-- ===== src/Executor.antt =====
-- `execute` and `flashExecute` of contracts/src/MevExecutor.sol: their guards, the baseline of a tag,
-- the batch and its settlement. What the calls of a batch do to the balances, the flash loan, the
-- audited tokens and the taking of a bribe are arguments; the owner's functions and the callbacks are
-- not part of it.
pub mod Phases
mod Tests
use arrow_head.Prelude.{
  ℕ, ◌+◌, ◌-◌, ◌*◌, ◌/◌, ◌%◌, Bool, true, false, Option, none, some, List, [], ◌∷◌, ltb, ◌==◌, not,
  ◌&&◌, ◌||◌, if◌then◌else◌,
}
use arrow_head.Prelude.Results.{Result, ok, err, ◌>>=◌, ◌>>◌, fail_if}
use arrow_head.Types.{Address}
use arrow_head.Bundle.{Guard, ExecutorCall}

pub data Revert : Type 0 where
  deadline base_fee_too_high bad_bribe bad_phase : Revert
  baseline_exists baseline_missing baseline_mismatch : Revert
  call_failed bribe_failed unprofitable asset_leak flash_failed : Revert

pub record Baseline : Type 0 where
  pub profit_token : Address
  pub block_number : ℕ
  pub balance : ℕ

-- `block.number` and `block.basefee`
pub record Block : Type 0 where
  pub number : ℕ
  pub base_fee : ℕ

-- `_checkGuards`
unfoldable pub check_guards : Block → Guard → Result Revert (Unit {0})
check_guards b g = do
  fail_if (not (g.block_deadline == 0) && ltb g.block_deadline b.number) Revert.deadline
  fail_if (not (g.max_base_fee == 0) && ltb g.max_base_fee b.base_fee) Revert.base_fee_too_high
  fail_if (ltb 10_000 g.bribe_bps) Revert.bad_bribe
  fail_if (ltb 2 g.phase) Revert.bad_phase
  fail_if (g.phase == 1 && (not (g.min_profit == 0) || not (g.bribe_bps == 0))) Revert.bad_phase
  ok tt

-- The baseline of the tag, which is none where its block number is 0.
unfoldable pub opening : Block → ℕ → Guard → Option Baseline → Result Revert (Option Baseline)
opening b balance g none =
    ok (some (record { profit_token = g.profit_token; block_number = b.number; balance = balance }))
opening b balance g (some _) = err Revert.baseline_exists

unfoldable pub closing : Block → Guard → Option Baseline → Result Revert (Option Baseline)
closing b g none = err Revert.baseline_missing
closing b g (some base) =
    if not (base.block_number == b.number) || not (base.profit_token == g.profit_token)
    then err Revert.baseline_mismatch
    else ok none

-- What lies outside the contract during a call: the wrapped ether, the balance of the profit token at
-- the entry, what the batch leaves of it (nothing where one of its calls fails), whether the bribe is
-- taken, whether an audited token has lost balance, and whether the flash loan is given and repaid.
pub record Effects : Type 0 where
  pub weth : Address
  pub before : ℕ
  pub after : Option ℕ
  pub bribe_taken : Bool
  pub leaks : Bool
  pub lent : Bool

abbrev pub is_ether : Address → Address → Bool
is_ether weth token = (token == 0) || (token == weth)

-- The bribe of a gross profit.
unfoldable pub bribe_of : Effects → Guard → ℕ → ℕ
bribe_of fx g profit =
    if not (g.bribe_bps == 0) && (not (profit == 0) && is_ether fx.weth g.profit_token)
    then profit / 10_000 * g.bribe_bps + profit % 10_000 * g.bribe_bps / 10_000
    else 0

-- `_settle`, from the balance before and behind the batch.
unfoldable pub settle : Effects → Guard → ℕ → ℕ → Result Revert (Unit {0})
settle fx g bal_before bal_after = do
  let bribe = bribe_of fx g (bal_after - bal_before)
  fail_if (not (bribe == 0) && not fx.bribe_taken) Revert.bribe_failed
  fail_if (ltb (bal_after - bal_before - bribe) g.min_profit) Revert.unprofitable
  ok tt

abbrev pub left_by : Option ℕ → Result Revert ℕ
left_by none = err Revert.call_failed
left_by (some bal_after) = ok bal_after

-- `_run`: the balance that the batch leaves.
unfoldable pub run_calls : Effects → Result Revert ℕ
run_calls fx = left_by fx.after

-- The batch, its settlement against a balance, and the audit.
unfoldable pub run_settled : Effects → Guard → ℕ → Result Revert (Unit {0})
run_settled fx g bal_before = do
  bal_after ← run_calls fx
  _ ← settle fx g bal_before bal_after
  fail_if fx.leaks Revert.asset_leak
  ok tt

-- The balance that a close is settled against.
abbrev pub reference_balance : Option Baseline → ℕ
reference_balance none = 0
reference_balance (some base) = base.balance

-- A call as a whole: the baseline of its tag that it leaves. A revert leaves the one before.
unfoldable pub enter :
    Block → Effects → Option Baseline → ExecutorCall → Result Revert (Option Baseline)
enter b fx base (ExecutorCall.execute tag calls g) = do
  _ ← check_guards b g
  if g.phase == 1
      then (do opened ← opening b fx.before g base; _ ← run_calls fx; ok opened)
      else if g.phase == 2
      then (do closed ← closing b g base; _ ← run_settled fx g (reference_balance base); ok closed)
      else (do _ ← run_settled fx g fx.before; ok base)
enter b fx base (ExecutorCall.flash_execute tag tokens amounts calls g) = do
  _ ← check_guards b g
  fail_if (not (g.phase == 0)) Revert.bad_phase
  fail_if (not fx.lent) Revert.flash_failed
  _ ← run_settled fx g fx.before
  ok base
