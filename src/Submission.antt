-- ===== src/Submission.antt =====
-- The arithmetic of bot/crates/mev-bot/src/submission.rs: what a raw bundle may cost at most, and
-- the fees of the transaction that replaces one.
pub mod Exposure
pub mod Raw
pub mod Cancel
pub mod Fees
mod Tests
use arrow_head.Prelude.{
  ℕ, ◌+◌, ◌*◌, ◌/◌, max, min, Bool, true, false, Option, none, some, List, [], ◌∷◌, ltb, ◌==◌, ◌||◌,
  if◌then◌else◌, u256_mod, saturating_add, saturating_mul,
}
use arrow_head.Prelude.Outcome.{Outcome, value, absent, ◌>>=◌, ◌>>◌, absent_if}
use arrow_head.Types.{BundleTx, BundleRecord}
use arrow_head.Envelope.{Eip1559Envelope, decode_eip1559_envelope}

-- The loop over the transactions, with the sum so far.
unfoldable pub gas_loop : List BundleTx → ℕ → Outcome ℕ
gas_loop [] total = value total
gas_loop (tx ∷ txs) total = do
  absent_if tx.foreign
  envelope ← decode_eip1559_envelope tx.raw
  gas_loop txs (
      saturating_add u256_mod total
        (saturating_mul u256_mod envelope.max_fee_per_gas envelope.gas_limit))

unfoldable pub raw_bundle_gas_at_risk : BundleRecord → Outcome ℕ
raw_bundle_gas_at_risk bundle = gas_loop bundle.txs 0

unfoldable pub bump_by_bps : ℕ → ℕ → ℕ
bump_by_bps v bump_bps =
    let bump = saturating_add u256_mod (saturating_mul u256_mod v bump_bps) 9_999 / 10_000 in
    saturating_add u256_mod v bump

abbrev pub cancel_priority_floor_bump_wei : ℕ
cancel_priority_floor_bump_wei = 1_000_000_000

unfoldable pub replacement_fees : ℕ → ℕ → ℕ → ℕ → ℕ → ℕ → Option (ℕ × ℕ)
replacement_fees original_priority original_max_fee current_base_fee configured_priority bump_bps
      hard_max_fee =
    let priority =
      max (bump_by_bps original_priority bump_bps)
        (saturating_add u256_mod configured_priority cancel_priority_floor_bump_wei) in
    let max_fee =
      max (bump_by_bps original_max_fee bump_bps)
        (saturating_add u256_mod (saturating_mul u256_mod current_base_fee 2) priority) in
    if hard_max_fee == 0 || ltb hard_max_fee max_fee || ltb max_fee priority
    then none
    else some (priority, max_fee)
