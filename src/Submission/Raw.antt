-- ===== src/Submission/Raw.antt =====
-- The raw transport of bot/crates/mev-bot/src/submission.rs: `submit_raw` and `cancel_raw`. What the
-- node answers is a record of functions; the store's answer to `bundle_raw_txs` is an argument. The
-- second part of a result is what was sent to the node, in order.
use arrow_head.Prelude.{
  ℕ, Bool, true, false, Option, none, some, List, [], ◌∷◌, ◌++◌, ◌&&◌, ◌||◌, if◌then◌else◌,
}
use arrow_head.Prelude.Outcome.{Outcome, value, absent, panicked, out_of_fuel, ◌>>=◌}
use arrow_head.Types.{Address, B256, Bytes, BundleTx, BundleRecord}
use arrow_head.Signer.{Eip1559Tx, sign_eip1559}
use arrow_head.Envelope.{Eip1559Envelope, decode_eip1559_envelope}
use arrow_head.Submission.{replacement_fees}

-- What `eth_getTransactionReceipt` answers: a receipt, none, or an error.
pub data Receipt : Type 0 where
  found missing failed : Receipt

-- `.ok().filter(..).is_some()`: an error is taken for no receipt.
abbrev pub is_found : Receipt → Bool
is_found Receipt.found = true
is_found Receipt.missing = false
is_found Receipt.failed = false

-- `receipt` is the answer for a hash, `accepts` whether the raw transaction is taken (a call that
-- fails is not), and `base_fee` is that of the latest block where it is read and valid.
pub record Node : Type 0 where
  pub receipt : B256 → Receipt
  pub accepts : Bytes → Bool
  pub base_fee : Option ℕ

-- The fields of `SubmissionGateway` that the raw transport reads.
pub record SubmissionGateway : Type 0 where
  pub raw_rpc : Option Node
  pub tx_signer : Option (B256 → ℕ × Bytes × Bytes)
  pub searcher : Option Address
  pub chain_id : ℕ
  pub raw_priority_fee : ℕ
  pub raw_cancel_bump_bps : ℕ
  pub raw_cancel_max_fee : ℕ

unfoldable pub any_foreign : List BundleTx → Bool
any_foreign [] = false
any_foreign (t ∷ ts) = t.foreign || any_foreign ts

unfoldable pub send_loop : Node → List BundleTx → Bool × List Bytes
send_loop node [] = (true, [])
send_loop node (t ∷ ts) =
    let (ok, sent) = send_loop node ts in (node.accepts t.raw && ok, t.raw ∷ sent)

abbrev send_to : Option Node → List BundleTx → Bool × List Bytes
send_to none txs = (false, [])
send_to (some node) txs = send_loop node txs

unfoldable pub submit_raw : SubmissionGateway → BundleRecord → Bool × List Bytes
submit_raw g bundle = if any_foreign bundle.txs then (false, []) else send_to g.raw_rpc bundle.txs

-- The self-transfer that takes the place of a transaction.
unfoldable pub replacement_tx : SubmissionGateway → Address → ℕ → ℕ × ℕ → Eip1559Tx
replacement_tx g searcher nonce (priority, max_fee) = record {
  chain_id = g.chain_id;
  nonce = nonce;
  max_priority_fee_per_gas = priority;
  max_fee_per_gas = max_fee;
  gas_limit = 21_000;
  to = some searcher;
  value = 0;
  payload = [];
}

module _ (keccak : Bytes → B256) (sign_hash : B256 → ℕ × Bytes × Bytes)
    (g : SubmissionGateway) where
  abbrev pub send_replacement : Node → Address → ℕ → Option (ℕ × ℕ) → Bool × List Bytes
  send_replacement node searcher nonce none = (false, [])
  send_replacement node searcher nonce (some fees) =
      let (raw, _) = sign_eip1559 keccak sign_hash (replacement_tx g searcher nonce fees) in
      (node.accepts raw, raw ∷ [])

  abbrev pub replace : Node → Address → ℕ → Outcome Eip1559Envelope → Outcome (Bool × List Bytes)
  replace node searcher base_fee absent = value (false, [])
  replace node searcher base_fee (value original) = value (
      send_replacement node searcher original.nonce (
        replacement_fees original.max_priority_fee_per_gas original.max_fee_per_gas base_fee
          g.raw_priority_fee g.raw_cancel_bump_bps g.raw_cancel_max_fee))
  replace node searcher base_fee panicked = panicked
  replace node searcher base_fee out_of_fuel = out_of_fuel

  -- One round of the loop.
  unfoldable pub cancel_one : Node → Address → ℕ → Bytes → Outcome (Bool × List Bytes)
  cancel_one node searcher base_fee raw =
      if is_found (node.receipt (keccak raw))
      then value (false, [])
      else replace node searcher base_fee (decode_eip1559_envelope raw)

  unfoldable pub cancel_loop : Node → Address → ℕ → List Bytes → Outcome (Bool × List Bytes)
  cancel_loop node searcher base_fee [] = value (true, [])
  cancel_loop node searcher base_fee (raw ∷ raws) = do
    (ok, sent) ← cancel_one node searcher base_fee raw
    (all_ok, later) ← cancel_loop node searcher base_fee raws
    value (ok && all_ok, sent ++ later)

-- The loop, where the node, the signer, the searcher, the stored transactions and the base fee are
-- all there.
abbrev pub cancel_with :
    (Bytes → B256)
    → SubmissionGateway
    → Option Node
    → Option (B256 → ℕ × Bytes × Bytes)
    → Option Address
    → Option (List Bytes)
    → Outcome (Bool × List Bytes)
cancel_with keccak g (some node) (some sign_hash) (some searcher) (some raw_txs) =
    elim node.base_fee [
      | none ↦ value (false, [])
      | some base_fee ↦ cancel_loop keccak sign_hash g node searcher base_fee raw_txs
    ]
cancel_with keccak g _ _ _ _ = value (false, [])

unfoldable pub cancel_raw :
    (Bytes → B256) → SubmissionGateway → Option (List Bytes) → Outcome (Bool × List Bytes)
cancel_raw keccak g raw_txs = cancel_with keccak g g.raw_rpc g.tx_signer g.searcher raw_txs
