-- ===== src/Bundle.antt =====
-- The bundles of bot/crates/mev-bot/src/bundle.rs. The ABI coder of `sol!` is an argument, a
-- function from a call of the executor to its bytes; so are `keccak256`, the signature, the hash of
-- an opportunity's id and, of a record, its fresh id and the time.
pub mod Owned
pub mod Legs
pub mod Samples
mod Tests
use arrow_head.Prelude.{
  ℕ, ◌+◌, ◌%◌, Bool, true, false, Option, none, some, List, [], ◌∷◌, ◌++◌, map, not, ◌&&◌, ◌||◌,
  if◌then◌else◌, is_empty, u64_mod, add256, mul256,
}
use arrow_head.Types.{Address, B256, Bytes, Call, Strategy, Opportunity, BundleTx, BundleRecord}
use arrow_head.RuntimeRisk.{RiskConfig}
use arrow_head.Signer.{Eip1559Tx, sign_eip1559}
use Prim.Native.String.{String}

pub record Guard : Type 0 where
  pub profit_token : Address
  pub min_profit : ℕ
  pub bribe_bps : ℕ
  pub block_deadline : ℕ
  pub max_base_fee : ℕ
  pub phase : ℕ

-- `executeCall` and `flashExecuteCall`
pub data ExecutorCall : Type 0 where
  execute : B256 → List Call → Guard → ExecutorCall
  flash_execute : B256 → List Address → List ℕ → List Call → Guard → ExecutorCall

pub record BundleContext : Type 0 where
  pub chain_id : ℕ
  pub executor : Address
  pub nonce : ℕ
  pub base_fee : ℕ
  pub priority_fee : ℕ
  pub gas_limit : ℕ

-- `!front || single_leg`
unfoldable pub enforce : Opportunity → Bool → Bool
enforce opp front = not front || is_empty opp.back_calls

unfoldable pub guard_of : Opportunity → Bool → RiskConfig → Guard
guard_of opp front risk = record {
  profit_token = opp.profit_token;
  min_profit = if enforce opp front then risk.min_net_profit_wei else 0;
  bribe_bps = if enforce opp front then risk.bribe_bps else 0;
  block_deadline = opp.target_block;
  max_base_fee = risk.max_base_fee_wei;
  phase = if is_empty opp.back_calls then 0 else if front then 1 else 2;
}

unfoldable pub victim_tx : (Bytes → B256) → Bytes → BundleTx
victim_tx keccak raw = record {
  hash = some (keccak raw);
  raw = raw;
  can_revert = false;
  foreign = true;
}

module _ (tag_of : String → B256) where
  -- The call that `encode_execute` encodes.
  unfoldable pub executor_call : Opportunity → List Call → Bool → RiskConfig → ExecutorCall
  executor_call opp calls front risk =
      if enforce opp front && not (is_empty opp.flash_tokens)
      then ExecutorCall.flash_execute (tag_of opp.id) opp.flash_tokens opp.flash_amounts calls
          (guard_of opp front risk)
      else ExecutorCall.execute (tag_of opp.id) calls (guard_of opp front risk)

  module _ (abi : ExecutorCall → Bytes) where
    unfoldable pub encode_execute : Opportunity → List Call → Bool → RiskConfig → Bytes
    encode_execute opp calls front risk = abi (executor_call opp calls front risk)

    -- The transaction that the closure `sign_leg` signs.
    unfoldable pub leg_tx :
        Opportunity → BundleContext → RiskConfig → List Call → Bool → ℕ → Eip1559Tx
    leg_tx opp ctx risk calls front nonce = record {
      chain_id = ctx.chain_id;
      nonce = nonce;
      max_priority_fee_per_gas = ctx.priority_fee;
      max_fee_per_gas = add256 (mul256 ctx.base_fee 2) ctx.priority_fee;
      gas_limit = ctx.gas_limit;
      to = some ctx.executor;
      value = 0;
      payload = encode_execute opp calls front risk;
    }

    module _ (keccak : Bytes → B256) (sign_hash : B256 → ℕ × Bytes × Bytes) where
      unfoldable pub sign_leg :
          Opportunity → BundleContext → RiskConfig → List Call → Bool → ℕ → BundleTx
      sign_leg opp ctx risk calls front nonce =
          let (raw, hash) = sign_eip1559 keccak sign_hash (leg_tx opp ctx risk calls front nonce) in
          record { hash = some hash; raw = raw; can_revert = false; foreign = false }

      -- The front leg, the victims and the back leg, in this order.
      unfoldable pub bundle_txs :
          Opportunity → List Bytes → BundleContext → RiskConfig → List BundleTx
      bundle_txs opp victims_raw ctx risk =
          let front_set = not (is_empty opp.front_calls) in
          let nonce = if front_set then (ctx.nonce + 1) % u64_mod else ctx.nonce in
          (if front_set then sign_leg opp ctx risk opp.front_calls true ctx.nonce ∷ [] else [])
          ++ (map (victim_tx keccak) victims_raw
              ++ (if is_empty opp.back_calls
                  then []
                  else sign_leg opp ctx risk opp.back_calls false nonce ∷ []))

      unfoldable pub build_bundle :
          String → ℕ → Opportunity → List Bytes → BundleContext → RiskConfig → BundleRecord
      build_bundle id now opp victims_raw ctx risk = record {
        id = id;
        opportunity_id = opp.id;
        strategy = opp.strategy;
        target_block = opp.target_block;
        txs = bundle_txs opp victims_raw ctx risk;
        submitted = false;
        included = none;
        created_at_ms = now;
      }
