-- ===== src/Submission/Tests.antt =====
-- The exposure of a concrete bundle and the fees of a concrete replacement.
use arrow_head.Prelude.{
  true, ◌∷◌, map, ◌+◌, ◌*◌, ◌^◌, ◌≡◌, ◌≤◌, ◌<◌, [], some, refl, arith, u256_mod, add256, mul256,
}
use arrow_head.Prelude.Outcome.{value}
use arrow_head.Inventory.{legs}
use arrow_head.Bundle.{build_bundle}
use arrow_head.Bundle.Legs.{fee_cap}
use arrow_head.Bundle.Samples.{
  sandwich, limits, tag_of, abi, keccak, sign_hash, abi_bytes, signs, scalar, context,
  context-IsContext,
}
use arrow_head.Submission.{
  raw_bundle_gas_at_risk, replacement_fees, bump_by_bps, cancel_priority_floor_bump_wei,
}
use arrow_head.Submission.Exposure.{raw_bundle_gas_at_risk-build_bundle}
use arrow_head.Submission.Raw.{Node, SubmissionGateway, Receipt, cancel_raw}
use arrow_head.Submission.Cancel.{
  Signed, bytes_of, IsSound, IsGateway, IsCancelled, cancel_raw-IsCancelled,
}
use arrow_head.Submission.Fees.{replacement_fees-some}

cap_fits : 2 * (fee_cap context * context.gas_limit) < u256_mod
unfolding add256 mul256
cap_fits = omega arith

raw_bundle_gas_at_risk-build_bundle_example :
    raw_bundle_gas_at_risk
      (build_bundle tag_of abi keccak sign_hash "b" 0 sandwich [] context limits)
    ≡ value (legs sandwich * (fee_cap context * 500_000))
raw_bundle_gas_at_risk-build_bundle_example =
    raw_bundle_gas_at_risk-build_bundle tag_of abi keccak sign_hash abi_bytes signs "b" 0 sandwich
      [] context limits context-IsContext cap_fits

fees : replacement_fees 100 2_000 500 50 1_000 (10 ^ 12) ≡ some (1_000_000_050, 1_000_001_050)
unfolding replacement_fees bump_by_bps
fees = refl

replacement_fees-some_example :
    (100 * (10_000 + 1_000) ≤ 1_000_000_050 * 10_000)
    × (2_000 * (10_000 + 1_000) ≤ 1_000_001_050 * 10_000)
    × (50 + cancel_priority_floor_bump_wei ≤ 1_000_000_050)
    × (500 * 2 + 1_000_000_050 ≤ 1_000_001_050)
    × (1_000_001_050 ≤ 10 ^ 12)
replacement_fees-some_example =
    replacement_fees-some 100 2_000 500 50 1_000 (10 ^ 12) 1_000_000_050 1_000_001_050 (omega arith)
      (omega arith) (omega arith) (omega arith) (omega arith) fees

-- A self-transfer of the bot, pending at a node that takes every transaction.
abbrev pending : Signed
pending = record {
  tx = record {
    chain_id = 8_453;
    nonce = 7;
    max_priority_fee_per_gas = 1_000;
    max_fee_per_gas = 2_000;
    gas_limit = 21_000;
    to = some 0xeeee;
    value = 0;
    payload = [];
  };
  v = 1;
  r = scalar;
  s = scalar;
}

abbrev node : Node
node = record { receipt = λ hash. Receipt.failed; accepts = λ raw. true; base_fee = some 500 }

abbrev gateway : SubmissionGateway
gateway = record {
  raw_rpc = some node;
  tx_signer = some sign_hash;
  searcher = some 0xeeee;
  chain_id = 8_453;
  raw_priority_fee = 50;
  raw_cancel_bump_bps = 1_000;
  raw_cancel_max_fee = 10 ^ 12;
}

gateway-IsGateway : IsGateway gateway 0xeeee
gateway-IsGateway = record {
  chain_id = omega arith;
  max_fee = omega arith;
  searcher_word = omega arith;
}

pending-IsSound : IsSound pending
pending-IsSound = (
  record {
    chain_id = omega arith;
    nonce = omega arith;
    tip = omega arith;
    cap = omega arith;
    gas_limit = omega arith;
    value_word = omega arith;
    to_word = omega arith;
    payload_bytes = tt;
    payload_length = omega arith;
  },
  signs 1,
)

cancel_raw-IsCancelled_example :
    IsCancelled keccak node
      (pending ∷ [])
      (cancel_raw keccak gateway (some (map bytes_of (pending ∷ []))))
cancel_raw-IsCancelled_example =
    cancel_raw-IsCancelled keccak sign_hash signs gateway node 0xeeee (pending ∷ []) refl refl refl
      gateway-IsGateway (pending-IsSound, tt)
