-- ===== src/Bundle/Samples.antt =====
-- Concrete data that the tests of bundles share.
use arrow_head.Prelude.{ℕ, ◌%◌, ◌^◌, ◌<◌, refl, List, [], ◌∷◌, arith, All, length}
use arrow_head.Types.{B256, Bytes, Call, Strategy, Opportunity}
use arrow_head.RuntimeRisk.{RiskConfig}
use arrow_head.Rlp.Digits.{IsByte}
use arrow_head.Envelope.Fields.{IsSignature}
use arrow_head.Bundle.{ExecutorCall, BundleContext}
use arrow_head.Bundle.Legs.{IsContext}
use Prim.Native.String.{String}

abbrev pub call : Call
call = record { target = 1; value = 0; payload = [] }

-- A sandwich: a leg in front of the victim and one behind it.
abbrev pub sandwich : Opportunity
sandwich = record {
  id = "op";
  strategy = Strategy.sandwich;
  victim_hashes = 5 ∷ [];
  front_calls = call ∷ [];
  back_calls = call ∷ [];
  flash_tokens = [];
  flash_amounts = [];
  profit_token = 3;
  expected_profit_wei = 10;
  notional_wei = 1_000;
  target_block = 101;
  created_at_ms = 0;
  notes = "";
}

abbrev pub limits : RiskConfig
limits = record {
  min_net_profit_wei = 1_000;
  max_position_wei = 50_000;
  max_base_fee_wei = 100;
  bribe_bps = 9_000;
  max_gas_per_bundle = 1_000_000;
  max_drawdown_wei = 500;
  max_inflight_per_strategy = 3;
}

abbrev pub tag_of : String → B256
tag_of _ = 77

abbrev pub scalar : List ℕ
scalar =
    9 ∷ 1 ∷ 0 ∷ 0 ∷ 0 ∷ 0 ∷ 0 ∷ 0 ∷ 0 ∷ 0 ∷ 0 ∷ 0 ∷ 0 ∷ 0 ∷ 0 ∷ 0 ∷ 0 ∷ 0 ∷ 0 ∷ 0 ∷ 0 ∷ 0 ∷ 0 ∷ 0
    ∷ 0 ∷ 0 ∷ 0 ∷ 0 ∷ 0 ∷ 0 ∷ 0 ∷ 9 ∷ []

abbrev pub context : BundleContext
context = record {
  chain_id = 1;
  executor = 0xeeee;
  nonce = 7;
  base_fee = 10;
  priority_fee = 2;
  gas_limit = 500_000;
}

-- A coder that writes the tag's low byte and the number of calls.
abbrev pub abi : ExecutorCall → Bytes
abi (ExecutorCall.execute tag calls g) = tag % 256 ∷ g.phase % 256 ∷ []
abi (ExecutorCall.flash_execute tag tokens amounts calls g) = g.phase % 256 ∷ []

abbrev pub keccak : Bytes → B256
keccak b = length b

abbrev pub sign_hash : B256 → ℕ × Bytes × Bytes
sign_hash hash = (hash % 2, scalar, scalar)

pub abi_bytes : (c : ExecutorCall) → All IsByte (abi c) × (length (abi c) < 2 ^ 63)
abi_bytes (ExecutorCall.execute tag calls g) = ((omega arith, (omega arith, tt)), omega arith)
abi_bytes (ExecutorCall.flash_execute tag tokens amounts calls g) = ((omega arith, tt), omega arith)

scalar-IsByte : All IsByte scalar
scalar-IsByte = ground arith

pub signs : (h : B256) → IsSignature (sign_hash h).0 (sign_hash h).1 (sign_hash h).2
signs h = record {
  parity = omega arith;
  r_bytes = scalar-IsByte;
  s_bytes = scalar-IsByte;
  r_length = refl;
  s_length = refl;
}

pub context-IsContext : IsContext context
context-IsContext = record {
  chain_id = omega arith;
  nonce = omega arith;
  priority_fee = omega arith;
  gas_limit = omega arith;
  executor = omega arith;
}
