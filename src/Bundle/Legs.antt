-- ===== src/Bundle/Legs.antt =====
-- The transactions of a bundle: the bot's own legs with their nonces, and the victims between them.
use arrow_head.Prelude.{
  ℕ, zero, suc, ◌+◌, ◌%◌, ◌^◌, ◌<◌, ◌≡◌, refl, Bool, true, false, List, [], ◌∷◌, map, is_empty,
  u64_mod, u256_mod, add256, mul256, arith, All, length, Bool-cases, inl, inr,
}
use arrow_head.Prelude.Outcome.{Outcome, value}
use arrow_head.Types.{B256, Bytes, Call, Opportunity, BundleTx}
use arrow_head.RuntimeRisk.{RiskConfig}
use arrow_head.Inventory.{legs}
use arrow_head.Rlp.Digits.{IsByte}
use arrow_head.Signer.{sign_eip1559, encode_for_signing}
use arrow_head.Envelope.{decode_eip1559_envelope, decode_eip1559_nonce}
use arrow_head.Envelope.Fields.{IsWord, IsSignature}
use arrow_head.Envelope.RoundTrip.{decode_eip1559_envelope-encode_signed}
use arrow_head.Bundle.{
  ExecutorCall, BundleContext, sign_leg, leg_tx, encode_execute, victim_tx, bundle_txs,
  build_bundle,
}
use arrow_head.Bundle.Owned.{
  owned, victims, owned-append, victims-append, owned-victims, victims-victims,
}
use Prim.Native.String.{String}
use native.Mathlib.Nat.{mod-eq_of_lt}
use mathlib.Core.List.{append-nil}

-- The words of a context, with room for the nonces of two legs.
pub record IsContext (ctx : BundleContext) : Type 0 where
  pub chain_id : ctx.chain_id < u64_mod
  pub nonce : ctx.nonce + 1 < u64_mod
  pub priority_fee : ctx.priority_fee < u256_mod
  pub gas_limit : ctx.gas_limit < u64_mod
  pub executor : ctx.executor < 256 ^ 20

-- The cap of the fee that a leg signs.
abbrev pub fee_cap : BundleContext → ℕ
fee_cap ctx = add256 (mul256 ctx.base_fee 2) ctx.priority_fee

-- That many nonces, from the first on, each one read.
abbrev pub nonces_from : ℕ → ℕ → List (Outcome ℕ)
nonces_from n zero = []
nonces_from n (suc k) = value n ∷ nonces_from (suc n) k

module _ (tag_of : String → B256) (abi : ExecutorCall → Bytes) (keccak : Bytes → B256)
    (sign_hash : B256 → ℕ × Bytes × Bytes)
    (abi_bytes : (c : ExecutorCall) → All IsByte (abi c) × (length (abi c) < 2 ^ 63))
    (signs : (h : B256) → IsSignature (sign_hash h).0 (sign_hash h).1 (sign_hash h).2) where
  leg_tx-IsWord :
      (opp : Opportunity) (ctx : BundleContext) (risk : RiskConfig) (calls : List Call)
      (front : Bool) (nonce : ℕ)
      → IsContext ctx
      → nonce < u64_mod
      → IsWord (leg_tx tag_of abi opp ctx risk calls front nonce)
  unfolding leg_tx encode_execute add256
  leg_tx-IsWord opp ctx risk calls front nonce c h = record {
    chain_id = c.chain_id;
    nonce = h;
    tip = c.priority_fee;
    cap = omega arith;
    gas_limit = c.gas_limit;
    value_word = omega arith;
    to_word = c.executor;
    payload_bytes = (abi_bytes _).0;
    payload_length = (abi_bytes _).1;
  }

  -- The envelope of a leg is read back from its bytes.
  pub sign_leg-envelope :
      (opp : Opportunity) (ctx : BundleContext) (risk : RiskConfig) (calls : List Call)
      (front : Bool) (nonce : ℕ)
      → IsContext ctx
      → nonce < u64_mod
      → decode_eip1559_envelope
          (sign_leg tag_of abi keccak sign_hash opp ctx risk calls front nonce).raw
        ≡ value (record {
          nonce = nonce;
          max_priority_fee_per_gas = ctx.priority_fee;
          max_fee_per_gas = fee_cap ctx;
          gas_limit = ctx.gas_limit;
        })
  unfolding sign_leg sign_eip1559
  sign_leg-envelope opp ctx risk calls front nonce c h =
      let tx = leg_tx tag_of abi opp ctx risk calls front nonce in
      let (v, r, s) = sign_hash (keccak (encode_for_signing tx)) in
      let word = leg_tx-IsWord opp ctx risk calls front nonce c h in
      rw
        (decode_eip1559_envelope-encode_signed tx v r s word
          (signs (keccak (encode_for_signing tx))))
        (unfold leg_tx in refl)

  sign_leg-nonce :
      (opp : Opportunity) (ctx : BundleContext) (risk : RiskConfig) (calls : List Call)
      (front : Bool) (nonce : ℕ)
      → IsContext ctx
      → nonce < u64_mod
      → decode_eip1559_nonce
          (sign_leg tag_of abi keccak sign_hash opp ctx risk calls front nonce).raw
        ≡ value nonce
  unfolding decode_eip1559_nonce
  sign_leg-nonce opp ctx risk calls front nonce c h =
      rw (sign_leg-envelope opp ctx risk calls front nonce c h) refl

  pub sign_leg-foreign :
      (opp : Opportunity) (ctx : BundleContext) (risk : RiskConfig) (calls : List Call)
      (front : Bool) (nonce : ℕ)
      → (sign_leg tag_of abi keccak sign_hash opp ctx risk calls front nonce).foreign ≡ false
  unfolding sign_leg
  sign_leg-foreign opp ctx risk calls front nonce = refl

  abbrev leg_at : Opportunity → BundleContext → RiskConfig → List Call → Bool → ℕ → BundleTx
  leg_at = sign_leg tag_of abi keccak sign_hash

  -- What is read of the nonces of some transactions.
  abbrev nonces_of : List BundleTx → List (Outcome ℕ)
  nonces_of ts = map (λ t. decode_eip1559_nonce t.raw) ts

  -- The bot's own transactions of a bundle.
  owned-bundle_txs :
      (opp : Opportunity) (raws : List Bytes) (ctx : BundleContext) (risk : RiskConfig)
      → IsContext ctx
      → nonces_of (owned (bundle_txs tag_of abi keccak sign_hash opp raws ctx risk))
        ≡ nonces_from ctx.nonce (legs opp)
  unfolding bundle_txs legs
  owned-bundle_txs opp raws ctx risk c =
      let n = ctx.nonce in
      let next : (n + 1) % u64_mod ≡ n + 1 = mod-eq_of_lt c.nonce in
      let one_more : n + 1 ≡ suc n = omega arith in
      let read_front =
        sign_leg-nonce opp ctx risk opp.front_calls true n c (omega (arith, c.nonce)) in
      let read_only =
        sign_leg-nonce opp ctx risk opp.back_calls false n c (omega (arith, c.nonce)) in
      let read_back = sign_leg-nonce opp ctx risk opp.back_calls false (n + 1) c c.nonce in
      let own_front = sign_leg-foreign opp ctx risk opp.front_calls true n in
      let own_only = sign_leg-foreign opp ctx risk opp.back_calls false n in
      let own_back = sign_leg-foreign opp ctx risk opp.back_calls false (n + 1) in
      let middle = owned-victims keccak raws in
      elim (Bool-cases (is_empty opp.front_calls)) [
        | inl f ↦ elim (Bool-cases (is_empty opp.back_calls)) [
          | inl b ↦ rw (f, b, owned-append (map (victim_tx keccak) raws) [], middle) refl
          | inr b ↦
              rw
                (
                  f,
                  b,
                  owned-append (map (victim_tx keccak) raws)
                      (leg_at opp ctx risk opp.back_calls false n ∷ []),
                  middle,
                  own_only,
                  read_only,
                )
                refl
        ]
        | inr f ↦ elim (Bool-cases (is_empty opp.back_calls)) [
          | inl b ↦
              rw
                (f, b, own_front, owned-append (map (victim_tx keccak) raws) [], middle, read_front)
                refl
          | inr b ↦
              rw
                (
                  f,
                  b,
                  next,
                  own_front,
                  owned-append (map (victim_tx keccak) raws)
                      (leg_at opp ctx risk opp.back_calls false (n + 1) ∷ []),
                  middle,
                  own_back,
                  read_front,
                  read_back,
                  one_more,
                )
                refl
        ]
      ]

  victims-bundle_txs :
      (opp : Opportunity) (raws : List Bytes) (ctx : BundleContext) (risk : RiskConfig)
      → victims (bundle_txs tag_of abi keccak sign_hash opp raws ctx risk) ≡ raws
  unfolding bundle_txs
  victims-bundle_txs opp raws ctx risk =
      let n = ctx.nonce in
      let own_front = sign_leg-foreign opp ctx risk opp.front_calls true n in
      let own_only = sign_leg-foreign opp ctx risk opp.back_calls false n in
      let own_back = sign_leg-foreign opp ctx risk opp.back_calls false ((n + 1) % u64_mod) in
      let middle = victims-victims keccak raws in
      elim (Bool-cases (is_empty opp.front_calls)) [
        | inl f ↦ elim (Bool-cases (is_empty opp.back_calls)) [
          | inl b ↦ rw (f, b, append-nil (map (victim_tx keccak) raws)) middle
          | inr b ↦
              rw
                (
                  f,
                  b,
                  victims-append (map (victim_tx keccak) raws)
                      (leg_at opp ctx risk opp.back_calls false n ∷ []),
                  middle,
                  own_only,
                  append-nil raws,
                )
                refl
        ]
        | inr f ↦ elim (Bool-cases (is_empty opp.back_calls)) [
          | inl b ↦ rw (f, b, own_front, append-nil (map (victim_tx keccak) raws)) middle
          | inr b ↦
              rw
                (
                  f,
                  b,
                  own_front,
                  victims-append (map (victim_tx keccak) raws)
                      (leg_at opp ctx risk opp.back_calls false ((n + 1) % u64_mod) ∷ []),
                  middle,
                  own_back,
                  append-nil raws,
                )
                refl
        ]
      ]

  -- For an ABI coder that writes fewer than 2^63 bytes, a signer whose signatures have 32-byte
  -- scalars, and a context of words: the bot's own transactions of a bundle are as many as the
  -- inventory's `legs`, and the nonces that are read back from their signed bytes are those from
  -- the context's nonce on, one after the other. The others are the victims' transactions, in the
  -- order given.
  pub build_bundle-nonces :
      (id : String) (now : ℕ) (opp : Opportunity) (raws : List Bytes) (ctx : BundleContext)
      (risk : RiskConfig)
      → IsContext ctx
      → (map
            (λ t. decode_eip1559_nonce t.raw)
            (owned (build_bundle tag_of abi keccak sign_hash id now opp raws ctx risk).txs)
          ≡ nonces_from ctx.nonce (legs opp))
        × (victims (build_bundle tag_of abi keccak sign_hash id now opp raws ctx risk).txs ≡ raws)
  unfolding build_bundle
  build_bundle-nonces id now opp raws ctx risk c =
      (owned-bundle_txs opp raws ctx risk c, victims-bundle_txs opp raws ctx risk)
