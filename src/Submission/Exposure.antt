-- ===== src/Submission/Exposure.antt =====
-- What a bundle of the bot's own transactions may cost.
use arrow_head.Prelude.{
  ℕ, ◌+◌, ◌-◌, ◌*◌, ◌%◌, ◌^◌, ◌<◌, ◌≡◌, refl, ap, ◌∙◌, Bool, true, false, List, [], ◌∷◌, ◌++◌, map,
  if◌then◌else◌, is_empty, u64_mod, u256_mod, arith, All, length, Bool-cases, inl, inr, min,
}
use arrow_head.Prelude.Outcome.{Outcome, value, absent}
use arrow_head.Types.{B256, Bytes, Call, Opportunity, BundleTx}
use arrow_head.RuntimeRisk.{RiskConfig}
use arrow_head.Inventory.{legs}
use arrow_head.Rlp.Digits.{IsByte}
use arrow_head.Envelope.Fields.{IsSignature}
use arrow_head.Bundle.{ExecutorCall, BundleContext, sign_leg, bundle_txs, build_bundle, victim_tx}
use arrow_head.Bundle.Legs.{IsContext, fee_cap, sign_leg-envelope, sign_leg-foreign}
use arrow_head.Submission.{gas_loop, raw_bundle_gas_at_risk}
use native.Mathlib.Nat.{mod-eq_of_lt}
use Prim.Native.String.{String}

module _ (tag_of : String → B256) (abi : ExecutorCall → Bytes) (keccak : Bytes → B256)
    (sign_hash : B256 → ℕ × Bytes × Bytes)
    (abi_bytes : (c : ExecutorCall) → All IsByte (abi c) × (length (abi c) < 2 ^ 63))
    (signs : (h : B256) → IsSignature (sign_hash h).0 (sign_hash h).1 (sign_hash h).2) where
  -- One leg adds its cap times its gas.
  gas_loop-sign_leg :
      (opp : Opportunity) (ctx : BundleContext) (risk : RiskConfig) (calls : List Call)
      (front : Bool) (nonce total : ℕ) (txs : List BundleTx)
      → IsContext ctx
      → nonce < u64_mod
      → total + fee_cap ctx * ctx.gas_limit < u256_mod
      → gas_loop (sign_leg tag_of abi keccak sign_hash opp ctx risk calls front nonce ∷ txs) total
        ≡ gas_loop txs (total + fee_cap ctx * ctx.gas_limit)
  unfolding gas_loop
  gas_loop-sign_leg opp ctx risk calls front nonce total txs c h small =
      rw
        (
          sign_leg-foreign tag_of abi keccak sign_hash abi_bytes signs opp ctx risk calls front
              nonce,
          sign_leg-envelope tag_of abi keccak sign_hash abi_bytes signs opp ctx risk calls front
              nonce c h,
          saturate (fee_cap ctx * ctx.gas_limit) total small,
        )
        refl
    where
      saturate :
          (g t : ℕ) → t + g < u256_mod → min (u256_mod - 1) (t + min (u256_mod - 1) g) ≡ t + g
      saturate g t s = omega arith

  -- What follows the front leg.
  gas_loop-tail :
      (opp : Opportunity) (raws : List Bytes) (ctx : BundleContext) (risk : RiskConfig)
      (nonce total : ℕ)
      → IsContext ctx
      → nonce < u64_mod
      → total + fee_cap ctx * ctx.gas_limit < u256_mod
      → gas_loop
          (map (victim_tx keccak) raws
            ++ (if is_empty opp.back_calls
                then []
                else sign_leg tag_of abi keccak sign_hash opp ctx risk opp.back_calls false nonce
                  ∷ []))
          total
        ≡ (if is_empty raws
            then value
                (total + (if is_empty opp.back_calls then 0 else 1) * (fee_cap ctx * ctx.gas_limit))
            else absent)
  gas_loop-tail opp [] ctx risk nonce total c h small =
      let g = fee_cap ctx * ctx.gas_limit in
      let leg = gas_loop-sign_leg opp ctx risk opp.back_calls false nonce total [] c h small in
      let once : total + g ≡ total + 1 * g = omega arith in
      elim (Bool-cases (is_empty opp.back_calls)) [
        | inl b ↦ rw b (unfold gas_loop in ap value (omega arith))
        | inr b ↦ rw (b, leg) (unfold gas_loop in ap value once)
      ]
  gas_loop-tail opp (r ∷ rs) ctx risk nonce total c h small = unfold gas_loop victim_tx in refl

  -- For an ABI coder that writes fewer than 2^63 bytes, a signer whose signatures have 32-byte
  -- scalars, and a context of words: the gas at risk of a bundle without a victim is, for each of
  -- its legs, the signed fee cap times the gas limit, where this does not overflow for two legs; a
  -- bundle with a victim is refused.
  pub raw_bundle_gas_at_risk-build_bundle :
      (id : String) (now : ℕ) (opp : Opportunity) (raws : List Bytes) (ctx : BundleContext)
      (risk : RiskConfig)
      → IsContext ctx
      → 2 * (fee_cap ctx * ctx.gas_limit) < u256_mod
      → raw_bundle_gas_at_risk (build_bundle tag_of abi keccak sign_hash id now opp raws ctx risk)
        ≡ (if is_empty raws then value (legs opp * (fee_cap ctx * ctx.gas_limit)) else absent)
  unfolding raw_bundle_gas_at_risk build_bundle bundle_txs legs
  raw_bundle_gas_at_risk-build_bundle id now opp raws ctx risk c small =
      let n = ctx.nonce in
      let g = fee_cap ctx * ctx.gas_limit in
      let next : (n + 1) % u64_mod ≡ n + 1 = mod-eq_of_lt c.nonce in
      let k : ℕ = if is_empty opp.back_calls then 0 else 1 in
      let total : ℕ → Outcome ℕ = λ m. if is_empty raws then value m else absent in
      let only = gas_loop-tail opp raws ctx risk n 0 c (omega (arith, c.nonce)) (omega arith) in
      let back = gas_loop-tail opp raws ctx risk (n + 1) (0 + g) c c.nonce (omega arith) in
      let one_leg : 0 + k * g ≡ (0 + k) * g = grind arith in
      let two_legs : 0 + g + k * g ≡ (1 + k) * g = grind arith in
      let front =
        gas_loop-sign_leg opp ctx risk opp.front_calls true n 0 _ c (omega (arith, c.nonce))
          (omega arith) in
      elim (Bool-cases (is_empty opp.front_calls)) [
        | inl f ↦ rw f (only ∙ ap total one_leg)
        | inr f ↦ rw (f, next) (front ∙ back ∙ ap total two_legs)
      ]
