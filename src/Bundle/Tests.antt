-- ===== src/Bundle/Tests.antt =====
-- The transactions of a concrete bundle.
use arrow_head.Prelude.{◌≡◌, true, false, [], ◌∷◌, map, refl}
use arrow_head.Inventory.{legs}
use arrow_head.Envelope.{decode_eip1559_nonce}
use arrow_head.Bundle.{build_bundle, guard_of, enforce}
use arrow_head.Bundle.Owned.{owned, victims}
use arrow_head.Bundle.Legs.{nonces_from, build_bundle-nonces}
use arrow_head.Bundle.Samples.{
  sandwich, limits, tag_of, abi, keccak, sign_hash, abi_bytes, signs, context, context-IsContext,
}

build_bundle-nonces_example :
    (map
        (λ t. decode_eip1559_nonce t.raw)
        (owned
          (build_bundle tag_of abi keccak sign_hash "b" 0 sandwich
            ((1 ∷ []) ∷ [])
            context
            limits).txs)
      ≡ nonces_from 7 (legs sandwich))
    × (victims
          (build_bundle tag_of abi keccak sign_hash "b" 0 sandwich
            ((1 ∷ []) ∷ [])
            context
            limits).txs
        ≡ (1 ∷ []) ∷ [])
build_bundle-nonces_example =
    build_bundle-nonces tag_of abi keccak sign_hash abi_bytes signs "b" 0 sandwich ((1 ∷ []) ∷ [])
      context limits context-IsContext

-- The front leg of a sandwich asks for no profit and pays no bribe.
front_min_profit : (guard_of sandwich true limits).min_profit ≡ 0
unfolding guard_of enforce
front_min_profit = refl

back_min_profit : (guard_of sandwich false limits).min_profit ≡ 1_000
unfolding guard_of enforce
back_min_profit = refl
