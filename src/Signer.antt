-- ===== src/Signer.antt =====
-- The EIP-1559 transaction of bot/crates/mev-bot/src/signer.rs, as it is encoded and signed. The
-- hash and the signature (`keccak256` and k256) are arguments: what `sign_hash` returns is the
-- parity with `r` and `s` of 32 bytes each.
use arrow_head.Prelude.{ℕ, Option, none, some, List, [], ◌∷◌, ◌++◌}
use arrow_head.Types.{Address, B256, Bytes}
use arrow_head.Rlp.{encode_u64, encode_u256, encode_bytes, encode_list, to_be_bytes, strip_zeros}

pub record Eip1559Tx : Type 0 where
  pub chain_id : ℕ
  pub nonce : ℕ
  pub max_priority_fee_per_gas : ℕ
  pub max_fee_per_gas : ℕ
  pub gas_limit : ℕ
  pub to : Option Address
  pub value : ℕ
  pub payload : Bytes

-- `a.as_slice()` of a set address, and no byte otherwise.
unfoldable pub to_bytes : Option Address → Bytes
to_bytes none = []
to_bytes (some a) = to_be_bytes 20 a

unfoldable pub body : Eip1559Tx → List Bytes
body tx =
    encode_u64 tx.chain_id
    ∷ encode_u64 tx.nonce
    ∷ encode_u256 tx.max_priority_fee_per_gas
    ∷ encode_u256 tx.max_fee_per_gas
    ∷ encode_u64 tx.gas_limit
    ∷ encode_bytes (to_bytes tx.to)
    ∷ encode_u256 tx.value
    ∷ encode_bytes tx.payload
    ∷ encode_list []
    ∷ []

unfoldable pub encode_for_signing : Eip1559Tx → Bytes
encode_for_signing tx = 0x02 ∷ encode_list (body tx)

-- `trim_leading_zeros` walks to the first byte that is not zero.
unfoldable pub trim_leading_zeros : Bytes → Bytes
trim_leading_zeros b = strip_zeros b

unfoldable pub encode_signed : Eip1559Tx → ℕ → Bytes → Bytes → Bytes
encode_signed tx y_parity r s =
    0x02
    ∷ encode_list (
        body tx
        ++ (encode_u64 y_parity
            ∷ encode_bytes (trim_leading_zeros r)
            ∷ encode_bytes (trim_leading_zeros s)
            ∷ []))

-- `Signer::sign_eip1559`: the raw transaction and its hash.
unfoldable pub sign_eip1559 : (Bytes → B256) → (B256 → ℕ × Bytes × Bytes) → Eip1559Tx → Bytes × B256
sign_eip1559 keccak sign_hash tx =
    let (v, r, s) = sign_hash (keccak (encode_for_signing tx)) in
    let raw = encode_signed tx v r s in (raw, keccak raw)
