-- ===== src/Envelope/RoundTrip.antt =====
-- Transactions from the encoder of bot/crates/mev-bot/src/signer.rs in the decoder of rlp.rs.
use arrow_head.Prelude.{
  ℕ, ◌≡◌, refl, Option, none, some, List, [], ◌∷◌, map, arith, length, take, ◌==◌, if◌then◌else◌,
  is_empty,
}
use arrow_head.Prelude.Outcome.{value, absent}
use arrow_head.Types.{Address, B256, Bytes}
use arrow_head.Rlp.{to_be_bytes, strip_zeros, from_be_slice}
use arrow_head.Rlp.Digits.{
  length-to_be_bytes, from_be_slice-to_be_bytes, decode_u64-digits, decode_u256-digits,
}
use arrow_head.Rlp.Lists.{decoded}
use arrow_head.Signer.{Eip1559Tx, to_bytes, encode_for_signing, encode_signed}
use arrow_head.Envelope.{
  item_at, envelope_of, decode_eip1559_envelope, typed_shape, to_of, is_list, parts_from, sighash,
  recover_sender, decoded_of, decode_raw_transaction,
}
use arrow_head.Envelope.Fields.{
  AddressFits, IsWord, IsSignature, digits, signed_fields, body-eq, encode_signed-eq,
  decode_list-signed,
}

-- The envelope of a signed transaction is that of the transaction: its nonce, its two fee caps and
-- its gas limit, for every transaction of words and every signature.
pub decode_eip1559_envelope-encode_signed :
    (tx : Eip1559Tx) (v : ℕ) (r s : List ℕ)
    → IsWord tx
    → IsSignature v r s
    → decode_eip1559_envelope (encode_signed tx v r s)
      ≡ value (record {
        nonce = tx.nonce;
        max_priority_fee_per_gas = tx.max_priority_fee_per_gas;
        max_fee_per_gas = tx.max_fee_per_gas;
        gas_limit = tx.gas_limit;
      })
unfolding decode_eip1559_envelope envelope_of item_at
decode_eip1559_envelope-encode_signed tx v r s w g = rw (
  encode_signed-eq tx v r s,
  decode_list-signed tx v r s w g,
  decode_u64-digits tx.nonce w.nonce,
  decode_u256-digits tx.max_priority_fee_per_gas w.tip,
  decode_u256-digits tx.max_fee_per_gas w.cap,
  decode_u64-digits tx.gas_limit w.gas_limit,
)

to_of-to_bytes : (to : Option Address) → AddressFits to → to_of (to_bytes to) ≡ value to
unfolding to_of to_bytes
to_of-to_bytes none h = refl
to_of-to_bytes (some a) h =
    let twenty : length (to_be_bytes 20 a) ≡ 20 = length-to_be_bytes 20 a in
    sized (to_be_bytes 20 a) twenty (from_be_slice-to_be_bytes 20 a h)
  where
    sized :
        (b : List ℕ)
        → length b ≡ 20
        → from_be_slice b 0 ≡ a
        → (if is_empty b
            then value none
            else if length b == 20
            then value (some (from_be_slice b 0))
            else absent)
          ≡ value (some a)
    sized [] e e' = absurd (omega arith)
    sized (x ∷ b) e e' = rw (e, e')

-- The unsigned prefix of a signed transaction, encoded again, is what the signer hashed.
sighash-signed :
    (keccak : Bytes → B256) (recover : B256 → Bytes → ℕ → Option Address) (tx : Eip1559Tx) (v : ℕ)
    (r s : List ℕ)
    → sighash keccak recover 0x02 (take 9 (map decoded (signed_fields tx v r s)))
      ≡ keccak (encode_for_signing tx)
unfolding sighash parts_from is_list encode_for_signing
sighash-signed keccak recover tx v r s = rw (body-eq tx)

-- A transaction that the signer encoded is decoded to its own fields, and its sender is what is
-- recovered from the hash that the signer signed, with the signature that it put in.
pub decode_raw_transaction-encode_signed :
    (keccak : Bytes → B256) (recover : B256 → Bytes → ℕ → Option Address) (tx : Eip1559Tx) (v : ℕ)
    (r s : List ℕ)
    → IsWord tx
    → IsSignature v r s
    → decode_raw_transaction keccak recover (encode_signed tx v r s)
      ≡ value (record {
        hash = keccak (encode_signed tx v r s);
        from =
            recover_sender keccak recover
              (keccak (encode_for_signing tx))
              (digits 8 v)
              (strip_zeros r)
              (strip_zeros s);
        to = tx.to;
        value = tx.value;
        nonce = tx.nonce;
        gas_limit = tx.gas_limit;
        max_fee_per_gas = tx.max_fee_per_gas;
        max_priority_fee_per_gas = tx.max_priority_fee_per_gas;
        input = tx.payload;
      })
unfolding decode_raw_transaction decoded_of typed_shape item_at
decode_raw_transaction-encode_signed keccak recover tx v r s w g = rw (
  encode_signed-eq tx v r s,
  decode_list-signed tx v r s w g,
  to_of-to_bytes tx.to w.to_word,
  sighash-signed keccak recover tx v r s,
  decode_u256-digits tx.value w.value_word,
  decode_u64-digits tx.nonce w.nonce,
  decode_u64-digits tx.gas_limit w.gas_limit,
  decode_u256-digits tx.max_fee_per_gas w.cap,
  decode_u256-digits tx.max_priority_fee_per_gas w.tip,
)
