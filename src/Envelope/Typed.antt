-- ===== src/Envelope/Typed.antt =====
-- The places of the fields in a typed transaction. `decode_raw_transaction` reads the places of
-- EIP-1559 in an EIP-2930 transaction too, which has one gas price in the place of two fee caps.
use arrow_head.Prelude.{ℕ, ◌<◌, ◌≡◌, ◌≢◌, Option, List, [], ◌∷◌, map, arith, length, All, u256_mod}
use arrow_head.Prelude.Outcome.{absent}
use arrow_head.Types.{Address, B256, Bytes}
use arrow_head.Rlp.{encode_list}
use arrow_head.Rlp.Digits.{digits_pos}
use arrow_head.Rlp.Items.{room}
use arrow_head.Rlp.Lists.{Field, encoded, Fits, decode_list-encode_list}
use arrow_head.Envelope.{item_at, typed_shape, to_of, decoded_of, decode_raw_transaction}
use arrow_head.Envelope.Fields.{digits}
use mathlib.Core.List.{flatten}

-- An EIP-2930 transaction with its signature.
pub record Eip2930Tx : Type 0 where
  pub chain_id : ℕ
  pub nonce : ℕ
  pub gas_price : ℕ
  pub gas_limit : ℕ
  pub to : Bytes
  pub value : ℕ
  pub payload : Bytes
  pub access_list : List Bytes
  pub y_parity : Bytes
  pub r : Bytes
  pub s : Bytes

-- Its fields in the order of the standard.
abbrev pub eip2930_fields : Eip2930Tx → List Field
eip2930_fields tx =
    Field.text (digits 8 tx.chain_id)
    ∷ Field.text (digits 8 tx.nonce)
    ∷ Field.text (digits 32 tx.gas_price)
    ∷ Field.text (digits 8 tx.gas_limit)
    ∷ Field.text tx.to
    ∷ Field.text (digits 32 tx.value)
    ∷ Field.text tx.payload
    ∷ Field.nested tx.access_list
    ∷ Field.text tx.y_parity
    ∷ Field.text tx.r
    ∷ Field.text tx.s
    ∷ []

to_of-absent : (b : Bytes) → 0 < length b → length b ≢ 20 → to_of b ≡ absent
unfolding to_of
to_of-absent [] pos ne = absurd (omega arith)
to_of-absent (x ∷ b) pos ne = ground arith

-- An encoded EIP-2930 transaction is refused as malformed whenever its value is not zero and is
-- not of 20 bytes, since the value stands where the decoder reads the receiver.
pub decode_raw_transaction-eip2930 :
    (keccak : Bytes → B256) (recover : B256 → Bytes → ℕ → Option Address) (tx : Eip2930Tx)
    → All Fits (eip2930_fields tx)
    → length (flatten (map encoded (eip2930_fields tx))) < room
    → 0 < tx.value
    → tx.value < u256_mod
    → length (digits 32 tx.value) ≢ 20
    → decode_raw_transaction keccak recover (0x01 ∷ encode_list (map encoded (eip2930_fields tx)))
      ≡ absent
unfolding decode_raw_transaction decoded_of typed_shape item_at
decode_raw_transaction-eip2930 keccak recover tx fits short pos word ne = rw (
  decode_list-encode_list (eip2930_fields tx) fits short,
  to_of-absent (digits 32 tx.value) (digits_pos 32 tx.value pos word) ne,
)
