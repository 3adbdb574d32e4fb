-- ===== src/Envelope.antt =====
-- The signed transactions that bot/crates/mev-bot/src/rlp.rs decodes: the fee envelope of an own
-- transaction, and any transaction of a feed. `keccak256` is an argument, and so is the recovery of
-- a signer from a hash, a signature of 64 bytes and a parity (k256, with the address of the key).
pub mod Fields
pub mod RoundTrip
pub mod Typed
mod Tests
use arrow_head.Prelude.{
  ℕ, zero, suc, ◌+◌, ◌-◌, Bool, true, false, Option, none, some, List, [], ◌∷◌, ◌++◌, map, ltb, leb,
  ◌==◌, ◌&&◌, ◌||◌, if◌then◌else◌, length, take, get_elem?, is_empty,
}
use arrow_head.Prelude.Outcome.{Outcome, value, absent, panicked, ◌>>=◌, ◌>>◌, absent_if}
use arrow_head.Types.{Address, B256, Bytes}
use arrow_head.Rlp.{decode_list, decode_u64, decode_u256, encode_bytes, encode_list, from_be_slice}

pub record Eip1559Envelope : Type 0 where
  pub nonce : ℕ
  pub max_priority_fee_per_gas : ℕ
  pub max_fee_per_gas : ℕ
  pub gas_limit : ℕ

pub record DecodedTx : Type 0 where
  pub hash : B256
  pub from : Option Address
  pub to : Option Address
  pub value : ℕ
  pub nonce : ℕ
  pub gas_limit : ℕ
  pub max_fee_per_gas : ℕ
  pub max_priority_fee_per_gas : ℕ
  pub input : Bytes

-- `items[i]`
unfoldable pub item_at : List Bytes → ℕ → Outcome Bytes
item_at [] i = panicked
item_at (x ∷ xs) zero = value x
item_at (x ∷ xs) (suc i) = item_at xs i

unfoldable pub envelope_of : List Bytes → Outcome Eip1559Envelope
envelope_of items = do
  absent_if (ltb (length items) 5)
  nonce ← decode_u64 (← item_at items 1)
  tip ← decode_u256 (← item_at items 2)
  cap ← decode_u256 (← item_at items 3)
  gas ← decode_u64 (← item_at items 4)
  value (record {
    nonce = nonce;
    max_priority_fee_per_gas = tip;
    max_fee_per_gas = cap;
    gas_limit = gas;
  })

unfoldable pub decode_eip1559_envelope : Bytes → Outcome Eip1559Envelope
decode_eip1559_envelope [] = absent
decode_eip1559_envelope (first ∷ payload) =
    if first == 0x02 then (do envelope_of (← decode_list payload)) else absent

unfoldable pub decode_eip1559_nonce : Bytes → Outcome ℕ
decode_eip1559_nonce raw = do envelope ← decode_eip1559_envelope raw; value envelope.nonce

-- The places of the fields, and where the signature begins.
pub record Shape : Type 0 where
  pub sig_start : ℕ
  pub typed : Bool
  pub nonce_i : ℕ
  pub tip_i : ℕ
  pub cap_i : ℕ
  pub gas_i : ℕ
  pub to_i : ℕ
  pub val_i : ℕ
  pub data_i : ℕ

unfoldable pub legacy_shape : Shape
legacy_shape = record {
  sig_start = 6;
  typed = false;
  nonce_i = 0;
  tip_i = 1;
  cap_i = 1;
  gas_i = 2;
  to_i = 3;
  val_i = 4;
  data_i = 5;
}

unfoldable pub typed_shape : ℕ → Shape
typed_shape sig_start = record {
  sig_start = sig_start;
  typed = true;
  nonce_i = 1;
  tip_i = 2;
  cap_i = 3;
  gas_i = 4;
  to_i = 5;
  val_i = 6;
  data_i = 7;
}

unfoldable pub to_of : Bytes → Outcome (Option Address)
to_of b =
    if is_empty b
    then value none
    else if length b == 20
    then value (some (from_be_slice b 0))
    else absent

-- Which place of an unsigned prefix holds an item that is already encoded.
unfoldable pub is_list : ℕ → ℕ → Bool
is_list kind idx =
    (kind == 0x01 && idx == 7)
    || (kind == 0x02 && idx == 8)
    || (kind == 0x03 && idx == 9)
    || (kind == 0x03 && idx == 10)

-- The unsigned prefix, encoded again, from the place `idx` on.
unfoldable pub parts_from : ℕ → ℕ → List Bytes → List Bytes
parts_from kind idx [] = []
parts_from kind idx (item ∷ items) =
    (if is_list kind idx then item else encode_bytes item) ∷ parts_from kind (suc idx) items

module _ (keccak : Bytes → B256) (recover : B256 → Bytes → ℕ → Option Address) where
  unfoldable pub sighash : ℕ → List Bytes → B256
  sighash kind unsigned =
      let body = encode_list (parts_from kind 0 unsigned) in
      if leb 0xc0 kind then keccak body else keccak (kind ∷ body)

  -- A scalar of at most 32 bytes at the end of a field of 32.
  abbrev padded : ℕ → Bytes → Bytes
  padded zero b = b
  padded (suc n) b = 0 ∷ padded n b

  abbrev parity_of : Bytes → Option ℕ
  parity_of [] = some 0
  parity_of (v ∷ []) = some v
  parity_of (v ∷ w ∷ bs) = none

  abbrev recover_at : B256 → Bytes → Option ℕ → Option Address
  recover_at hash sig none = none
  recover_at hash sig (some parity) = recover hash sig parity

  unfoldable pub recover_sender : B256 → Bytes → Bytes → Bytes → Option Address
  recover_sender hash y_parity r s =
      if ltb 32 (length r) || ltb 32 (length s)
      then none
      else recover_at hash (padded (32 - length r) r ++ padded (32 - length s) s)
          (parity_of y_parity)

  -- From the items of a transaction of the type `kind`, which the raw bytes `raw` hold.
  unfoldable pub decoded_of : Bytes → ℕ → Shape → List Bytes → Outcome DecodedTx
  decoded_of raw kind shape items = do
    absent_if (ltb (length items) (shape.sig_start + 3))
    to ← to_of (← item_at items shape.to_i)
    y_parity ← item_at items shape.sig_start
    r ← item_at items (shape.sig_start + 1)
    s ← item_at items (shape.sig_start + 2)
    let from =
        if shape.typed
        then recover_sender (sighash kind (take shape.sig_start items)) y_parity r s
        else none
    wei ← decode_u256 (← item_at items shape.val_i)
    nonce ← decode_u64 (← item_at items shape.nonce_i)
    gas ← decode_u64 (← item_at items shape.gas_i)
    cap ← decode_u256 (← item_at items shape.cap_i)
    tip ← decode_u256 (← item_at items shape.tip_i)
    input ← item_at items shape.data_i
    value (record {
      hash = keccak raw;
      from = from;
      to = to;
      value = wei;
      nonce = nonce;
      gas_limit = gas;
      max_fee_per_gas = cap;
      max_priority_fee_per_gas = tip;
      input = input;
    })

  unfoldable pub decode_raw_transaction : Bytes → Outcome DecodedTx
  decode_raw_transaction [] = absent
  decode_raw_transaction (kind ∷ payload) =
      let raw = kind ∷ payload in
      if leb 0xc0 kind
      then (do decoded_of raw kind legacy_shape (← decode_list raw))
      else if kind == 0x01
      then (do decoded_of raw kind (typed_shape 8) (← decode_list payload))
      else if kind == 0x02
      then (do decoded_of raw kind (typed_shape 9) (← decode_list payload))
      else if kind == 0x03
      then (do decoded_of raw kind (typed_shape 11) (← decode_list payload))
      else absent
