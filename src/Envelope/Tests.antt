-- ===== src/Envelope/Tests.antt =====
-- The theorems on signed transactions at concrete transactions.
use arrow_head.Prelude.{
  ℕ, ◌+◌, ◌<◌, ◌≡◌, ◌≢◌, ◌^◌, refl, List, [], ◌∷◌, arith, All, length, map, Option, some,
}
use arrow_head.Prelude.Outcome.{value, absent}
use arrow_head.Types.{Address, B256, Bytes}
use arrow_head.Rlp.{strip_zeros, encode_list, encode_bytes, encode_length, to_be_bytes}
use arrow_head.Rlp.Digits.{IsByte}
use arrow_head.Rlp.Items.{room}
use arrow_head.Rlp.Lists.{encoded, Fits}
use arrow_head.Signer.{Eip1559Tx, encode_signed, encode_for_signing}
use arrow_head.Envelope.{decode_raw_transaction, recover_sender}
use arrow_head.Envelope.Fields.{IsWord, IsSignature, digits}
use arrow_head.Envelope.RoundTrip.{decode_raw_transaction-encode_signed}
use arrow_head.Envelope.Typed.{Eip2930Tx, eip2930_fields, decode_raw_transaction-eip2930}
use mathlib.Core.List.{flatten}

abbrev tx : Eip1559Tx
tx = record {
  chain_id = 8_453;
  nonce = 5;
  max_priority_fee_per_gas = 1_000;
  max_fee_per_gas = 2_000;
  gas_limit = 21_000;
  to = some 0xabcd;
  value = 0;
  payload = 1 ∷ 2 ∷ [];
}

abbrev scalar : List ℕ
scalar =
    0 ∷ 1 ∷ 0 ∷ 0 ∷ 0 ∷ 0 ∷ 0 ∷ 0 ∷ 0 ∷ 0 ∷ 0 ∷ 0 ∷ 0 ∷ 0 ∷ 0 ∷ 0 ∷ 0 ∷ 0 ∷ 0 ∷ 0 ∷ 0 ∷ 0 ∷ 0 ∷ 0
    ∷ 0 ∷ 0 ∷ 0 ∷ 0 ∷ 0 ∷ 0 ∷ 0 ∷ 9 ∷ []

abbrev keccak : Bytes → B256
keccak b = length b

abbrev recover : B256 → Bytes → ℕ → Option Address
recover hash sig parity = some (hash + parity)

tx-IsWord : IsWord tx
tx-IsWord = record {
  chain_id = omega arith;
  nonce = omega arith;
  tip = omega arith;
  cap = omega arith;
  gas_limit = omega arith;
  value_word = omega arith;
  to_word = omega arith;
  payload_bytes = (omega arith, (omega arith, tt));
  payload_length = omega arith;
}

scalar-IsByte : All IsByte scalar
scalar-IsByte = ground arith

signature : IsSignature 1 scalar scalar
signature = record {
  parity = omega arith;
  r_bytes = scalar-IsByte;
  s_bytes = scalar-IsByte;
  r_length = refl;
  s_length = refl;
}

decode_raw_transaction-encode_signed_example :
    decode_raw_transaction keccak recover (encode_signed tx 1 scalar scalar)
    ≡ value (record {
      hash = keccak (encode_signed tx 1 scalar scalar);
      from =
          recover_sender keccak recover
            (keccak (encode_for_signing tx))
            (digits 8 1)
            (strip_zeros scalar)
            (strip_zeros scalar);
      to = some 0xabcd;
      value = 0;
      nonce = 5;
      gas_limit = 21_000;
      max_fee_per_gas = 2_000;
      max_priority_fee_per_gas = 1_000;
      input = 1 ∷ 2 ∷ [];
    })
decode_raw_transaction-encode_signed_example =
    decode_raw_transaction-encode_signed keccak recover tx 1 scalar scalar tx-IsWord signature

-- A transfer of one ether.
abbrev transfer : Eip2930Tx
transfer = record {
  chain_id = 1;
  nonce = 0;
  gas_price = 7;
  gas_limit = 21_000;
  to = scalar_20;
  value = 10 ^ 18;
  payload = [];
  access_list = [];
  y_parity = 1 ∷ [];
  r = 9 ∷ [];
  s = 9 ∷ [];
}
  where
    scalar_20 : List ℕ
    scalar_20 =
        1 ∷ 2 ∷ 3 ∷ 4 ∷ 5 ∷ 6 ∷ 7 ∷ 8 ∷ 9 ∷ 10 ∷ 11 ∷ 12 ∷ 13 ∷ 14 ∷ 15 ∷ 16 ∷ 17 ∷ 18 ∷ 19 ∷ 20
        ∷ []

transfer-Fits : All Fits (eip2930_fields transfer)
unfolding flatten strip_zeros to_be_bytes
transfer-Fits = ground arith

transfer-length : length (flatten (map encoded (eip2930_fields transfer))) < room
unfolding encode_bytes encode_list encode_length flatten strip_zeros to_be_bytes
transfer-length = omega arith

ether_digits : length (digits 32 (10 ^ 18)) ≢ 20
unfolding strip_zeros to_be_bytes
ether_digits = omega arith

decode_raw_transaction-eip2930_example :
    decode_raw_transaction keccak recover
      (0x01 ∷ encode_list (map encoded (eip2930_fields transfer)))
    ≡ absent
decode_raw_transaction-eip2930_example =
    decode_raw_transaction-eip2930 keccak recover transfer transfer-Fits transfer-length
      (omega arith) (omega arith) ether_digits
