-- ===== src/Envelope/Fields.antt =====
-- The fields of a signed transaction, as items of a list, and how long their encodings are.
use arrow_head.Prelude.{
  ℕ, zero, suc, ◌+◌, ◌/◌, ◌^◌, ◌≤◌, ◌<◌, ◌≡◌, Option, none, some, List, [], ◌∷◌, ◌++◌, map, arith,
  length, length-append, ◌==◌, u64_mod, u256_mod, All, Bool-cases, ==_iff, inl, inr,
}
use arrow_head.Prelude.Outcome.{value}
use arrow_head.Types.{Address}
use arrow_head.Rlp.{
  to_be_bytes, strip_zeros, encode_length, encode_bytes, encode_list, encode_u64, encode_u256,
  decode_list,
}
use arrow_head.Rlp.Digits.{IsByte, length-digits, length-strip_zeros, length-to_be_bytes}
use arrow_head.Rlp.Items.{room}
use arrow_head.Rlp.Lists.{Field, encoded, decoded, Fits, decode_list-encode_list}
use arrow_head.Signer.{Eip1559Tx, to_bytes, body, trim_leading_zeros, encode_signed}
use mathlib.Core.List.{flatten}

-- An address has 20 bytes.
abbrev pub AddressFits : Option Address → Type 0
AddressFits none = Unit {0}
AddressFits (some a) = a < 256 ^ 20

-- The fields are words of their types, and the payload is shorter than 2 ^ 63 bytes.
pub record IsWord (tx : Eip1559Tx) : Type 0 where
  pub chain_id : tx.chain_id < u64_mod
  pub nonce : tx.nonce < u64_mod
  pub tip : tx.max_priority_fee_per_gas < u256_mod
  pub cap : tx.max_fee_per_gas < u256_mod
  pub gas_limit : tx.gas_limit < u64_mod
  pub value_word : tx.value < u256_mod
  pub to_word : AddressFits tx.to
  pub payload_bytes : All IsByte tx.payload
  pub payload_length : length tx.payload < 2 ^ 63

-- The signature: a parity byte, and `r` and `s` of 32 bytes.
pub record IsSignature (v : ℕ) (r s : List ℕ) : Type 0 where
  pub parity : v < 256
  pub r_bytes : All IsByte r
  pub s_bytes : All IsByte s
  pub r_length : length r ≡ 32
  pub s_length : length s ≡ 32

abbrev pub digits : ℕ → ℕ → List ℕ
digits n v = strip_zeros (to_be_bytes n v)

encode_u64-eq : (v : ℕ) → encode_u64 v ≡ encode_bytes (digits 8 v)
unfolding encode_u64 strip_zeros to_be_bytes
encode_u64-eq v = elim (Bool-cases (v == 0)) [
  | inl z ↦ let e : v ≡ 0 = (==_iff v 0).0 z in rw e
  | inr nz ↦ rw nz
]

encode_u256-eq : (v : ℕ) → encode_u256 v ≡ encode_bytes (digits 32 v)
unfolding encode_u256 strip_zeros to_be_bytes
encode_u256-eq v = elim (Bool-cases (v == 0)) [
  | inl z ↦ let e : v ≡ 0 = (==_iff v 0).0 z in rw e
  | inr nz ↦ rw nz
]

All-append : (xs ys : List ℕ) → All IsByte xs → All IsByte ys → All IsByte (xs ++ ys)
All-append [] ys h k = k
All-append (x ∷ xs) ys h k = (h.0, All-append xs ys h.1 k)

All-to_be_bytes : (n v : ℕ) → All IsByte (to_be_bytes n v)
unfolding to_be_bytes
All-to_be_bytes zero v = tt
All-to_be_bytes (suc n) v =
    All-append (to_be_bytes n (v / 256)) _ (All-to_be_bytes n (v / 256)) (omega arith)

All-strip_zeros : (bs : List ℕ) → All IsByte bs → All IsByte (strip_zeros bs)
unfolding strip_zeros
All-strip_zeros [] h = tt
All-strip_zeros (b ∷ bs) h = ground (arith, All-strip_zeros bs h.1)

Fits-digits : (n v : ℕ) → n < 33 → Fits (Field.text (digits n v))
Fits-digits n v h = (All-strip_zeros _ (All-to_be_bytes n v), omega (arith, length-digits n v))

Fits-trim : (b : List ℕ) → All IsByte b → length b ≡ 32 → Fits (Field.text (strip_zeros b))
Fits-trim b h e = (All-strip_zeros b h, omega (arith, length-strip_zeros b))

pub All-to_bytes : (to : Option Address) → All IsByte (to_bytes to)
unfolding to_bytes
All-to_bytes none = tt
All-to_bytes (some a) = All-to_be_bytes 20 a

length-to_bytes : (to : Option Address) → length (to_bytes to) ≤ 20
unfolding to_bytes
length-to_bytes none = omega arith
length-to_bytes (some a) = omega (arith, length-to_be_bytes 20 a)

abbrev pub body_fields : Eip1559Tx → List Field
body_fields tx =
    Field.text (digits 8 tx.chain_id)
    ∷ Field.text (digits 8 tx.nonce)
    ∷ Field.text (digits 32 tx.max_priority_fee_per_gas)
    ∷ Field.text (digits 32 tx.max_fee_per_gas)
    ∷ Field.text (digits 8 tx.gas_limit)
    ∷ Field.text (to_bytes tx.to)
    ∷ Field.text (digits 32 tx.value)
    ∷ Field.text tx.payload
    ∷ Field.nested []
    ∷ []

abbrev pub signed_fields : Eip1559Tx → ℕ → List ℕ → List ℕ → List Field
signed_fields tx v r s =
    body_fields tx
    ++ (Field.text (digits 8 v) ∷ Field.text (strip_zeros r) ∷ Field.text (strip_zeros s) ∷ [])

pub body-eq : (tx : Eip1559Tx) → body tx ≡ map encoded (body_fields tx)
unfolding body
body-eq tx = simp (encode_u64-eq, encode_u256-eq)

pub encode_signed-eq :
    (tx : Eip1559Tx) (v : ℕ) (r s : List ℕ)
    → encode_signed tx v r s ≡ 0x02 ∷ encode_list (map encoded (signed_fields tx v r s))
unfolding encode_signed trim_leading_zeros
encode_signed-eq tx v r s = simp (body-eq, encode_u64-eq)

pub signed_fields-Fits :
    (tx : Eip1559Tx) (v : ℕ) (r s : List ℕ)
    → IsWord tx
    → IsSignature v r s
    → All Fits (signed_fields tx v r s)
signed_fields-Fits tx v r s w g = (
  Fits-digits 8 tx.chain_id (omega arith),
  (
    Fits-digits 8 tx.nonce (omega arith),
    (
      Fits-digits 32 tx.max_priority_fee_per_gas (omega arith),
      (
        Fits-digits 32 tx.max_fee_per_gas (omega arith),
        (
          Fits-digits 8 tx.gas_limit (omega arith),
          (
            (All-to_bytes tx.to, omega (arith, length-to_bytes tx.to)),
            (
              Fits-digits 32 tx.value (omega arith),
              (
                (w.payload_bytes, omega (arith, w.payload_length)),
                (
                  nested_nil,
                  (
                    Fits-digits 8 v (omega arith),
                    (Fits-trim r g.r_bytes g.r_length, (Fits-trim s g.s_bytes g.s_length, tt)),
                  ),
                ),
              ),
            ),
          ),
        ),
      ),
    ),
  ),
)
  where
    nested_nil : length (flatten {A = ℕ} []) < room
    nested_nil = unfold flatten in omega arith

length-encode_length : (len offset : ℕ) → length (encode_length len offset) ≤ 9
unfolding encode_length
length-encode_length len offset = ground (arith, length-digits 8 len)

length-encode_bytes : (b : List ℕ) → length (encode_bytes b) ≤ length b + 9
unfolding encode_bytes
length-encode_bytes [] = omega (arith, length-encode_length 0 0x80)
length-encode_bytes (b ∷ []) =
    ground (arith, length-encode_length 1 0x80, length-append (encode_length 1 0x80) (b ∷ []))
length-encode_bytes (b ∷ c ∷ bs) = omega (
  arith,
  length-encode_length (length (b ∷ c ∷ bs)) 0x80,
  length-append (encode_length (length (b ∷ c ∷ bs)) 0x80) (b ∷ c ∷ bs),
)

-- Of a field with its prefix.
abbrev field_length : Field → ℕ
field_length f = length (decoded f) + 9

length-encoded : (f : Field) → length (encoded f) ≤ field_length f
length-encoded (Field.text b) = length-encode_bytes b
length-encoded (Field.nested items) = omega arith

abbrev fields_length : List Field → ℕ
fields_length [] = 0
fields_length (f ∷ fs) = field_length f + fields_length fs

length-fields : (fs : List Field) → length (flatten (map encoded fs)) ≤ fields_length fs
unfolding flatten
length-fields [] = omega arith
length-fields (f ∷ fs) = omega (
  arith,
  length-append (encoded f) (flatten (map encoded fs)),
  length-encoded f,
  length-fields fs,
)

-- The payload of a signed transaction leaves room for its prefix.
pub length-signed_fields :
    (tx : Eip1559Tx) (v : ℕ) (r s : List ℕ)
    → IsWord tx
    → IsSignature v r s
    → length (flatten (map encoded (signed_fields tx v r s))) < room
length-signed_fields tx v r s w g = omega (
  arith,
  length-fields (signed_fields tx v r s),
  length-digits 8 tx.chain_id,
  length-digits 8 tx.nonce,
  length-digits 32 tx.max_priority_fee_per_gas,
  length-digits 32 tx.max_fee_per_gas,
  length-digits 8 tx.gas_limit,
  length-to_bytes tx.to,
  length-digits 32 tx.value,
  w.payload_length,
  nested_nil,
  length-digits 8 v,
  length-strip_zeros r,
  g.r_length,
  length-strip_zeros s,
  g.s_length,
)
  where
    nested_nil : length (encode_list []) ≤ 9
    nested_nil =
        unfold encode_list flatten in
        omega (arith, length-encode_length 0 0xc0, length-append (encode_length 0 0xc0) [])

-- The list of a signed transaction is read back, field by field.
pub decode_list-signed :
    (tx : Eip1559Tx) (v : ℕ) (r s : List ℕ)
    → IsWord tx
    → IsSignature v r s
    → decode_list (encode_list (map encoded (signed_fields tx v r s)))
      ≡ value (map decoded (signed_fields tx v r s))
decode_list-signed tx v r s w g =
    decode_list-encode_list (signed_fields tx v r s) (signed_fields-Fits tx v r s w g)
      (length-signed_fields tx v r s w g)
