-- ===== src/Rlp/Tests.antt =====
-- The coder on the vectors of the Ethereum yellow paper, and the theorems at concrete bytes.
use arrow_head.Prelude.{
  ℕ, ◌-◌, ◌<◌, ◌≡◌, ◌≢◌, ◌⊎◌, refl, List, [], ◌∷◌, ◌++◌, arith, All, length, map, u64_mod,
}
use arrow_head.Prelude.Outcome.{value, absent, panicked, out_of_fuel}
use arrow_head.Rlp.{
  encode_bytes, encode_list, encode_u64, encode_length, strip_zeros, to_be_bytes, take_item,
  take_span, take_long, slice, slice_from, decode_list, decode_be_usize, be_usize_loop,
  is_leading_zero, items_loop, decode_u64,
}
use arrow_head.Rlp.Digits.{IsByte}
use arrow_head.Rlp.Items.{room}
use arrow_head.Rlp.Lists.{Field, encoded, decoded, decode_list-encode_list}
use arrow_head.Rlp.Progress.{WrapsToFront, Reaches, items_loop-ends}
use arrow_head.Rlp.Faults.{take_item-panics, items_loop-diverges}
use mathlib.Core.List.{flatten}

abbrev dog : List ℕ
dog = 0x64 ∷ 0x6f ∷ 0x67 ∷ []

encode_dog : encode_bytes dog ≡ 0x83 ∷ dog
unfolding encode_bytes encode_length
encode_dog = refl

encode_1024 : encode_u64 1_024 ≡ 0x82 ∷ 0x04 ∷ 0x00 ∷ []
unfolding encode_u64 encode_bytes encode_length strip_zeros to_be_bytes
encode_1024 = refl

-- A length that needs no long form is read in that form too.
long_form : take_item (0xb8 ∷ 1 ∷ 0x64 ∷ []) ≡ value (0x64 ∷ [], [])
unfolding take_item take_long take_span slice slice_from decode_be_usize be_usize_loop
    is_leading_zero
long_form = refl

leading_zero : decode_u64 (0 ∷ 1 ∷ []) ≡ absent
unfolding decode_u64 is_leading_zero
leading_zero = refl

dog-IsByte : All IsByte dog
dog-IsByte = (omega arith, (omega arith, (omega arith, tt)))

abbrev dog_fields : List Field
dog_fields = Field.text dog ∷ Field.nested [] ∷ []

dog_fields-length : length (flatten (map encoded dog_fields)) < room
unfolding encode_bytes encode_list encode_length flatten
dog_fields-length = omega arith

decode_list-encode_list_example :
    decode_list (encode_list (map encoded dog_fields)) ≡ value (map decoded dog_fields)
unfolding flatten
decode_list-encode_list_example =
    decode_list-encode_list dog_fields ((dog-IsByte, omega arith), (omega arith, tt))
      dog_fields-length

items_loop-ends_example :
    (items_loop 4 (0x83 ∷ dog) ≢ out_of_fuel)
    ⊎ ((rest : List ℕ) × Reaches (0x83 ∷ dog) rest × WrapsToFront rest)
items_loop-ends_example = items_loop-ends 4 (0x83 ∷ dog) (omega arith, dog-IsByte) (omega arith)

-- 2 ^ 64 - 9 in eight bytes.
abbrev huge : List ℕ
huge = 0xff ∷ 0xff ∷ 0xff ∷ 0xff ∷ 0xff ∷ 0xff ∷ 0xff ∷ 0xf7 ∷ []

decode_huge : decode_be_usize huge ≡ value (u64_mod - 9)
unfolding decode_be_usize be_usize_loop is_leading_zero
decode_huge = refl

take_item-panics_example : take_item (0xbf ∷ (huge ++ dog)) ≡ panicked
take_item-panics_example =
    take_item-panics huge dog (u64_mod - 9) refl decode_huge (omega arith) (omega arith)

items_loop-diverges_example : items_loop 1_000 (0xff ∷ (huge ++ dog)) ≡ out_of_fuel
items_loop-diverges_example = items_loop-diverges 1_000 huge dog refl decode_huge
