-- ===== src/Rlp/Lists.antt =====
-- Lists of items: `encode_list` and `decode_list` of bot/crates/mev-bot/src/rlp.rs.
use arrow_head.Prelude.{
  ℕ, zero, suc, ◌≤◌, ◌<◌, ◌≡◌, refl, List, [], ◌∷◌, ◌++◌, map, arith, length, length-append, All,
}
use arrow_head.Rlp.{
  encode_length, encode_bytes, encode_list, take_item, take_list, items_loop, decode_list,
}
use arrow_head.Rlp.Digits.{IsByte}
use arrow_head.Rlp.Items.{room, take_item-encode_bytes, take_item-list, take_list-encoded}
use arrow_head.Prelude.Outcome.{value}
use mathlib.Core.List.{flatten, append-nil, append_assoc}

-- A field of a list: a byte string, or a nested list of encoded items.
pub data Field : Type 0 where
  text : List ℕ → Field
  nested : List (List ℕ) → Field

abbrev pub encoded : Field → List ℕ
encoded (Field.text b) = encode_bytes b
encoded (Field.nested items) = encode_list items

-- `decode_list` hands a nested list back with its prefix.
abbrev pub decoded : Field → List ℕ
decoded (Field.text b) = b
decoded (Field.nested items) = encode_list items

abbrev pub Fits : Field → Type 0
Fits (Field.text b) = All IsByte b × (length b < room)
Fits (Field.nested items) = length (flatten items) < room

take_item-encoded :
    (f : Field) (rest : List ℕ) → Fits f → take_item (encoded f ++ rest) ≡ value (decoded f, rest)
take_item-encoded (Field.text b) rest (bytes, h) = take_item-encode_bytes b rest bytes h
take_item-encoded (Field.nested items) rest h =
    unfold encode_list in
    rw (append_assoc (encode_length (length (flatten items)) 0xc0) (flatten items) rest)
      (take_item-list (flatten items) rest h)

-- One round of the loop.
items_loop-step :
    (fuel : ℕ) (bs item next : List ℕ) (items : List (List ℕ))
    → take_item bs ≡ value (item, next)
    → items_loop fuel next ≡ value items
    → items_loop (suc fuel) bs ≡ value (item ∷ items)
unfolding items_loop
items_loop-step fuel [] item next items e e' = unfold take_item in cc
items_loop-step fuel (b ∷ bs) item next items e e' = rw (e, e')

encoded-nonempty : (f : Field) → Fits f → 0 < length (encoded f)
encoded-nonempty f h = nonempty (encoded f) (take_item-encoded f [] h)
  where
    nonempty : (bs : List ℕ) → take_item (bs ++ []) ≡ value (decoded f, []) → 0 < length bs
    nonempty [] e = unfold take_item in cc
    nonempty (b ∷ bs) e = omega arith

items_loop-encoded :
    (fs : List Field) (fuel : ℕ)
    → All Fits fs
    → length (flatten (map encoded fs)) ≤ fuel
    → items_loop fuel (flatten (map encoded fs)) ≡ value (map decoded fs)
unfolding flatten
items_loop-encoded [] fuel h le = unfold items_loop in refl
items_loop-encoded (f ∷ fs) zero h le =
    absurd
      (omega (arith, encoded-nonempty f h.0, length-append (encoded f) (flatten (map encoded fs))))
items_loop-encoded (f ∷ fs) (suc fuel) h le =
    items_loop-step fuel (encoded f ++ flatten (map encoded fs)) (decoded f)
      (flatten (map encoded fs)) (map decoded fs)
      (take_item-encoded f (flatten (map encoded fs)) h.0)
      (items_loop-encoded fs fuel h.1 (
        omega
          (arith, encoded-nonempty f h.0, length-append (encoded f) (flatten (map encoded fs)))))

-- `decode_list` reads back the fields of every list that `encode_list` wrote, within the length of
-- the payload as fuel: a string as its bytes, a nested list in its encoded form.
pub decode_list-encode_list :
    (fs : List Field)
    → All Fits fs
    → length (flatten (map encoded fs)) < room
    → decode_list (encode_list (map encoded fs)) ≡ value (map decoded fs)
unfolding decode_list encode_list
decode_list-encode_list fs h le =
    let payload = flatten (map encoded fs) in
    let whole : take_list (encode_length (length payload) 0xc0 ++ payload) ≡ value (payload, []) =
      rw (append-nil payload) at (take_list-encoded payload [] le) in
    rw whole (items_loop-encoded fs (length payload) h (omega arith))
