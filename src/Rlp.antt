-- ===== src/Rlp.antt =====
-- The RLP coder of bot/crates/mev-bot/src/rlp.rs. A byte string is a list of numbers below 256, and
-- a `usize` has 64 bits. A slice that Rust refuses to take is the outcome `panicked`.
pub mod Digits
pub mod Items
pub mod Lists
pub mod Progress
pub mod Faults
mod Tests
use arrow_head.Prelude.{
  ℕ, zero, suc, ◌+◌, ◌-◌, ◌*◌, ◌/◌, ◌%◌, Bool, true, false, List, [], ◌∷◌, ◌++◌, ltb, leb, ◌==◌,
  ◌&&◌, ◌||◌, if◌then◌else◌, length, take, drop, is_empty, u64_mod, u256_mod, Option, none, some,
  not,
}
use arrow_head.Types.{Bytes}
use arrow_head.Prelude.Outcome.{Outcome, value, absent, panicked, ◌>>=◌, ◌>>◌, absent_if}
use mathlib.Core.List.{flatten}

-- `v.to_be_bytes()` of a word of `n` bytes.
unfoldable pub to_be_bytes : ℕ → ℕ → Bytes
to_be_bytes zero v = []
to_be_bytes (suc n) v = to_be_bytes n (v / 256) ++ (v % 256 ∷ [])

-- `&be[start..]`, where `start` is the place of the first byte that is not zero.
unfoldable pub strip_zeros : Bytes → Bytes
strip_zeros [] = []
strip_zeros (b ∷ bs) = let rest = strip_zeros bs in if b == 0 then rest else b ∷ bs

unfoldable pub encode_length : ℕ → ℕ → Bytes
encode_length len offset =
    let len_bytes = strip_zeros (to_be_bytes 8 len) in
    if ltb len 56 then (offset + len) ∷ [] else (offset + 55 + length len_bytes) ∷ len_bytes

unfoldable pub encode_bytes : Bytes → Bytes
encode_bytes [] = encode_length 0 0x80
encode_bytes (b ∷ []) = if ltb b 0x80 then b ∷ [] else encode_length 1 0x80 ++ (b ∷ [])
encode_bytes (b ∷ c ∷ bs) = encode_length (length (b ∷ c ∷ bs)) 0x80 ++ (b ∷ c ∷ bs)

-- The items are already encoded.
unfoldable pub encode_list : List Bytes → Bytes
encode_list items = let payload = flatten items in encode_length (length payload) 0xc0 ++ payload

unfoldable pub encode_u64 : ℕ → Bytes
encode_u64 v = if v == 0 then encode_bytes [] else encode_bytes (strip_zeros (to_be_bytes 8 v))

unfoldable pub encode_u256 : ℕ → Bytes
encode_u256 v = if v == 0 then encode_bytes [] else encode_bytes (strip_zeros (to_be_bytes 32 v))

-- `&input[lo..hi]`, which panics out of range.
unfoldable pub slice : Bytes → ℕ → ℕ → Outcome Bytes
slice input lo hi =
    if leb lo hi && leb hi (length input) then value (take (hi - lo) (drop lo input)) else panicked

-- `&input[lo..]`
unfoldable pub slice_from : Bytes → ℕ → Outcome Bytes
slice_from input lo = if leb lo (length input) then value (drop lo input) else panicked

-- The loop of `decode_be_usize`, with its checked operations.
unfoldable pub be_usize_loop : Bytes → ℕ → Outcome ℕ
be_usize_loop [] n = value n
be_usize_loop (b ∷ bs) n =
    let rest = be_usize_loop bs (n * 256 + b) in if leb u64_mod (n * 256 + b) then absent else rest

unfoldable pub is_leading_zero : Bytes → Bool
is_leading_zero [] = false
is_leading_zero (b ∷ bs) = b == 0

unfoldable pub decode_be_usize : Bytes → Outcome ℕ
unfolding be_usize_loop is_leading_zero
decode_be_usize bytes =
    if is_empty bytes || ltb 8 (length bytes) || is_leading_zero bytes
    then absent
    else be_usize_loop bytes 0

-- `n.checked_shl(8)?.checked_add(b)?` drops the bits that leave the word, and fails on a carry.
unfoldable pub u64_loop : Bytes → ℕ → Outcome ℕ
u64_loop [] n = value n
u64_loop (b ∷ bs) n =
    let rest = u64_loop bs (n * 256 % u64_mod + b) in
    if leb u64_mod (n * 256 % u64_mod + b) then absent else rest

unfoldable pub decode_u64 : Bytes → Outcome ℕ
unfolding u64_loop is_leading_zero
decode_u64 raw =
    if is_empty raw
    then value 0
    else if ltb 8 (length raw) || is_leading_zero raw
    then absent
    else u64_loop raw 0

-- `U256::from_be_slice` of at most 32 bytes.
unfoldable pub from_be_slice : Bytes → ℕ → ℕ
from_be_slice [] n = n
from_be_slice (b ∷ bs) n = from_be_slice bs (n * 256 + b)

unfoldable pub decode_u256 : Bytes → Outcome ℕ
unfolding from_be_slice is_leading_zero
decode_u256 raw =
    if is_empty raw
    then value 0
    else if ltb 32 (length raw) || is_leading_zero raw
    then absent
    else value (from_be_slice raw 0)

-- A payload at `start` of `len` bytes and what follows it; `keep` is where the item that is
-- returned begins. The sum of two `usize` wraps.
unfoldable pub take_span : Bytes → ℕ → ℕ → ℕ → Outcome (Bytes × Bytes)
unfolding slice slice_from
take_span input keep start len = do
  let stop = (start + len) % u64_mod
  absent_if (ltb (length input) stop)
  item ← slice input keep stop
  rest ← slice_from input stop
  value (item, rest)

-- A length of `len_of_len` bytes behind the prefix, then the payload.
unfoldable pub take_long : Bytes → Bool → ℕ → Outcome (Bytes × Bytes)
take_long input whole len_of_len = do
  absent_if (ltb (length input) (1 + len_of_len))
  digits ← slice input 1 (1 + len_of_len)
  len ← decode_be_usize digits
  take_span input (if whole then 0 else 1 + len_of_len) (1 + len_of_len) len

unfoldable pub take_list : Bytes → Outcome (Bytes × Bytes)
take_list [] = absent
take_list (first ∷ tail) =
    let input = first ∷ tail in
    if leb 0xc0 first && leb first 0xf7
    then take_span input 1 1 (first - 0xc0)
    else if leb 0xf8 first
    then take_long input false (first - 0xf7)
    else absent

unfoldable pub take_item : Bytes → Outcome (Bytes × Bytes)
take_item [] = absent
take_item (first ∷ tail) =
    let input = first ∷ tail in
    if ltb first 0x80
    then value (first ∷ [], tail)
    else if leb first 0xb7
    then take_span input 1 1 (first - 0x80)
    else if leb first 0xbf
    then take_long input false (first - 0xb7)
    else if leb first 0xf7
    then take_span input 0 1 (first - 0xc0)
    else take_long input true (first - 0xf7)

-- The loop of `decode_list`; an item takes a byte at least, so the payload's length is enough fuel.
unfoldable pub items_loop : ℕ → Bytes → Outcome (List Bytes)
items_loop fuel [] = value []
items_loop zero (b ∷ bs) = Outcome.out_of_fuel
items_loop (suc fuel) (b ∷ bs) = do
  (item, next) ← take_item (b ∷ bs)
  items ← items_loop fuel next
  value (item ∷ items)

unfoldable pub decode_list : Bytes → Outcome (List Bytes)
unfolding items_loop
decode_list input = do
  (payload, rest) ← take_list input
  absent_if (not (is_empty rest))
  items_loop (length payload) payload
