-- ===== src/Rlp/Items.antt =====
-- One item: `encode_bytes` and `take_item` of bot/crates/mev-bot/src/rlp.rs.
use arrow_head.Prelude.{
  ℕ, suc, ◌+◌, ◌-◌, ◌%◌, ◌≤◌, ◌<◌, ◌≡◌, ap, ◌∙◌, Bool, true, false, List, [], ◌∷◌, ◌++◌, arith,
  length, length-append, ltb, leb, if◌then◌else◌, u64_mod, All, Bool-cases, inl, inr, take, drop,
  take-append_self, drop-append_self,
}
use arrow_head.Rlp.{
  to_be_bytes, strip_zeros, encode_length, encode_bytes, slice, slice_from, decode_be_usize,
  take_span, take_long, take_list, take_item,
}
use arrow_head.Rlp.Digits.{IsByte, length-digits, decode_be_usize-digits, digits_pos}
use arrow_head.Prelude.Outcome.{value}
use mathlib.Core.List.{append_assoc}

slice-eq :
    (input : List ℕ) (lo hi : ℕ)
    → lo ≤ hi
    → hi ≤ length input
    → slice input lo hi ≡ value (take (hi - lo) (drop lo input))
unfolding slice
slice-eq input lo hi h k = ground arith

slice_from-eq :
    (input : List ℕ) (lo : ℕ) → lo ≤ length input → slice_from input lo ≡ value (drop lo input)
unfolding slice_from
slice_from-eq input lo h = ground arith

-- The three parts of an input, cut where they meet.
slice-middle :
    (pre body rest : List ℕ)
    → slice (pre ++ (body ++ rest)) (length pre) (length pre + length body) ≡ value body
slice-middle pre body rest =
    slice-eq _ _ _ (omega arith)
      (omega (arith, length-append pre (body ++ rest), length-append body rest))
    ∙ rw drop-append_self (
        let n : length pre + length body - length pre ≡ length body = omega arith in
        rw n (ap value (take-append_self body rest)))

slice-front : (pre rest : List ℕ) → slice (pre ++ rest) 0 (length pre) ≡ value pre
slice-front pre rest =
    slice-eq _ _ _ (omega arith) (omega (arith, length-append pre rest))
    ∙ (let n : length pre - 0 ≡ length pre = omega arith in
        rw n (ap value (take-append_self pre rest)))

slice_from-rest : (pre rest : List ℕ) → slice_from (pre ++ rest) (length pre) ≡ value rest
slice_from-rest pre rest =
    slice_from-eq _ _ (omega (arith, length-append pre rest)) ∙ rw drop-append_self

take_span-cut :
    (input item rest : List ℕ) (keep start len : ℕ)
    → start + len < u64_mod
    → start + len ≤ length input
    → slice input keep (start + len) ≡ value item
    → slice_from input (start + len) ≡ value rest
    → take_span input keep start len ≡ value (item, rest)
unfolding take_span
take_span-cut input item rest keep start len word fits e e' =
    let small : (start + len) % u64_mod ≡ start + len = omega arith in
    let enough : ltb (length input) (start + len) ≡ false = ground arith in
    rw (small, enough, e, e')

pub take_span-payload :
    (pre body rest : List ℕ)
    → length pre + length body < u64_mod
    → take_span (pre ++ (body ++ rest)) (length pre) (length pre) (length body) ≡ value (body, rest)
take_span-payload pre body rest h =
    take_span-cut _ body rest _ _ _ h
      (omega (arith, length-append pre (body ++ rest), length-append body rest))
      (slice-middle pre body rest)
      (rw (← append_assoc pre body rest, ← length-append pre body)
        (slice_from-rest (pre ++ body) rest))

pub take_span-whole :
    (pre body rest : List ℕ)
    → length pre + length body < u64_mod
    → take_span (pre ++ (body ++ rest)) 0 (length pre) (length body) ≡ value (pre ++ body, rest)
take_span-whole pre body rest h =
    take_span-cut _ (pre ++ body) rest _ _ _ h
      (omega (arith, length-append pre (body ++ rest), length-append body rest))
      (rw (← append_assoc pre body rest, ← length-append pre body) (slice-front (pre ++ body) rest))
      (rw (← append_assoc pre body rest, ← length-append pre body)
        (slice_from-rest (pre ++ body) rest))

-- The part of `take_long` before the span: the digits are cut out and read.
pub take_long-span :
    (first len : ℕ) (ds tail : List ℕ) (whole : Bool)
    → decode_be_usize ds ≡ value len
    → take_long (first ∷ (ds ++ tail)) whole (length ds)
      ≡ take_span
          (first ∷ (ds ++ tail))
          (if whole then 0 else suc (length ds))
          (suc (length ds))
          len
unfolding take_long
take_long-span first len ds tail whole read =
    let one : 1 + length ds ≡ suc (length ds) = omega arith in
    let enough : ltb (suc (length (ds ++ tail))) (suc (length ds)) ≡ false =
      ground (arith, length-append ds tail) in
    let cut : slice (first ∷ (ds ++ tail)) 1 (suc (length ds)) ≡ value ds =
      rw (← one) (slice-middle (first ∷ []) ds tail) in
    rw (one, enough, cut, read)

pub take_long-payload :
    (first : ℕ) (ds body rest : List ℕ)
    → decode_be_usize ds ≡ value (length body)
    → suc (length ds) + length body < u64_mod
    → take_long (first ∷ (ds ++ (body ++ rest))) false (length ds) ≡ value (body, rest)
take_long-payload first ds body rest read h =
    take_long-span first (length body) ds (body ++ rest) false read
    ∙ take_span-payload (first ∷ ds) body rest h

pub take_long-whole :
    (first : ℕ) (ds body rest : List ℕ)
    → decode_be_usize ds ≡ value (length body)
    → suc (length ds) + length body < u64_mod
    → take_long (first ∷ (ds ++ (body ++ rest))) true (length ds)
      ≡ value (first ∷ (ds ++ body), rest)
take_long-whole first ds body rest read h =
    take_long-span first (length body) ds (body ++ rest) true read
    ∙ take_span-whole (first ∷ ds) body rest h

-- Such a length leaves room for its prefix in a `usize`.
abbrev pub room : ℕ
room = u64_mod - 9

abbrev digits : ℕ → List ℕ
digits len = strip_zeros (to_be_bytes 8 len)

-- The digits of a length of 56 or more: how many there are, and that they are read back.
digits_long :
    (len : ℕ)
    → ltb len 56 ≡ false
    → len < room
    → (0 < length (digits len))
      × (length (digits len) ≤ 8)
      × (decode_be_usize (digits len) ≡ value len)
digits_long len long h =
    let pos : 0 < len = ground arith in
    (
      digits_pos 8 len pos (omega arith),
      length-digits 8 len,
      decode_be_usize-digits len pos (omega arith),
    )

-- A prefix and its payload, read as a string.
pub take_item-string :
    (body rest : List ℕ)
    → length body < room
    → take_item (encode_length (length body) 0x80 ++ (body ++ rest)) ≡ value (body, rest)
unfolding take_item encode_length
take_item-string body rest h = elim (Bool-cases (ltb (length body) 56)) [
  | inl short ↦
      let n : 128 + length body - 128 ≡ length body = omega arith in
      let low : ltb (128 + length body) 128 ≡ false = ground arith in
      let high : leb (128 + length body) 183 ≡ true = ground arith in
      rw (short, low, high, n)
        (take_span-payload ((128 + length body) ∷ []) body rest (omega arith))
  | inr long ↦
      let (k_pos, k_le, read) = digits_long (length body) long h in
      let k = length (digits (length body)) in
      let n : 183 + k - 183 ≡ k = omega arith in
      let low : ltb (183 + k) 128 ≡ false = ground arith in
      let high : leb (183 + k) 183 ≡ false = ground arith in
      let top : leb (183 + k) 191 ≡ true = ground arith in
      rw (long, low, high, top, n)
        (take_long-payload (183 + k) (digits (length body)) body rest read (omega arith))
]

-- A prefix and its payload, read as a list: `take_item` keeps the prefix.
pub take_item-list :
    (body rest : List ℕ)
    → length body < room
    → take_item (encode_length (length body) 0xc0 ++ (body ++ rest))
      ≡ value (encode_length (length body) 0xc0 ++ body, rest)
unfolding take_item encode_length
take_item-list body rest h = elim (Bool-cases (ltb (length body) 56)) [
  | inl short ↦
      let n : 192 + length body - 192 ≡ length body = omega arith in
      let t1 : ltb (192 + length body) 128 ≡ false = ground arith in
      let t2 : leb (192 + length body) 183 ≡ false = ground arith in
      let t3 : leb (192 + length body) 191 ≡ false = ground arith in
      let t4 : leb (192 + length body) 247 ≡ true = ground arith in
      rw (short, t1, t2, t3, t4, n)
        (take_span-whole ((192 + length body) ∷ []) body rest (omega arith))
  | inr long ↦
      let (k_pos, k_le, read) = digits_long (length body) long h in
      let k = length (digits (length body)) in
      let n : 247 + k - 247 ≡ k = omega arith in
      let t1 : ltb (247 + k) 128 ≡ false = ground arith in
      let t2 : leb (247 + k) 183 ≡ false = ground arith in
      let t3 : leb (247 + k) 191 ≡ false = ground arith in
      let t4 : leb (247 + k) 247 ≡ false = ground arith in
      rw (long, t1, t2, t3, t4, n)
        (take_long-whole (247 + k) (digits (length body)) body rest read (omega arith))
]

-- The same bytes, read by `take_list`.
pub take_list-encoded :
    (body rest : List ℕ)
    → length body < room
    → take_list (encode_length (length body) 0xc0 ++ (body ++ rest)) ≡ value (body, rest)
unfolding take_list encode_length
take_list-encoded body rest h = elim (Bool-cases (ltb (length body) 56)) [
  | inl short ↦
      let n : 192 + length body - 192 ≡ length body = omega arith in
      let t1 : leb 192 (192 + length body) ≡ true = ground arith in
      let t2 : leb (192 + length body) 247 ≡ true = ground arith in
      rw (short, t1, t2, n) (take_span-payload ((192 + length body) ∷ []) body rest (omega arith))
  | inr long ↦
      let (k_pos, k_le, read) = digits_long (length body) long h in
      let k = length (digits (length body)) in
      let n : 247 + k - 247 ≡ k = omega arith in
      let t1 : leb 192 (247 + k) ≡ true = ground arith in
      let t2 : leb (247 + k) 247 ≡ false = ground arith in
      let t3 : leb 248 (247 + k) ≡ true = ground arith in
      rw (long, t1, t2, t3, n)
        (take_long-payload (247 + k) (digits (length body)) body rest read (omega arith))
]

-- `take_item` reads back every byte string that `encode_bytes` wrote, and leaves what follows it,
-- for any length that leaves room for the prefix in a `usize`.
pub take_item-encode_bytes :
    (body rest : List ℕ)
    → All IsByte body
    → length body < room
    → take_item (encode_bytes body ++ rest) ≡ value (body, rest)
unfolding encode_bytes
take_item-encode_bytes [] rest bytes h = unfold encode_length in take_item-string [] rest h
take_item-encode_bytes (b ∷ []) rest bytes h = elim (Bool-cases (ltb b 0x80)) [
  | inl low ↦ unfold take_item in rw (low, low)
  | inr high ↦
      rw (high, append_assoc (encode_length 1 0x80) (b ∷ []) rest)
        (take_item-string (b ∷ []) rest h)
]
take_item-encode_bytes (b ∷ c ∷ bs) rest bytes h =
    rw (append_assoc (encode_length (length (b ∷ c ∷ bs)) 0x80) (b ∷ c ∷ bs) rest)
      (take_item-string (b ∷ c ∷ bs) rest h)
