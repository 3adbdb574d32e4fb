-- ===== src/Rlp/Digits.antt =====
-- Big-endian digits, as the coder of bot/crates/mev-bot/src/rlp.rs writes and reads them.
use arrow_head.Prelude.{
  ℕ, zero, suc, ◌+◌, ◌*◌, ◌/◌, ◌%◌, ◌^◌, ◌≤◌, ◌<◌, ◌≡◌, refl, ap, ◌∙◌, false, List, [], ◌∷◌, ◌++◌,
  arith, length, length-append, ◌==◌, u64_mod, u256_mod, Bool-cases, ==_iff, inl, inr,
}
use native.Mathlib.Nat.{pow-suc}
use arrow_head.Rlp.{
  to_be_bytes, strip_zeros, be_usize_loop, is_leading_zero, decode_be_usize, u64_loop, decode_u64,
  from_be_slice, decode_u256,
}
use arrow_head.Prelude.Outcome.{value}

abbrev pub IsByte : ℕ → Type 0
IsByte b = b < 256

pub length-to_be_bytes : (n v : ℕ) → length (to_be_bytes n v) ≡ n
unfolding to_be_bytes
length-to_be_bytes zero v = refl
length-to_be_bytes (suc n) v =
    omega (
      arith,
      length-append (to_be_bytes n (v / 256)) (v % 256 ∷ []),
      length-to_be_bytes n (v / 256),
    )

pub length-strip_zeros : (bs : List ℕ) → length (strip_zeros bs) ≤ length bs
unfolding strip_zeros
length-strip_zeros [] = omega arith
length-strip_zeros (b ∷ bs) = ground (arith, length-strip_zeros bs)

pub strip_zeros-no_zero : (bs : List ℕ) → is_leading_zero (strip_zeros bs) ≡ false
unfolding strip_zeros is_leading_zero
strip_zeros-no_zero [] = refl
strip_zeros-no_zero (b ∷ bs) = ground (arith, strip_zeros-no_zero bs)

-- Leading zeros add nothing.
from_be_slice-strip_zeros : (bs : List ℕ) → from_be_slice (strip_zeros bs) 0 ≡ from_be_slice bs 0
unfolding strip_zeros from_be_slice
from_be_slice-strip_zeros [] = refl
from_be_slice-strip_zeros (b ∷ bs) = elim (Bool-cases (b == 0)) [
  | inl z ↦
      let zero_byte : b ≡ 0 = (==_iff b 0).0 z in rw (z, from_be_slice-strip_zeros bs, zero_byte)
  | inr nz ↦ rw nz
]

from_be_slice-append :
    (xs ys : List ℕ) (n : ℕ) → from_be_slice (xs ++ ys) n ≡ from_be_slice ys (from_be_slice xs n)
unfolding from_be_slice
from_be_slice-append [] ys n = refl
from_be_slice-append (x ∷ xs) ys n = from_be_slice-append xs ys (n * 256 + x)

pub from_be_slice-to_be_bytes : (n v : ℕ) → v < 256 ^ n → from_be_slice (to_be_bytes n v) 0 ≡ v
unfolding from_be_slice to_be_bytes
from_be_slice-to_be_bytes zero v h = omega arith
from_be_slice-to_be_bytes (suc n) v h =
    from_be_slice-append (to_be_bytes n (v / 256)) (v % 256 ∷ []) 0
    ∙ rw (from_be_slice-to_be_bytes n (v / 256) (omega (arith, pow-suc 256 n))) (omega arith)

-- The digits of a word, without the leading zeros, spell the word.
pub from_be_slice-digits :
    (n v : ℕ) → v < 256 ^ n → from_be_slice (strip_zeros (to_be_bytes n v)) 0 ≡ v
from_be_slice-digits n v h =
    from_be_slice-strip_zeros (to_be_bytes n v) ∙ from_be_slice-to_be_bytes n v h

le-from_be_slice : (bs : List ℕ) (n : ℕ) → n ≤ from_be_slice bs n
unfolding from_be_slice
le-from_be_slice [] n = omega arith
le-from_be_slice (b ∷ bs) n = omega (arith, le-from_be_slice bs (n * 256 + b))

be_usize_loop-eq :
    (bs : List ℕ) (n : ℕ)
    → from_be_slice bs n < u64_mod
    → be_usize_loop bs n ≡ value (from_be_slice bs n)
unfolding be_usize_loop from_be_slice
be_usize_loop-eq [] n h = refl
be_usize_loop-eq (b ∷ bs) n h =
    ground (arith, le-from_be_slice bs (n * 256 + b), be_usize_loop-eq bs (n * 256 + b) h)

u64_loop-eq :
    (bs : List ℕ) (n : ℕ)
    → from_be_slice bs n < u64_mod
    → u64_loop bs n ≡ value (from_be_slice bs n)
unfolding u64_loop from_be_slice
u64_loop-eq [] n h = refl
u64_loop-eq (b ∷ bs) n h =
    let small : n * 256 % u64_mod ≡ n * 256 = omega (arith, le-from_be_slice bs (n * 256 + b)) in
    rw small (ground (arith, le-from_be_slice bs (n * 256 + b), u64_loop-eq bs (n * 256 + b) h))

pub length-digits : (n v : ℕ) → length (strip_zeros (to_be_bytes n v)) ≤ n
length-digits n v = omega (arith, length-strip_zeros (to_be_bytes n v), length-to_be_bytes n v)

decode_be_usize-eq :
    (bs : List ℕ)
    → 0 < length bs
    → length bs ≤ 8
    → is_leading_zero bs ≡ false
    → from_be_slice bs 0 < u64_mod
    → decode_be_usize bs ≡ value (from_be_slice bs 0)
unfolding decode_be_usize
decode_be_usize-eq [] pos le nz h = absurd (omega arith)
decode_be_usize-eq (b ∷ bs) pos le nz h = ground (arith, be_usize_loop-eq (b ∷ bs) 0 h)

pub digits_pos : (n v : ℕ) → 0 < v → v < 256 ^ n → 0 < length (strip_zeros (to_be_bytes n v))
digits_pos n v pos h = nonempty (strip_zeros (to_be_bytes n v)) (from_be_slice-digits n v h)
  where
    nonempty : (bs : List ℕ) → from_be_slice bs 0 ≡ v → 0 < length bs
    nonempty [] e = unfold from_be_slice in absurd (omega arith)
    nonempty (b ∷ bs) e = omega arith

-- The digits of a length are read back.
pub decode_be_usize-digits :
    (v : ℕ) → 0 < v → v < u64_mod → decode_be_usize (strip_zeros (to_be_bytes 8 v)) ≡ value v
decode_be_usize-digits v pos h =
    let e = from_be_slice-digits 8 v h in
    decode_be_usize-eq _ (digits_pos 8 v pos h) (length-digits 8 v) (strip_zeros-no_zero _)
      (omega (arith, e))
    ∙ ap value e

decode_u64-eq :
    (bs : List ℕ)
    → length bs ≤ 8
    → is_leading_zero bs ≡ false
    → from_be_slice bs 0 < u64_mod
    → decode_u64 bs ≡ value (from_be_slice bs 0)
unfolding decode_u64
decode_u64-eq [] le nz h = unfold from_be_slice in refl
decode_u64-eq (b ∷ bs) le nz h = ground (arith, u64_loop-eq (b ∷ bs) 0 h)

pub decode_u64-digits : (v : ℕ) → v < u64_mod → decode_u64 (strip_zeros (to_be_bytes 8 v)) ≡ value v
decode_u64-digits v h =
    let e = from_be_slice-digits 8 v h in
    decode_u64-eq _ (length-digits 8 v) (strip_zeros-no_zero _) (omega (arith, e)) ∙ ap value e

decode_u256-eq :
    (bs : List ℕ)
    → length bs ≤ 32
    → is_leading_zero bs ≡ false
    → decode_u256 bs ≡ value (from_be_slice bs 0)
unfolding decode_u256
decode_u256-eq [] le nz = unfold from_be_slice in refl
decode_u256-eq (b ∷ bs) le nz = ground arith

pub decode_u256-digits :
    (v : ℕ) → v < u256_mod → decode_u256 (strip_zeros (to_be_bytes 32 v)) ≡ value v
decode_u256-digits v h =
    decode_u256-eq _ (length-digits 32 v) (strip_zeros-no_zero _)
    ∙ ap value (from_be_slice-digits 32 v h)
