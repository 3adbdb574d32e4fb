-- ===== src/Rlp/Faults.antt =====
-- Malformed lengths of eight bytes. In `start + len` the sum wraps, so that the test against the
-- input's length passes for an end that lies before the start.
use arrow_head.Prelude.{
  ℕ, zero, suc, ◌+◌, ◌-◌, ◌%◌, ◌≤◌, ◌<◌, ◌≡◌, refl, ◌∙◌, true, false, List, [], ◌∷◌, ◌++◌, arith,
  length, length-append, u64_mod,
}
use arrow_head.Rlp.{slice, slice_from, decode_be_usize, take_span, take_item, items_loop}
use arrow_head.Rlp.Items.{take_long-span}
use arrow_head.Prelude.Outcome.{value, panicked, out_of_fuel}

take_span-panics :
    (input : List ℕ) (start len : ℕ)
    → (start + len) % u64_mod < start
    → (start + len) % u64_mod ≤ length input
    → take_span input start start len ≡ panicked
unfolding take_span slice
take_span-panics input start len lt le = ground arith

-- A string whose eight length bytes claim 2 ^ 64 - 9 bytes or more is not refused with `None`:
-- taking it panics, whatever follows.
pub take_item-panics :
    (ds rest : List ℕ) (len : ℕ)
    → length ds ≡ 8
    → decode_be_usize ds ≡ value len
    → u64_mod - 9 ≤ len
    → len < u64_mod
    → take_item (0xbf ∷ (ds ++ rest)) ≡ panicked
unfolding take_item
take_item-panics ds rest len eight read lo hi =
    rw eight at (take_long-span 0xbf len ds rest false read)
    ∙ take_span-panics (0xbf ∷ (ds ++ rest)) 9 len (omega arith)
        (omega (arith, length-append ds rest))

take_span-front :
    (input : List ℕ) (start len : ℕ)
    → (start + len) % u64_mod ≡ 0
    → take_span input 0 start len ≡ value ([], input)
unfolding take_span slice slice_from
take_span-front input start len e = rw e (ground arith)

take_item-stays :
    (ds rest : List ℕ)
    → length ds ≡ 8
    → decode_be_usize ds ≡ value (u64_mod - 9)
    → take_item (0xff ∷ (ds ++ rest)) ≡ value ([], 0xff ∷ (ds ++ rest))
unfolding take_item
take_item-stays ds rest eight read =
    rw eight at (take_long-span 0xff (u64_mod - 9) ds rest true read)
    ∙ take_span-front (0xff ∷ (ds ++ rest)) 9 (u64_mod - 9) refl

-- A nested list whose eight length bytes claim 2 ^ 64 - 9 bytes is taken as an empty item that
-- leaves the whole input, so the loop over a payload that begins with it never ends, whatever
-- follows: no fuel is enough.
pub items_loop-diverges :
    (fuel : ℕ) (ds rest : List ℕ)
    → length ds ≡ 8
    → decode_be_usize ds ≡ value (u64_mod - 9)
    → items_loop fuel (0xff ∷ (ds ++ rest)) ≡ out_of_fuel
unfolding items_loop
items_loop-diverges zero ds rest eight read = refl
items_loop-diverges (suc fuel) ds rest eight read =
    rw (take_item-stays ds rest eight read, items_loop-diverges fuel ds rest eight read)
