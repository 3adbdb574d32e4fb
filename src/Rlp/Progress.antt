-- ===== src/Rlp/Progress.antt =====
-- The loop of `decode_list` (bot/crates/mev-bot/src/rlp.rs) on any bytes, and what an item leaves.
use arrow_head.Prelude.{
  ℕ, zero, suc, ◌+◌, ◌-◌, ◌*◌, ◌%◌, ◌≤◌, ◌<◌, ◌≡◌, ◌≢◌, refl, ap, ◌∙◌, ◌⊎◌, inl, inr, Bool, true,
  false, List, [], ◌∷◌, arith, length, length-drop, ltb, leb, if◌then◌else◌, u64_mod, take, drop,
  Bool-cases, ◌&&◌, ◌==◌, All,
}
use arrow_head.Rlp.{
  slice, slice_from, decode_be_usize, take_span, take_long, take_item, items_loop, be_usize_loop,
}
use arrow_head.Rlp.Digits.{IsByte}
use arrow_head.Prelude.Outcome.{
  Outcome, value, absent, panicked, out_of_fuel, ◌>>=◌, >>=-eq-value, absent_if, >>=-ne-out_of_fuel,
  absent_if-ne-out_of_fuel,
}

-- A span that is taken ends within the input, and the rest is what follows it.
take_span-ok :
    (input item rest : List ℕ) (keep start len : ℕ)
    → take_span input keep start len ≡ value (item, rest)
    → (keep ≤ (start + len) % u64_mod)
      × ((start + len) % u64_mod ≤ length input)
      × (rest ≡ drop ((start + len) % u64_mod) input)
unfolding take_span slice slice_from
take_span-ok input item rest keep start len e = ground arith

-- A long item that is taken has a length of its digits, and is a span of it.
take_long-ok :
    (input : List ℕ) (taken : List ℕ × List ℕ) (whole : Bool) (n : ℕ)
    → take_long input whole n ≡ value taken
    → (ds : List ℕ) × (len : ℕ) × (slice input 1 (1 + n) ≡ value ds)
      × (decode_be_usize ds ≡ value len)
      × (take_span input (if whole then 0 else 1 + n) (1 + n) len ≡ value taken)
unfolding take_long
take_long-ok input taken whole n e =
    let (_, _, e1) = >>=-eq-value (absent_if (ltb (length input) (1 + n))) _ taken e in
    let (ds, cut, e2) = >>=-eq-value (slice input 1 (1 + n)) _ taken e1 in
    let (len, read, e3) = >>=-eq-value (decode_be_usize ds) _ taken e2 in (ds, len, cut, read, e3)

-- A long list whose claimed end, the prefix and the length together, is 2 ^ 64: the sum is zero.
abbrev pub WrapsToFront : List ℕ → Type 0
WrapsToFront [] = ⊥
WrapsToFront (first ∷ tail) =
    (0xf7 < first) × (decode_be_usize (take (first - 0xf7) tail) ≡ value (u64_mod - (first - 0xf6)))

be_usize_loop-lt :
    (bs : List ℕ) (n v : ℕ) → n < u64_mod → be_usize_loop bs n ≡ value v → v < u64_mod
unfolding be_usize_loop
be_usize_loop-lt [] n v h e = ground arith
be_usize_loop-lt (b ∷ bs) n v h e = ground (arith, be_usize_loop-lt bs (n * 256 + b) v)

decode_be_usize-lt : (bs : List ℕ) (v : ℕ) → decode_be_usize bs ≡ value v → v < u64_mod
unfolding decode_be_usize
decode_be_usize-lt bs v e = ground (arith, be_usize_loop-lt bs 0 v)

drop_shorter :
    (stop : ℕ) (bs : List ℕ) → 0 < stop → stop ≤ length bs → length (drop stop bs) < length bs
drop_shorter stop bs pos le = omega (arith, length-drop stop bs)

-- A span that ends behind the first byte leaves less than the input.
take_span_shorter :
    (input item rest : List ℕ) (keep start len : ℕ)
    → take_span input keep start len ≡ value (item, rest)
    → 0 < (start + len) % u64_mod
    → length rest < length input
take_span_shorter input item rest keep start len e pos =
    let (_, fits, left) = take_span-ok input item rest keep start len e in
    rw left (drop_shorter _ input pos fits)

-- How an item that is taken leaves the input: the rest is a proper suffix, or the end has wrapped.
abbrev Advances : List ℕ → List ℕ → Type 0
Advances input rest =
    (stop : ℕ) × (rest ≡ drop stop input) × ((length rest < length input) ⊎ WrapsToFront input)

take_span-Advances :
    (input item rest : List ℕ) (keep start len : ℕ)
    → take_span input keep start len ≡ value (item, rest)
    → 0 < (start + len) % u64_mod
    → Advances input rest
take_span-Advances input item rest keep start len e pos =
    let (_, _, left) = take_span-ok input item rest keep start len e in
    ((start + len) % u64_mod, left, inl (take_span_shorter input item rest keep start len e pos))

take_long_string-Advances :
    (input item rest : List ℕ) (n : ℕ)
    → take_long input false n ≡ value (item, rest)
    → Advances input rest
take_long_string-Advances input item rest n e =
    let (ds, len, _, _, span) = take_long-ok input (item, rest) false n e in
    let (le, _, _) = take_span-ok input item rest (1 + n) (1 + n) len span in
    take_span-Advances input item rest (1 + n) (1 + n) len span (omega arith)

slice-value :
    (first : ℕ) (tail ds : List ℕ) (n : ℕ)
    → slice (first ∷ tail) 1 (1 + n) ≡ value ds
    → take n tail ≡ ds
unfolding slice
slice-value first tail ds n e =
    let m : 1 + n - 1 ≡ n = omega arith in
    cut (leb 1 (1 + n) && leb (1 + n) (length (first ∷ tail))) (rw m at e)
  where
    cut : (b : Bool) → (if b then value (take n tail) else panicked) ≡ value ds → take n tail ≡ ds
    cut true q = cc
    cut false q = cc

take_long_list-Advances :
    (first : ℕ) (tail item rest : List ℕ)
    → 0xf7 < first
    → first < 256
    → take_long (first ∷ tail) true (first - 0xf7) ≡ value (item, rest)
    → Advances (first ∷ tail) rest
take_long_list-Advances first tail item rest lo hi e =
    let n = first - 0xf7 in
    let (ds, len, cut, read, span) = take_long-ok (first ∷ tail) (item, rest) true n e in
    let (_, _, left) = take_span-ok (first ∷ tail) item rest 0 (1 + n) len span in
    let small = decode_be_usize-lt ds len read in
    let digits : take n tail ≡ ds = slice-value first tail ds n cut in
    elim (Bool-cases ((1 + n + len) % u64_mod == 0)) [
      | inl zero_end ↦
          let end : len ≡ u64_mod - (first - 0xf6) = ground arith in
          ((1 + n + len) % u64_mod, left, inr (lo, rw digits (read ∙ ap value end)))
      | inr later ↦ take_span-Advances (first ∷ tail) item rest 0 (1 + n) len span (ground arith)
    ]

take_item-Advances :
    (input item rest : List ℕ)
    → All IsByte input
    → take_item input ≡ value (item, rest)
    → Advances input rest
unfolding take_item
take_item-Advances [] item rest bytes e = cc
take_item-Advances (first ∷ tail) item rest bytes e = elim (Bool-cases (ltb first 0x80)) [
  | inl low ↦
      let same : Path (Outcome (List ℕ × List ℕ)) (value (first ∷ [], tail)) (value (item, rest)) =
        rw low at e in
      (1, cc, inl (ground arith))
  | inr t0 ↦
      let e0 = rw t0 at e in
      elim (Bool-cases (leb first 0xb7)) [
        | inl short ↦
            take_span-Advances (first ∷ tail) item rest 1 1 (first - 0x80) (rw short at e0)
              (ground arith)
        | inr t1 ↦
            let e1 = rw t1 at e0 in
            elim (Bool-cases (leb first 0xbf)) [
              | inl long ↦
                  take_long_string-Advances (first ∷ tail) item rest (first - 0xb7) (rw long at e1)
              | inr t2 ↦
                  let e2 = rw t2 at e1 in
                  elim (Bool-cases (leb first 0xf7)) [
                    | inl list ↦
                        take_span-Advances (first ∷ tail) item rest 0 1 (first - 0xc0)
                          (rw list at e2) (ground arith)
                    | inr t3 ↦
                        take_long_list-Advances first tail item rest (ground arith) bytes.0
                          (rw t3 at e2)
                  ]
            ]
      ]
]

be_usize_loop-ne-out_of_fuel : (bs : List ℕ) (n : ℕ) → be_usize_loop bs n ≢ out_of_fuel
unfolding be_usize_loop
be_usize_loop-ne-out_of_fuel [] n = λ e. cc
be_usize_loop-ne-out_of_fuel (b ∷ bs) n =
    ground (arith, be_usize_loop-ne-out_of_fuel bs (n * 256 + b))

decode_be_usize-ne-out_of_fuel : (bs : List ℕ) → decode_be_usize bs ≢ out_of_fuel
unfolding decode_be_usize
decode_be_usize-ne-out_of_fuel bs = ground (arith, be_usize_loop-ne-out_of_fuel bs 0)

take_span-ne-out_of_fuel :
    (input : List ℕ) (keep start len : ℕ) → take_span input keep start len ≢ out_of_fuel
unfolding take_span slice slice_from
take_span-ne-out_of_fuel input keep start len = ground arith

slice-ne-out_of_fuel : (input : List ℕ) (lo hi : ℕ) → slice input lo hi ≢ out_of_fuel
unfolding slice
slice-ne-out_of_fuel input lo hi = ground arith

take_long-ne-out_of_fuel :
    (input : List ℕ) (whole : Bool) (n : ℕ) → take_long input whole n ≢ out_of_fuel
unfolding take_long
take_long-ne-out_of_fuel input whole n =
    >>=-ne-out_of_fuel _ _ (absent_if-ne-out_of_fuel (ltb (length input) (1 + n))) λ _.
      >>=-ne-out_of_fuel _ _ (slice-ne-out_of_fuel input 1 (1 + n)) λ ds.
        >>=-ne-out_of_fuel _ _ (decode_be_usize-ne-out_of_fuel ds)
          λ len. take_span-ne-out_of_fuel input (if whole then 0 else 1 + n) (1 + n) len

take_item-ne-out_of_fuel : (input : List ℕ) → take_item input ≢ out_of_fuel
unfolding take_item
take_item-ne-out_of_fuel [] = λ e. cc
take_item-ne-out_of_fuel (first ∷ tail) = ground (
  arith,
  take_span-ne-out_of_fuel (first ∷ tail) 1 1 (first - 0x80),
  take_span-ne-out_of_fuel (first ∷ tail) 0 1 (first - 0xc0),
  take_long-ne-out_of_fuel (first ∷ tail) false (first - 0xb7),
  take_long-ne-out_of_fuel (first ∷ tail) true (first - 0xf7),
)

All-drop : (n : ℕ) (bs : List ℕ) → All IsByte bs → All IsByte (drop n bs)
All-drop zero bs h = h
All-drop (suc n) [] h = h
All-drop (suc n) (b ∷ bs) h = All-drop n bs h.1

-- The loop comes to the rest by taking one item after the other from the front.
pub data Reaches : List ℕ → List ℕ → Type 0 where
  here : (bs : List ℕ) → Reaches bs bs
  after :
      (bs item next rest : List ℕ)
      → take_item bs ≡ value (item, next)
      → Reaches next rest
      → Reaches bs rest

-- The loop over any bytes, with their number as fuel, ends unless, taking one item after the other,
-- it comes to a long list whose claimed end wraps to the front of what is left.
pub items_loop-ends :
    (fuel : ℕ) (bs : List ℕ)
    → All IsByte bs
    → length bs ≤ fuel
    → (items_loop fuel bs ≢ out_of_fuel) ⊎ ((rest : List ℕ) × Reaches bs rest × WrapsToFront rest)
unfolding items_loop
items_loop-ends fuel [] bytes le = inl (λ e. cc)
items_loop-ends zero (b ∷ bs) bytes le = absurd (omega arith)
items_loop-ends (suc fuel) (b ∷ bs) bytes le =
    ended (take_item (b ∷ bs)) refl (items_loop-ends fuel)
  where
    ended :
        (taken : Outcome (List ℕ × List ℕ))
        → take_item (b ∷ bs) ≡ taken
        → ((next : List ℕ)
            → All IsByte next
            → length next ≤ fuel
            → (items_loop fuel next ≢ out_of_fuel)
              ⊎ ((rest : List ℕ) × Reaches next rest × WrapsToFront rest))
        → ((taken >>= λ (item, next). items_loop fuel next >>= λ items. value (item ∷ items))
            ≢ out_of_fuel)
          ⊎ ((rest : List ℕ) × Reaches (b ∷ bs) rest × WrapsToFront rest)
    ended absent q ih = inl (λ e. cc)
    ended panicked q ih = inl (λ e. cc)
    ended out_of_fuel q ih = absurd (take_item-ne-out_of_fuel (b ∷ bs) q)
    ended (value (item, next)) q ih =
        let (stop, left, how) = take_item-Advances (b ∷ bs) item next bytes q in
        elim how [
          | inr wraps ↦ inr (b ∷ bs, here (b ∷ bs), wraps)
          | inl shorter ↦ elim (ih next (rw left (All-drop stop (b ∷ bs) bytes)) (omega arith)) [
            | inl ends ↦ inl (>>=-ne-out_of_fuel (items_loop fuel next) _ ends (λ a e. cc))
            | inr (rest, comes, wraps) ↦ inr (rest, after (b ∷ bs) item next rest q comes, wraps)
          ]
        ]
