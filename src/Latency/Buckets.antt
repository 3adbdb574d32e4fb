-- ===== src/Latency/Buckets.antt =====
-- What the buckets of a histogram count.
use arrow_head.Prelude.{
  ℕ, zero, suc, ◌+◌, ◌-◌, ◌≤◌, ◌<◌, ◌≡◌, refl, ap, ◌∙◌, some, List, [], ◌∷◌, leb, if◌then◌else◌,
  u64_mod, arith, All, length, take, get_elem?,
}
use arrow_head.Latency.{Histogram, fresh, bounds_ms, index_in, bucket_index, count_at, observe}

abbrev pub sum : List ℕ → ℕ
sum [] = 0
sum (n ∷ ns) = n + sum ns

-- How many of the durations are at most the bound.
abbrev pub count_upto : ℕ → List ℕ → ℕ
count_upto b [] = 0
count_upto b (ms ∷ rest) = (if leb ms b then 1 else 0) + count_upto b rest

-- The observations of a process one after the other.
unfoldable pub observe_each : List ℕ → Histogram → Histogram
observe_each [] h = h
observe_each (ms ∷ rest) h = observe_each rest (observe h ms)

-- Each bound is below the ones behind it.
abbrev IsRising : List ℕ → Type 0
IsRising [] = Unit {0}
IsRising (b ∷ bs) = All (λ c. b ≤ c) bs × IsRising bs

All-get_elem? : (b i c : ℕ) (bs : List ℕ) → All (λ x. b ≤ x) bs → get_elem? bs i ≡ some c → b ≤ c
All-get_elem? b i c [] h e = cc
All-get_elem? b zero c (x ∷ bs) (h, hs) e = ground arith
All-get_elem? b (suc i) c (x ∷ bs) (h, hs) e = All-get_elem? b i c bs hs e

-- The index lies at or before that of a bound exactly where the duration is at most the bound.
index_in-leb :
    (bs : List ℕ) (i b ms : ℕ)
    → IsRising bs
    → get_elem? bs i ≡ some b
    → leb (index_in bs ms) i ≡ leb ms b
unfolding index_in
index_in-leb [] i b ms h e = cc
index_in-leb (x ∷ bs) zero b ms h e = ground arith
index_in-leb (x ∷ bs) (suc i) b ms (first, h) e =
    let later = index_in-leb bs i b ms h e in
    let above = All-get_elem? x i b bs first e in ground arith

count_at-sum :
    (j i : ℕ) (bs : List ℕ)
    → j < length bs
    → sum bs + 1 < u64_mod
    → sum (take (suc i) (count_at j bs)) ≡ sum (take (suc i) bs) + (if leb j i then 1 else 0)
unfolding count_at
count_at-sum j i [] h small = ground arith
count_at-sum zero i (b ∷ bs) h small = ground arith
count_at-sum (suc j) zero (b ∷ bs) h small = ground arith
count_at-sum (suc j) (suc i) (b ∷ bs) h small = ground (arith, count_at-sum j i bs)

count_at-total :
    (j : ℕ) (bs : List ℕ) → j < length bs → sum bs + 1 < u64_mod → sum (count_at j bs) ≡ sum bs + 1
unfolding count_at
count_at-total j [] h small = ground arith
count_at-total zero (b ∷ bs) h small = ground arith
count_at-total (suc j) (b ∷ bs) h small = ground (arith, count_at-total j bs)

length-count_at : (j : ℕ) (bs : List ℕ) → length (count_at j bs) ≡ length bs
unfolding count_at
length-count_at j [] = refl
length-count_at zero (b ∷ bs) = refl
length-count_at (suc j) (b ∷ bs) = ground (arith, length-count_at j bs)

index_in-le : (bs : List ℕ) (ms : ℕ) → index_in bs ms ≤ length bs
unfolding index_in
index_in-le [] ms = omega arith
index_in-le (b ∷ bs) ms = ground (arith, index_in-le bs ms)

bounds-IsRising : IsRising bounds_ms
bounds-IsRising = ground arith

-- A histogram of 15 buckets whose count is their sum.
pub record IsCounted (h : Histogram) : Type 0 where
  pub buckets : length h.buckets ≡ 15
  pub count : h.count ≡ sum h.buckets

observe-IsCounted :
    (h : Histogram) (ms : ℕ)
    → IsCounted h
    → sum h.buckets + 1 < u64_mod
    → IsCounted (observe h ms) × (sum (observe h ms).buckets ≡ sum h.buckets + 1)
unfolding observe bucket_index
observe-IsCounted h ms c small =
    let j = index_in bounds_ms ms in
    let within : j < length h.buckets = omega (arith, index_in-le bounds_ms ms, c.buckets) in
    let total = count_at-total j h.buckets within small in
    (
      record {
        buckets = length-count_at j h.buckets ∙ c.buckets;
        count = omega (arith, total, c.count);
      },
      total,
    )

observe-upto :
    (h : Histogram) (ms i b : ℕ)
    → IsCounted h
    → sum h.buckets + 1 < u64_mod
    → get_elem? bounds_ms i ≡ some b
    → sum (take (suc i) (observe h ms).buckets)
      ≡ sum (take (suc i) h.buckets) + (if leb ms b then 1 else 0)
unfolding observe bucket_index
observe-upto h ms i b c small e =
    let j = index_in bounds_ms ms in
    let within : j < length h.buckets = omega (arith, index_in-le bounds_ms ms, c.buckets) in
    count_at-sum j i h.buckets within small
    ∙ ap (λ t. sum (take (suc i) h.buckets) + (if t then 1 else 0))
        (index_in-leb bounds_ms i b ms bounds-IsRising e)

observe_each-counted :
    (xs : List ℕ) (h : Histogram) (i b : ℕ)
    → IsCounted h
    → sum h.buckets + length xs < u64_mod
    → get_elem? bounds_ms i ≡ some b
    → ((observe_each xs h).count ≡ sum h.buckets + length xs)
      × (sum (observe_each xs h).buckets ≡ sum h.buckets + length xs)
      × (sum (take (suc i) (observe_each xs h).buckets)
          ≡ sum (take (suc i) h.buckets) + count_upto b xs)
unfolding observe_each
observe_each-counted [] h i b c small e = (omega (arith, c.count), omega arith, omega arith)
observe_each-counted (ms ∷ rest) h i b c small e =
    let (c', total) = observe-IsCounted h ms c (omega arith) in
    let upto = observe-upto h ms i b c (omega arith) e in
    let (n, t, u) = observe_each-counted rest (observe h ms) i b c' (omega (arith, total)) e in
    (omega (arith, n, total), omega (arith, t, total), omega (arith, u, upto))

take_zeros : (n : ℕ) (bs : List ℕ) → All (λ b. b ≡ 0) bs → sum (take n bs) ≡ 0
take_zeros zero bs h = refl
take_zeros (suc n) [] h = refl
take_zeros (suc n) (b ∷ bs) (e, h) = omega (arith, take_zeros n bs h)

-- After fewer than 2^64 - 1 observations on a fresh histogram its count and the sum of its buckets
-- are their number, and the buckets up to a bound together count the durations of at most the
-- bound, for each of the bounds.
pub observe_each-fresh :
    (xs : List ℕ) (i b : ℕ)
    → length xs < u64_mod - 1
    → get_elem? bounds_ms i ≡ some b
    → ((observe_each xs fresh).count ≡ length xs)
      × (sum (observe_each xs fresh).buckets ≡ length xs)
      × (sum (take (suc i) (observe_each xs fresh).buckets) ≡ count_upto b xs)
observe_each-fresh xs i b small e =
    let start : IsCounted fresh = record { buckets = refl; count = refl } in
    let (n, t, u) = observe_each-counted xs fresh i b start (omega arith) e in
    (
      omega (arith, n),
      omega (arith, t),
      omega (arith, u, take_zeros (suc i) fresh.buckets (ground arith)),
    )
