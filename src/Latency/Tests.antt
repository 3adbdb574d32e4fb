-- ===== src/Latency/Tests.antt =====
-- Observations of concrete durations.
use arrow_head.Prelude.{ℕ, suc, ◌≡◌, List, [], ◌∷◌, length, take, refl, arith}
use arrow_head.Latency.{fresh, bucket_index, index_in}
use arrow_head.Latency.Buckets.{sum, count_upto, observe_each, observe_each-fresh}

-- The budget of 150 ms has a bucket of its own.
budget_bucket : bucket_index 150 ≡ 8
unfolding bucket_index index_in
budget_bucket = refl

abbrev durations : List ℕ
durations = 3 ∷ 151 ∷ 150 ∷ 9_000 ∷ []

observe_each-fresh_example :
    ((observe_each durations fresh).count ≡ length durations)
    × (sum (observe_each durations fresh).buckets ≡ length durations)
    × (sum (take (suc 8) (observe_each durations fresh).buckets) ≡ count_upto 150 durations)
observe_each-fresh_example = observe_each-fresh durations 8 150 (omega arith) refl
