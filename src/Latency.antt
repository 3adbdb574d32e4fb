-- ===== src/Latency.antt =====
-- The histograms of bot/crates/mev-bot/src/latency.rs. The lock and the atomic are fields of a
-- record; the snapshot, which formats with floats, is left out.
pub mod Buckets
mod Tests
use arrow_head.Prelude.{
  ℕ, zero, suc, ◌+◌, ◌*◌, ◌-◌, ◌%◌, ◌^◌, Bool, true, false, List, [], ◌∷◌, ltb, leb, if◌then◌else◌,
  u64_mod,
}

abbrev pub bounds_ms : List ℕ
bounds_ms = 1 ∷ 2 ∷ 5 ∷ 10 ∷ 20 ∷ 50 ∷ 75 ∷ 100 ∷ 150 ∷ 200 ∷ 300 ∷ 500 ∷ 1_000 ∷ 2_500 ∷ []

pub data Stage : Type 0 where
  ingest_to_strategy strategy risk simulation discovery inventory total : Stage

-- `Inner` and the count: 15 buckets, the last one for what lies above every bound.
pub record Histogram : Type 0 where
  pub buckets : List ℕ
  pub sum_ms : ℕ
  pub min_ms : ℕ
  pub max_ms : ℕ
  pub count : ℕ

abbrev pub fresh : Histogram
fresh = record {
  buckets = 0 ∷ 0 ∷ 0 ∷ 0 ∷ 0 ∷ 0 ∷ 0 ∷ 0 ∷ 0 ∷ 0 ∷ 0 ∷ 0 ∷ 0 ∷ 0 ∷ 0 ∷ [];
  sum_ms = 0;
  min_ms = u64_mod - 1;
  max_ms = 0;
  count = 0;
}

-- The loop of `bucket_index`, over the bounds that are left.
unfoldable pub index_in : List ℕ → ℕ → ℕ
index_in [] ms = 0
index_in (bound ∷ bounds) ms =
    let later = index_in bounds ms in if leb ms bound then 0 else suc later

unfoldable pub bucket_index : ℕ → ℕ
bucket_index ms = index_in bounds_ms ms

-- `buckets[idx] += 1`
unfoldable pub count_at : ℕ → List ℕ → List ℕ
count_at i [] = []
count_at zero (b ∷ bs) = (b + 1) % u64_mod ∷ bs
count_at (suc i) (b ∷ bs) = b ∷ count_at i bs

-- `Histogram::observe`
unfoldable pub observe : Histogram → ℕ → Histogram
observe h ms = record {
  buckets = count_at (bucket_index ms) h.buckets;
  sum_ms = (h.sum_ms + ms) % 2 ^ 128;
  min_ms = if ltb ms h.min_ms then ms else h.min_ms;
  max_ms = if ltb h.max_ms ms then ms else h.max_ms;
  count = (h.count + 1) % u64_mod;
}

pub record Latency : Type 0 where
  pub ingest : Histogram
  pub strategy : Histogram
  pub risk : Histogram
  pub simulation : Histogram
  pub discovery : Histogram
  pub inventory : Histogram
  pub total : Histogram

-- `Latency::observe`
unfoldable pub observe_stage : Latency → Stage → ℕ → Latency
observe_stage l Stage.ingest_to_strategy ms = record l { ingest = observe l.ingest ms }
observe_stage l Stage.strategy ms = record l { strategy = observe l.strategy ms }
observe_stage l Stage.risk ms = record l { risk = observe l.risk ms }
observe_stage l Stage.simulation ms = record l { simulation = observe l.simulation ms }
observe_stage l Stage.discovery ms = record l { discovery = observe l.discovery ms }
observe_stage l Stage.inventory ms = record l { inventory = observe l.inventory ms }
observe_stage l Stage.total ms = record l { total = observe l.total ms }
