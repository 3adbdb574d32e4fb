-- ===== src/Graph/Tests.antt =====
-- Runs of bot/crates/mev-bot/src/dex/graph.rs on three pools between three tokens.
use arrow_head.Prelude.{
  ℕ, ◌≤◌, ◌+◌, ◌≡◌, ◌⊎◌, refl, arith, true, none, some, List, [], ◌∷◌, length, All, max,
}
use arrow_head.Prelude.Outcome.{value}
use arrow_head.Prelude.Sets.{contains, Distinct, eq_list}
use arrow_head.Prelude.Sort.{IsSorted}
use arrow_head.Dex.{V2Pool, Venue}
use arrow_head.Graph.{
  DirectedEdge, Cycle, CycleCandidate, adjacency, adjacency_from, push_edge, edges_at,
  max_raw_cycles, max_candidates,
}
use arrow_head.Graph.Enumerate.{
  enumerate_cycles, walk, walk_with, try_each, try_edge, edge_at, read_clock, close_cycle, push_leg,
  pop_leg, key_of, pop,
}
use arrow_head.Graph.Chains.{IsSimple}
use arrow_head.Graph.Steps.{keys_of}
use arrow_head.Graph.Complete.{leg_bound, enumerate_cycles-IsSimple, enumerate_cycles_complete}
use arrow_head.Graph.Sized.{search_with, is_better}
use arrow_head.Graph.Selected.{IsDirection}
use arrow_head.Graph.Ranked.{IsPairSized, IsCandidate, search_with-IsCandidate}

abbrev pool_of : ℕ → ℕ → ℕ → ℕ → V2Pool
pool_of a b ra rb = record {
  address = a + b;
  token0 = a;
  token1 = b;
  reserve0 = ra;
  reserve1 = rb;
  fee_bps = 30;
  venue = Venue.uni_v2;
  block = 1;
}

-- The tokens 1, 2 and 3, 1 being the anchor.
abbrev three_pools : List V2Pool
three_pools =
    pool_of 1 2 1_000_000 2_000_000
    ∷ (pool_of 2 3 2_000_000 3_000_000 ∷ (pool_of 1 3 1_000_000 2_000_000 ∷ []))

abbrev three_edges : List DirectedEdge
three_edges =
    record { pool = 0; token_in = 1; token_out = 2 }
    ∷ (record { pool = 0; token_in = 2; token_out = 1 }
        ∷ (record { pool = 1; token_in = 2; token_out = 3 }
            ∷ (record { pool = 1; token_in = 3; token_out = 2 }
                ∷ (record { pool = 2; token_in = 1; token_out = 3 }
                    ∷ (record { pool = 2; token_in = 3; token_out = 1 } ∷ [])))))

-- The triangle is found in both directions.
two_ways :
    enumerate_cycles three_edges (adjacency three_edges) 1 5 none (λ i. i)
    ≡ value (
        record { edges = 0 ∷ (2 ∷ (5 ∷ [])); anchor = 1 }
        ∷ (record { edges = 4 ∷ (3 ∷ (1 ∷ [])); anchor = 1 } ∷ []))
unfolding enumerate_cycles walk walk_with try_each try_edge edge_at read_clock close_cycle push_leg
    pop_leg key_of pop adjacency adjacency_from push_edge edges_at
two_ways = refl

enumerate_cycles-IsSimple_example :
    (cycles : List Cycle) × (enumerate_cycles three_edges
        (adjacency three_edges)
        1
        9
        (some 100)
        (λ i. i)
      ≡ value cycles)
    × All (IsSimple three_edges 1 (leg_bound 9)) cycles
    × Distinct eq_list (keys_of cycles)
    × (length cycles ≤ max_raw_cycles + 3)
enumerate_cycles-IsSimple_example = enumerate_cycles-IsSimple three_edges 1 9 (some 100) (λ i. i)

enumerate_cycles_complete_example :
    (cycles : List Cycle) × (enumerate_cycles three_edges (adjacency three_edges) 1 5 none (λ i. i)
      ≡ value cycles)
    × ((max_raw_cycles ≤ length cycles)
        ⊎ ((c : Cycle)
            → IsSimple three_edges 1 (leg_bound 5) c
            → contains eq_list (key_of c.edges) (keys_of cycles) ≡ true))
enumerate_cycles_complete_example = enumerate_cycles_complete three_edges 1 5 (λ i. i)

three_pools-IsPairSized : All IsPairSized three_pools
three_pools-IsPairSized =
    ((omega arith, omega arith), ((omega arith, omega arith), ((omega arith, omega arith), tt)))

search_with-IsCandidate_example :
    (selected : List V2Pool) × (edges : List DirectedEdge) × (out : List CycleCandidate)
    × (search_with three_pools 1 500_000 3 25_000_000 200 7 (λ i. 8 + i) (λ i. 20 + i)
        ≡ value (selected, (edges, out)))
    × (length selected ≤ max 200 2)
    × All (IsDirection selected) edges
    × (length out ≤ max_candidates)
    × IsSorted is_better out
    × All (IsCandidate edges selected 1 500_000 (leg_bound 3)) out
search_with-IsCandidate_example =
    search_with-IsCandidate three_pools 1 500_000 3 25_000_000 200 7 (λ i. 8 + i) (λ i. 20 + i)
      three_pools-IsPairSized
