-- ===== src/Graph/Sized.antt =====
-- `optimal_cycle_in`, `search_with` and `search` of bot/crates/mev-bot/src/dex/graph.rs.
-- An instant and a duration are numbers of nanoseconds. A clock gives the instant of each reading.
use arrow_head.Prelude.{
  ℕ, suc, ◌+◌, ◌*◌, ◌^◌, min, max, Bool, false, Option, none, some, ltb, leb, ◌==◌, ◌||◌,
  if◌then◌else◌, List, [], ◌∷◌, ◌++◌, take,
}
use arrow_head.Prelude.Outcome.{
  Outcome, value, absent, panicked, out_of_fuel, absent_if, ◌>>=◌, ◌>>◌,
}
use arrow_head.Prelude.Sort.{sort_by}
use arrow_head.Types.{Address}
use arrow_head.Dex.{V2Pool}
use arrow_head.Dex.Search.{ternary_search_max}
use arrow_head.Dex.Sizing.{or_absent}
use arrow_head.Graph.{
  DirectedEdge, Cycle, CycleCandidate, select_pools, build_edges, adjacency, max_candidates,
}
use arrow_head.Graph.Enumerate.{enumerate_cycles}
use arrow_head.Graph.Priced.{cycle_profit, first_reserve}

unfoldable pub optimal_cycle_in : Cycle → List DirectedEdge → List V2Pool → ℕ → Outcome (ℕ × ℕ)
optimal_cycle_in cycle edges pools max_in = do
  r_in ← or_absent (first_reserve cycle edges pools)
  absent_if (min max_in r_in == 0)
  (x, p) ← ternary_search_max 0 (min max_in r_in) (cycle_profit cycle edges pools)
  if x == 0 || p == 0 then absent else value (x, p)

-- The seconds of an `Instant` are an `i64`.
abbrev pub instant_bound : ℕ
instant_bound = 2 ^ 63 * 10 ^ 9

-- `Instant::checked_add`
unfoldable pub checked_add : ℕ → ℕ → Option ℕ
checked_add now budget = if ltb (now + budget) instant_bound then some (now + budget) else none

unfoldable pub is_late : Option ℕ → ℕ → Bool
is_late none now = false
is_late (some d) now = leb d now

-- What the loop of `search_with` does with the size of a cycle.
unfoldable pub push_sized :
    Cycle → Outcome (ℕ × ℕ) → List CycleCandidate → Outcome (List CycleCandidate)
push_sized cycle (value (x, p)) out =
    value (out ++ (record { cycle = cycle; amount_in = x; gross_profit = p } ∷ []))
push_sized cycle absent out = value out
push_sized cycle panicked out = panicked
push_sized cycle out_of_fuel out = out_of_fuel

-- The loop of `search_with`, whose clock has been read `i` times.
unfoldable pub size_each :
    List DirectedEdge
    → List V2Pool
    → ℕ
    → Option ℕ
    → (ℕ → ℕ)
    → ℕ
    → List Cycle
    → List CycleCandidate
    → Outcome (List CycleCandidate)
size_each edges pools max_in deadline clock i [] out = value out
size_each edges pools max_in deadline clock i (cycle ∷ cycles) out =
    let next = size_each edges pools max_in deadline clock (suc i) cycles in
    if is_late deadline (clock i)
    then value out
    else push_sized cycle (optimal_cycle_in cycle edges pools max_in) out >>= next

-- Whether the first may stand before the second: the order of `Reverse(gross_profit)`.
unfoldable pub is_better : CycleCandidate → CycleCandidate → Bool
is_better a b = leb b.gross_profit a.gross_profit

-- `now` is the instant before the search; the two clocks are those of the enumeration and of the
-- loop behind it.
unfoldable pub search_with :
    List V2Pool
    → Address
    → ℕ
    → ℕ
    → ℕ
    → ℕ
    → ℕ
    → (ℕ → ℕ)
    → (ℕ → ℕ)
    → Outcome (List V2Pool × (List DirectedEdge × List CycleCandidate))
search_with pools weth max_in max_len budget max_pools now clock later = do
  let selected = select_pools pools weth (max max_pools 2)
  let edges = build_edges selected
  let deadline = checked_add now budget
  cycles ← enumerate_cycles edges (adjacency edges) weth max_len deadline clock
  out ← size_each edges selected max_in deadline later 0 cycles []
  value (selected, (edges, take max_candidates (sort_by is_better out)))

abbrev pub max_pools_default : ℕ
max_pools_default = 200

unfoldable pub search :
    List V2Pool
    → Address
    → ℕ
    → ℕ
    → ℕ
    → ℕ
    → (ℕ → ℕ)
    → (ℕ → ℕ)
    → Outcome (List V2Pool × (List DirectedEdge × List CycleCandidate))
search pools weth max_in max_len budget now clock later =
    search_with pools weth max_in max_len budget max_pools_default now clock later
