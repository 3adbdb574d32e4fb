-- ===== src/Graph.antt =====
-- The graph of pools of bot/crates/mev-bot/src/dex/graph.rs: its edges, and the pools that are
-- admitted to it. A `HashMap` is the list of its entries.
pub mod Enumerate
pub mod Chains
pub mod Steps
pub mod Closing
pub mod Deeper
pub mod Tries
pub mod Loops
pub mod Cycles
pub mod Adjacent
pub mod Complete
pub mod Priced
pub mod Sized
pub mod Selected
pub mod Ranked
mod Tests
use arrow_head.Prelude.{
  ℕ, suc, ◌+◌, ◌-◌, ◌*◌, min, max, Bool, true, false, Option, none, some, ltb, leb, ◌==◌, not, ◌&&◌,
  ◌||◌, if◌then◌else◌, List, [], ◌∷◌, ◌++◌, length, take, u64_mod, ◌%◌,
}
use arrow_head.Prelude.Sort.{sort_by}
use arrow_head.Types.{Address}
use arrow_head.Dex.{V2Pool, reserves_for}

abbrev pub max_cycle_len : ℕ
max_cycle_len = 5

abbrev pub max_candidates : ℕ
max_candidates = 32

abbrev pub max_raw_cycles : ℕ
max_raw_cycles = 1_024

abbrev pub gas_base : ℕ
gas_base = 320_000

abbrev pub gas_per_extra_leg : ℕ
gas_per_extra_leg = 120_000

pub record DirectedEdge : Type 0 where
  pub pool : ℕ
  pub token_in : Address
  pub token_out : Address

pub record Cycle : Type 0 where
  pub edges : List ℕ
  pub anchor : Address

pub record CycleCandidate : Type 0 where
  pub cycle : Cycle
  pub amount_in : ℕ
  pub gross_profit : ℕ

-- `Cycle::legs`
unfoldable pub cycle_legs : Cycle → ℕ
cycle_legs cycle = length cycle.edges

unfoldable pub gas_estimate : ℕ → ℕ
gas_estimate legs = (gas_base + gas_per_extra_leg * (legs - 2)) % u64_mod

-- The two edges of the pool at `i`.
unfoldable pub edges_of : ℕ → V2Pool → List DirectedEdge
edges_of i p =
    if p.reserve0 == 0 || p.reserve1 == 0
    then []
    else (record { pool = i; token_in = p.token0; token_out = p.token1 }
        ∷ (record { pool = i; token_in = p.token1; token_out = p.token0 } ∷ []))

-- The loop of `build_edges`, from the pool at `i` on.
unfoldable pub edges_from : ℕ → List V2Pool → List DirectedEdge
edges_from i [] = []
edges_from i (p ∷ pools) = edges_of i p ++ edges_from (suc i) pools

unfoldable pub build_edges : List V2Pool → List DirectedEdge
unfolding edges_from
build_edges pools = edges_from 0 pools

-- `adj.entry(token).or_default().push(i)`
unfoldable pub push_edge : Address → ℕ → List (Address × List ℕ) → List (Address × List ℕ)
push_edge token i [] = (token, i ∷ []) ∷ []
push_edge token i ((t, es) ∷ adj) =
    let rest = push_edge token i adj in
    if t == token then (t, es ++ (i ∷ [])) ∷ adj else (t, es) ∷ rest

-- The loop of `adjacency`, from the edge at `i` on.
unfoldable pub adjacency_from :
    ℕ → List DirectedEdge → List (Address × List ℕ) → List (Address × List ℕ)
adjacency_from i [] adj = adj
adjacency_from i (e ∷ edges) adj = adjacency_from (suc i) edges (push_edge e.token_in i adj)

unfoldable pub adjacency : List DirectedEdge → List (Address × List ℕ)
unfolding adjacency_from
adjacency edges = adjacency_from 0 edges []

-- `adj.get(&token)`
unfoldable pub edges_at : List (Address × List ℕ) → Address → Option (List ℕ)
edges_at [] token = none
edges_at ((t, es) ∷ adj) token =
    let rest = edges_at adj token in if t == token then some es else rest

unfoldable pub has_token : Address → V2Pool → Bool
has_token weth p = p.token0 == weth || p.token1 == weth

-- `reserves_for(weth).map(|(r, _)| r).unwrap_or(U256::ZERO)`
unfoldable pub weth_reserve : Address → V2Pool → ℕ
weth_reserve weth p = depth_of (reserves_for p weth)
  where
    depth_of : Option (ℕ × ℕ) → ℕ
    depth_of none = 0
    depth_of (some (r, _)) = r

-- Whether the first comes before the second, the deepest first.
unfoldable pub is_deeper : Address → V2Pool → V2Pool → Bool
is_deeper weth a b = leb (weth_reserve weth b) (weth_reserve weth a)

unfoldable pub filter_weth : Address → List V2Pool → List V2Pool
filter_weth weth [] = []
filter_weth weth (p ∷ pools) =
    let rest = filter_weth weth pools in if has_token weth p then p ∷ rest else rest

-- The loop that fills what is left of `limit` with the other pools.
unfoldable pub fill : Address → ℕ → List V2Pool → List V2Pool → List V2Pool
fill weth limit [] out = out
fill weth limit (p ∷ pools) out =
    let next = fill weth limit pools (if has_token weth p then out else out ++ (p ∷ [])) in
    if leb limit (length out) then out else next

unfoldable pub select_pools : List V2Pool → Address → ℕ → List V2Pool
unfolding filter_weth fill is_deeper
select_pools pools weth limit =
    let out = take limit (sort_by (is_deeper weth) (filter_weth weth pools)) in
    if leb (length pools) limit
    then pools
    else if ltb (length out) limit
    then fill weth limit pools out
    else out
