-- ===== src/Graph/Enumerate.antt =====
-- `enumerate_cycles` and `walk` of bot/crates/mev-bot/src/dex/graph.rs. The mutable arguments of
-- `walk` are a state, and `Instant::now()` reads the next instant of a clock.
use arrow_head.Prelude.{
  ℕ, zero, suc, min, max, Bool, false, Option, none, some, leb, ◌==◌, ◌||◌, if◌then◌else◌, List, [],
  ◌∷◌, ◌++◌, length, get_elem?,
}
use arrow_head.Prelude.Outcome.{Outcome, value, panicked, out_of_fuel, ◌>>=◌}
use arrow_head.Prelude.Sets.{contains, insert, remove, eq_list}
use arrow_head.Prelude.Sort.{sort_by}
use arrow_head.Types.{Address}
use arrow_head.Graph.{DirectedEdge, Cycle, edges_at, max_cycle_len, max_raw_cycles}

-- The arguments of `walk` that stay the same, and the clock: the instant of each reading.
pub record Query : Type 0 where
  pub edges : List DirectedEdge
  pub adj : List (Address × List ℕ)
  pub anchor : Address
  pub max_len : ℕ
  pub deadline : Option ℕ
  pub clock : ℕ → ℕ

-- The mutable arguments of `walk`, and how often the clock has been read.
pub record Traversal : Type 0 where
  pub path : List ℕ
  pub visited : List Address
  pub used_pools : List ℕ
  pub seen : List (List ℕ)
  pub out : List Cycle
  pub readings : ℕ

-- The vector that was sorted to compare edge sets.
unfoldable pub key_of : List ℕ → List ℕ
key_of edges = sort_by leb edges

-- `path.pop()`
unfoldable pub pop : List ℕ → List ℕ
pop [] = []
pop (e ∷ []) = []
pop (e ∷ (d ∷ path)) = e ∷ pop (d ∷ path)

-- The reading of the clock, where there is a deadline.
unfoldable pub read_clock : Query → Traversal → Bool × Traversal
read_clock q s = late_of q.deadline
  where
    late_of : Option ℕ → Bool × Traversal
    late_of none = (false, s)
    late_of (some d) = (leb d (q.clock s.readings), record s { readings = suc s.readings })

-- A closing edge: the cycle is kept when its edges are new. Whether the walk is over.
unfoldable pub close_cycle : Query → ℕ → Traversal → Bool × Traversal
unfolding key_of
close_cycle q e s =
    let edges = s.path ++ (e ∷ []) in
    let out = s.out ++ (record { edges = edges; anchor = q.anchor } ∷ []) in
    if leb 2 (suc (length s.path))
    then (if contains eq_list (key_of edges) s.seen then (false, s) else (
      leb max_raw_cycles (length out),
      record s { seen = s.seen ++ (key_of edges ∷ []); out = out },
    ))
    else (false, s)

unfoldable pub push_leg : ℕ → DirectedEdge → Traversal → Traversal
push_leg e edge s = record s {
  path = s.path ++ (e ∷ []);
  visited = insert (λ a b. a == b) edge.token_out s.visited;
  used_pools = insert (λ a b. a == b) edge.pool s.used_pools;
}

unfoldable pub pop_leg : DirectedEdge → Traversal → Traversal
unfolding pop
pop_leg edge s = record s {
  path = pop s.path;
  visited = remove (λ a b. a == b) edge.token_out s.visited;
  used_pools = remove (λ a b. a == b) edge.pool s.used_pools;
}

-- What the loop of `walk` does with the edge at `e`; `next` is the walk that it calls.
unfoldable pub try_edge :
    Query
    → (Address → Traversal → Outcome Traversal)
    → ℕ
    → DirectedEdge
    → Traversal
    → Outcome (Bool × Traversal)
try_edge q next e edge s =
    let deeper = next edge.token_out (push_leg e edge s) in
    if contains (λ a b. a == b) edge.pool s.used_pools
    then value (false, s)
    else if edge.token_out == q.anchor
    then value (close_cycle q e s)
    else if leb q.max_len (suc (length s.path)) || contains (λ a b. a == b) edge.token_out s.visited
    then value (false, s)
    else deeper >>= λ s1. value (false, pop_leg edge s1)

-- `edges[e]`
unfoldable pub edge_at : List DirectedEdge → ℕ → Outcome DirectedEdge
edge_at edges e = found (get_elem? edges e)
  where
    found : Option DirectedEdge → Outcome DirectedEdge
    found none = panicked
    found (some edge) = value edge

unfoldable pub try_each :
    Query → (Address → Traversal → Outcome Traversal) → List ℕ → Traversal → Outcome Traversal
try_each q next [] s = value s
try_each q next (e ∷ es) s = do
  edge ← edge_at q.edges e
  (over, s1) ← try_edge q next e edge s
  let rest = try_each q next es s1
  if over then value s1 else rest

-- The body of `walk`; `next` is the walk that its loop calls.
unfoldable pub walk_with :
    Query → (Address → Traversal → Outcome Traversal) → Address → Traversal → Outcome Traversal
walk_with q next current s =
    let (late, s1) = read_clock q s in
    if leb max_raw_cycles (length s.out)
    then value s
    else if late
    then value s1
    else elim (edges_at q.adj current) [
      | none ↦ value s1
      | some candidates ↦ try_each q next candidates s1
    ]

-- The first argument bounds the depth of the recursion.
unfoldable pub walk : ℕ → Query → Address → Traversal → Outcome Traversal
walk zero q = λ current s. out_of_fuel
walk (suc fuel) q = walk_with q (walk fuel q)

abbrev pub start : Address → Traversal
start anchor = record {
  path = [];
  visited = anchor ∷ [];
  used_pools = [];
  seen = [];
  out = [];
  readings = 0;
}

unfoldable pub enumerate_cycles :
    List DirectedEdge
    → List (Address × List ℕ)
    → Address
    → ℕ
    → Option ℕ
    → (ℕ → ℕ)
    → Outcome (List Cycle)
enumerate_cycles edges adj anchor max_len deadline clock =
    let bound = min (max max_len 2) max_cycle_len in
    let q : Query = record {
      edges = edges;
      adj = adj;
      anchor = anchor;
      max_len = bound;
      deadline = deadline;
      clock = clock;
    } in
    walk bound q anchor (start anchor) >>= λ s. value s.out
