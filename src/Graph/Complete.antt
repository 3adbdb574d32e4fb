-- ===== src/Graph/Complete.antt =====
-- What `enumerate_cycles` of bot/crates/mev-bot/src/dex/graph.rs finds.
use arrow_head.Prelude.{
  ℕ, ◌+◌, ◌≤◌, ◌≡◌, ◌⊎◌, inl, inr, refl, arith, true, Option, none, List, [], ◌∷◌, length, All, max,
  min,
}
use arrow_head.Prelude.Outcome.{value}
use arrow_head.Prelude.Sets.{contains, Distinct, eq_list}
use arrow_head.Types.{Address}
use arrow_head.Graph.{DirectedEdge, Cycle, adjacency, max_raw_cycles, max_cycle_len}
use arrow_head.Graph.Enumerate.{Query, key_of, start, walk, enumerate_cycles}
use arrow_head.Graph.Chains.{IsSimple, Reads, Chain, DistinctPools, DistinctOuts, length-Reads}
use arrow_head.Graph.Steps.{IsSound, IsAt, GoesOn, keys_of}
use arrow_head.Graph.Deeper.{Walks, IsWalked, CoversAll}
use arrow_head.Graph.Adjacent.{adjacency-AdjFits}
use arrow_head.Graph.Cycles.{walk-Walks}

abbrev pub leg_bound : ℕ → ℕ
leg_bound max_len = min (max max_len 2) max_cycle_len

-- The search of `enumerate_cycles`.
abbrev query_of : List DirectedEdge → Address → ℕ → Option ℕ → (ℕ → ℕ) → Query
query_of edges anchor max_len deadline clock = record {
  edges = edges;
  adj = adjacency edges;
  anchor = anchor;
  max_len = leg_bound max_len;
  deadline = deadline;
  clock = clock;
}

start-IsWalked :
    (edges : List DirectedEdge) (anchor : Address) (max_len : ℕ) (deadline : Option ℕ)
    (clock : ℕ → ℕ)
    → IsWalked (query_of edges anchor max_len deadline clock) [] anchor (start anchor) (
        walk
          (leg_bound max_len)
          (query_of edges anchor max_len deadline clock)
          anchor
          (start anchor))
unfolding Walks IsAt IsSound
start-IsWalked edges anchor max_len deadline clock =
    let q = query_of edges anchor max_len deadline clock in
    let walks : Walks q 0 (walk (leg_bound max_len) q) =
      walk-Walks (leg_bound max_len) 0 q (adjacency-AdjFits edges) (omega arith) in
    walks [] anchor (start anchor) refl (omega arith) (tt, refl, refl, refl, tt, (refl, tt))
      (refl, tt, tt) (omega arith)

-- The enumeration over the adjacency map of the edges ends without a panic, for any budget and
-- clock. Every cycle it gives starts and ends at the anchor, each leg takes the token that the one
-- before it gives, no pool is used twice and no token is come to twice, and it has from 2 to
-- `max_len` legs, `max_len` being brought between 2 and 5. No two cycles have the same edges, and
-- there are at most 1,027 of them.
pub enumerate_cycles-IsSimple :
    (edges : List DirectedEdge) (anchor : Address) (max_len : ℕ) (deadline : Option ℕ)
    (clock : ℕ → ℕ)
    → (cycles : List Cycle) × (enumerate_cycles edges
          (adjacency edges)
          anchor
          max_len
          deadline
          clock
        ≡ value cycles)
      × All (IsSimple edges anchor (leg_bound max_len)) cycles
      × Distinct eq_list (keys_of cycles)
      × (length cycles ≤ max_raw_cycles + 3)
unfolding enumerate_cycles IsWalked IsSound
enumerate_cycles-IsSimple edges anchor max_len deadline clock =
    let (t, ends, _, sound, capped, _) = start-IsWalked edges anchor max_len deadline clock in
    let (keys, once, simple) = sound in (t.out, rw ends refl, simple, rw keys at once, omega arith)

-- Any simple cycle goes on from the start.
simple-GoesOn :
    (q : Query) (c : Cycle) (P : List ℕ → Type 0)
    → IsSimple q.edges q.anchor q.max_len c
    → ((e : ℕ) (es : List ℕ) (d : DirectedEdge) (gs : List DirectedEdge)
        → GoesOn q [] q.anchor e es d gs
        → P (e ∷ es))
    → P c.edges
unfolding IsSimple GoesOn
simple-GoesOn q c P (_, two, most, (ds, reads, chain, pools, outs)) h =
    go c.edges ds two most reads chain pools outs
  where
    go :
        (es : List ℕ) (ds : List DirectedEdge)
        → 2 ≤ length es
        → length es ≤ q.max_len
        → Reads q.edges es ds
        → Chain q.anchor ds q.anchor
        → DistinctPools ds
        → DistinctOuts ds
        → P es
    go [] ds two most r ch dp dt = ground arith
    go (e ∷ es) [] two most r ch dp dt = elim r [ ]
    go (e ∷ es) (d ∷ gs) two most (at, r) (from, ch) dp dt =
        let size = length-Reads q.edges es gs r in
        h e es d gs (at, from, r, ch, dp, dt, omega arith, omega arith)

-- Without a deadline the enumeration misses no cycle unless it comes to its cap: it gives 1,024
-- cycles or more, or every simple cycle from the anchor of 2 to `max_len` legs has the edges of one
-- that is given.
pub enumerate_cycles_complete :
    (edges : List DirectedEdge) (anchor : Address) (max_len : ℕ) (clock : ℕ → ℕ)
    → (cycles : List Cycle) × (enumerate_cycles edges (adjacency edges) anchor max_len none clock
        ≡ value cycles)
      × ((max_raw_cycles ≤ length cycles)
          ⊎ ((c : Cycle)
              → IsSimple edges anchor (leg_bound max_len) c
              → contains eq_list (key_of c.edges) (keys_of cycles) ≡ true))
unfolding enumerate_cycles IsWalked IsSound CoversAll
enumerate_cycles_complete edges anchor max_len clock =
    let q = query_of edges anchor max_len none clock in
    let (t, ends, _, sound, _, found) = start-IsWalked edges anchor max_len none clock in
    let (keys, _, _) = sound in
    (
      t.out,
      rw ends refl,
      elim (found refl) [
        | inl full ↦ inl full
        | inr all ↦ inr (λ c simple.
            simple-GoesOn q c (λ es. contains eq_list (key_of es) (keys_of t.out) ≡ true) simple
              (λ e es d gs on. rw keys at (all e es d gs on)))
      ],
    )
