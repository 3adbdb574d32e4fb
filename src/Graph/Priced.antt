-- ===== src/Graph/Priced.antt =====
-- `evaluate` of bot/crates/mev-bot/src/dex/graph.rs, and the parts of `optimal_cycle_in` that use it.
use arrow_head.Prelude.{
  ℕ, ◌-◌, Option, none, some, ◌==◌, if◌then◌else◌, List, [], ◌∷◌, get_elem?, ◌>>=◌,
}
use arrow_head.Dex.{V2Pool, v2_amount_out, reserves_for}
use arrow_head.Graph.{DirectedEdge, Cycle}

-- The loop of `evaluate`.
unfoldable pub evaluate_legs : List DirectedEdge → List V2Pool → List ℕ → ℕ → Option ℕ
evaluate_legs edges pools [] amount = some amount
evaluate_legs edges pools (e ∷ es) amount = do
  edge ← get_elem? edges e
  pool ← get_elem? pools edge.pool
  (r_in, r_out) ← reserves_for pool edge.token_in
  let out = v2_amount_out amount r_in r_out pool.fee_bps
  let rest = evaluate_legs edges pools es out
  if out == 0 then some 0 else rest

unfoldable pub evaluate : Cycle → List DirectedEdge → List V2Pool → ℕ → Option ℕ
evaluate cycle edges pools amount_in = evaluate_legs edges pools cycle.edges amount_in

-- What `profit_of` makes of the output of an input of `x`.
unfoldable pub gain_over : ℕ → Option ℕ → ℕ
gain_over x none = 0
gain_over x (some out) = out - x

unfoldable pub cycle_profit : Cycle → List DirectedEdge → List V2Pool → ℕ → ℕ
cycle_profit cycle edges pools x = gain_over x (evaluate cycle edges pools x)

-- The reserve that the first leg sells into.
unfoldable pub first_reserve : Cycle → List DirectedEdge → List V2Pool → Option ℕ
first_reserve cycle edges pools = do
  e ← get_elem? cycle.edges 0
  first ← get_elem? edges e
  pool ← get_elem? pools first.pool
  (r_in, _) ← reserves_for pool first.token_in
  some r_in
