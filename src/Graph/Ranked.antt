-- ===== src/Graph/Ranked.antt =====
-- What `optimal_cycle_in` and `search_with` of bot/crates/mev-bot/src/dex/graph.rs give.
use arrow_head.Prelude.{
  All-snoc, ℕ, zero, suc, ◌+◌, ◌≤◌, ◌<◌, ◌≡◌, inl, inr, refl, ap, sym, arith, false, Option, none,
  some, ◌==◌, ◌||◌, List, [], ◌∷◌, ◌++◌, length, take, get_elem?, All, min, max, Bool-cases,
  Option-cases, length-take, >>=-eq-some, All-take,
}
use arrow_head.Prelude.Outcome.{Outcome, value, absent, panicked, out_of_fuel}
use arrow_head.Prelude.Sort.{sort_by, All-sort_by, IsSorted, sort_by-IsSorted, take-IsSorted}
use arrow_head.Types.{Address}
use arrow_head.Dex.{V2Pool, reserves_for}
use arrow_head.Dex.Words.{u112_mod}
use arrow_head.Dex.Sizing.Profit.{reserves_for-lt}
use arrow_head.Dex.Search.Peak.{ternary_search_max-IsFound, IsFound}
use arrow_head.Graph.{
  DirectedEdge, Cycle, CycleCandidate, build_edges, select_pools, max_candidates,
}
use arrow_head.Graph.Chains.{IsSimple}
use arrow_head.Graph.Complete.{leg_bound, enumerate_cycles-IsSimple}
use arrow_head.Graph.Priced.{evaluate, gain_over, cycle_profit, first_reserve}
use arrow_head.Graph.Sized.{
  optimal_cycle_in, push_sized, size_each, is_late, is_better, search_with, checked_add,
}
use arrow_head.Graph.Selected.{
  All-select_pools, length-select_pools, IsDirection, build_edges-IsDirection,
}

-- Both reserves fit the 112 bits of a pair's.
abbrev pub IsPairSized : V2Pool → Type 0
IsPairSized p = (p.reserve0 < u112_mod) × (p.reserve1 < u112_mod)

All-get_elem? {ℓ κ} :
    {A : Type ℓ} (P : A → Type κ) (xs : List A) (i : ℕ) (x : A)
    → All P xs
    → get_elem? xs i ≡ some x
    → P x
All-get_elem? P [] i x ps h = cc
All-get_elem? P (y ∷ xs) zero x (p, ps) h = let e : y ≡ x = cc in rw (sym e) p
All-get_elem? P (y ∷ xs) (suc i) x (p, ps) h = All-get_elem? P xs i x ps h

-- A size and its profit: the cycle returns both.
unfoldable pub IsGain : List DirectedEdge → List V2Pool → ℕ → Cycle → ℕ × ℕ → Type 0
IsGain edges pools max_in cycle (x, p) =
    (0 < x) × (x ≤ max_in) × (0 < p) × (evaluate cycle edges pools x ≡ some (x + p))

unfoldable pub IsCycleSized : List DirectedEdge → List V2Pool → ℕ → Cycle → Outcome (ℕ × ℕ) → Type 0
IsCycleSized edges pools max_in cycle (value best) = IsGain edges pools max_in cycle best
IsCycleSized edges pools max_in cycle absent = Unit {0}
IsCycleSized edges pools max_in cycle panicked = ⊥
IsCycleSized edges pools max_in cycle out_of_fuel = ⊥

gain_over-pos : (x : ℕ) (o : Option ℕ) → 0 < gain_over x o → o ≡ some (x + gain_over x o)
unfolding gain_over
gain_over-pos x none h = ground arith
gain_over-pos x (some out) h = ap some (omega arith)

best-IsGain :
    (cycle : Cycle) (edges : List DirectedEdge) (pools : List V2Pool) (max_in r_in x p : ℕ)
    → IsFound (cycle_profit cycle edges pools) 0 (min max_in r_in) (x, p)
    → (x == 0 || p == 0) ≡ false
    → IsCycleSized edges pools max_in cycle (value (x, p))
unfolding IsCycleSized IsGain IsFound cycle_profit
best-IsGain cycle edges pools max_in r_in x p (_, most, e) some_of =
    let pos : 0 < p = ground arith in
    let gain : evaluate cycle edges pools x ≡ some (x + p) =
      rw e (gain_over-pos x (evaluate cycle edges pools x) (rw e at pos)) in
    (ground arith, omega arith, pos, gain)

first_reserve-lt :
    (cycle : Cycle) (edges : List DirectedEdge) (pools : List V2Pool) (r : ℕ)
    → All IsPairSized pools
    → first_reserve cycle edges pools ≡ some r
    → r < u112_mod
unfolding first_reserve
first_reserve-lt cycle edges pools r small h =
    let (e, _, h1) = >>=-eq-some (get_elem? cycle.edges 0) _ r h in
    let (d, _, h2) = >>=-eq-some (get_elem? edges e) _ r h1 in
    let (p, at, h3) = >>=-eq-some (get_elem? pools d.pool) _ r h2 in
    let (rs, found, h4) = >>=-eq-some (reserves_for p d.token_in) _ r h3 in
    let (small0, small1) = All-get_elem? IsPairSized pools d.pool p small at in
    let (less, _) = reserves_for-lt p d.token_in rs small0 small1 found in
    let same : rs.0 ≡ r = cc in rw (sym same) less

-- Sizing a cycle over pairs with reserves below 2^112 ends without a panic. The size that it gives
-- is at most `max_in`, and the cycle evaluates it to itself and the profit, which is above zero.
pub optimal_cycle_in-IsCycleSized :
    (cycle : Cycle) (edges : List DirectedEdge) (pools : List V2Pool) (max_in : ℕ)
    → All IsPairSized pools
    → IsCycleSized edges pools max_in cycle (optimal_cycle_in cycle edges pools max_in)
unfolding optimal_cycle_in
optimal_cycle_in-IsCycleSized cycle edges pools max_in small =
    elim (Option-cases (first_reserve cycle edges pools)) [
      | inl missing ↦ rw missing (unfold IsCycleSized in tt)
      | inr (r_in, found) ↦
          let r_lt : r_in < u112_mod = first_reserve-lt cycle edges pools r_in small found in
          let ((x, p), ends, at) =
            ternary_search_max-IsFound 0 (min max_in r_in) (cycle_profit cycle edges pools)
              (omega arith) (omega arith) in
          rw found (elim (Bool-cases (min max_in r_in == 0)) [
            | inl t1 ↦ rw t1 (unfold IsCycleSized in tt)
            | inr t1 ↦
                rw (t1, ends)
                  (elim (Bool-cases (x == 0 || p == 0)) [
                    | inl t2 ↦ rw t2 (unfold IsCycleSized in tt)
                    | inr t2 ↦ rw t2 (best-IsGain cycle edges pools max_in r_in x p at t2)
                  ])
          ])
    ]

-- A candidate: a simple cycle from the anchor, with a size that gains.
unfoldable pub IsCandidate :
    List DirectedEdge → List V2Pool → Address → ℕ → ℕ → CycleCandidate → Type 0
IsCandidate edges pools weth max_in legs c =
    IsSimple edges weth legs c.cycle
    × IsGain edges pools max_in c.cycle (c.amount_in, c.gross_profit)

push_sized-IsCandidate :
    (edges : List DirectedEdge) (pools : List V2Pool) (weth : Address) (max_in legs : ℕ)
    (cycle : Cycle) (o : Outcome (ℕ × ℕ)) (out : List CycleCandidate)
    → IsSimple edges weth legs cycle
    → IsCycleSized edges pools max_in cycle o
    → All (IsCandidate edges pools weth max_in legs) out
    → (r : List CycleCandidate) × (push_sized cycle o out ≡ value r)
      × All (IsCandidate edges pools weth max_in legs) r
unfolding push_sized IsCycleSized IsCandidate
push_sized-IsCandidate edges pools weth max_in legs cycle (value (x, p)) out simple gain cs =
    let c : CycleCandidate = record { cycle = cycle; amount_in = x; gross_profit = p } in
    (
      out ++ (c ∷ []),
      refl,
      All-snoc (IsCandidate edges pools weth max_in legs) out c cs (simple, gain),
    )
push_sized-IsCandidate edges pools weth max_in legs cycle absent out simple gain cs =
    (out, refl, cs)
push_sized-IsCandidate edges pools weth max_in legs cycle panicked out simple gain cs =
    elim gain [ ]
push_sized-IsCandidate edges pools weth max_in legs cycle out_of_fuel out simple gain cs =
    elim gain [ ]

size_each-IsCandidate :
    (edges : List DirectedEdge) (pools : List V2Pool) (weth : Address) (max_in legs : ℕ)
    (deadline : Option ℕ) (clock : ℕ → ℕ) (i : ℕ) (cycles : List Cycle) (out : List CycleCandidate)
    → All IsPairSized pools
    → All (IsSimple edges weth legs) cycles
    → All (IsCandidate edges pools weth max_in legs) out
    → (r : List CycleCandidate) × (size_each edges pools max_in deadline clock i cycles out
        ≡ value r)
      × All (IsCandidate edges pools weth max_in legs) r
unfolding size_each
size_each-IsCandidate edges pools weth max_in legs deadline clock i [] out small simple cs =
    (out, refl, cs)
size_each-IsCandidate edges pools weth max_in legs deadline clock i (c ∷ cycles) out small
      (s, simple) cs =
    elim (Bool-cases (is_late deadline (clock i))) [
      | inl late ↦ rw late (out, refl, cs)
      | inr early ↦
          let (next, pushed, cs1) =
            push_sized-IsCandidate edges pools weth max_in legs c
              (optimal_cycle_in c edges pools max_in) out s
              (optimal_cycle_in-IsCycleSized c edges pools max_in small) cs in
          rw (early, pushed)
            (size_each-IsCandidate edges pools weth max_in legs deadline clock (suc i) cycles next
              small simple cs1)
    ]

is_better-sorts : (out : List CycleCandidate) → IsSorted is_better (sort_by is_better out)
unfolding is_better
is_better-sorts out =
    sort_by-IsSorted is_better (λ a b h. ground arith) (λ a b c h k. ground arith) out

-- On pairs with reserves below 2^112 the search ends without a panic, for any budget and clock. It
-- selects at most the pools' cap (two at least), every edge is a direction of a selected pool with
-- reserves, and it gives at most 32 candidates, none before one of a larger profit. Each is a
-- simple cycle from WETH of 2 to `max_len` legs (5 at most) whose amount is at most `max_in` and
-- which returns that amount and the profit it names, which is above zero.
pub search_with-IsCandidate :
    (pools : List V2Pool) (weth : Address) (max_in max_len budget max_pools now : ℕ)
    (clock later : ℕ → ℕ)
    → All IsPairSized pools
    → (selected : List V2Pool) × (edges : List DirectedEdge) × (out : List CycleCandidate)
      × (search_with pools weth max_in max_len budget max_pools now clock later
          ≡ value (selected, (edges, out)))
      × (length selected ≤ max max_pools 2)
      × All (IsDirection selected) edges
      × (length out ≤ max_candidates)
      × IsSorted is_better out
      × All (IsCandidate edges selected weth max_in (leg_bound max_len)) out
unfolding search_with
search_with-IsCandidate pools weth max_in max_len budget max_pools now clock later small =
    let selected = select_pools pools weth (max max_pools 2) in
    let edges = build_edges selected in
    let deadline = checked_add now budget in
    let legs = leg_bound max_len in
    let (cycles, ends, simple, _, _) =
      enumerate_cycles-IsSimple edges weth max_len deadline clock in
    let (out, sized, cs) =
      size_each-IsCandidate edges selected weth max_in legs deadline later 0 cycles []
        (All-select_pools IsPairSized pools weth (max max_pools 2) small) simple tt in
    let ranked = sort_by is_better out in
    let size : length (take max_candidates ranked) ≡ min max_candidates (length ranked) =
      length-take max_candidates ranked in
    (
      selected,
      edges,
      take max_candidates ranked,
      rw (ends, sized) refl,
      length-select_pools pools weth (max max_pools 2),
      build_edges-IsDirection selected,
      omega arith,
      take-IsSorted is_better max_candidates ranked (is_better-sorts out),
      All-take (IsCandidate edges selected weth max_in legs) max_candidates ranked
          (All-sort_by is_better (IsCandidate edges selected weth max_in legs) out cs),
    )
