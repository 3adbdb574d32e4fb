-- ===== src/Graph/Selected.antt =====
-- The pools and the edges of the graph of bot/crates/mev-bot/src/dex/graph.rs.
use arrow_head.Prelude.{
  All-snoc, ℕ, suc, ◌+◌, ◌≤◌, ◌<◌, ◌≡◌, ◌⊎◌, inl, inr, refl, sym, arith, some, ltb, leb, ◌==◌, ◌||◌,
  List, [], ◌∷◌, ◌++◌, length, take, get_elem?, All, min, Bool-cases, length-append, length-take,
  All-take,
}
use arrow_head.Prelude.Sort.{sort_by, All-sort_by}
use arrow_head.Types.{Address}
use arrow_head.Dex.{V2Pool}
use arrow_head.Graph.{
  DirectedEdge, select_pools, filter_weth, fill, is_deeper, has_token, build_edges, edges_from,
  edges_of,
}

module _ {κ} (P : V2Pool → Type κ) where
  All-filter_weth :
      (weth : Address) (pools : List V2Pool) → All P pools → All P (filter_weth weth pools)
  unfolding filter_weth
  All-filter_weth weth [] ps = tt
  All-filter_weth weth (p ∷ pools) (q, ps) = elim (Bool-cases (has_token weth p)) [
    | inl t ↦ rw t (q, All-filter_weth weth pools ps)
    | inr t ↦ rw t (All-filter_weth weth pools ps)
  ]

  All-fill :
      (weth : Address) (limit : ℕ) (pools out : List V2Pool)
      → All P pools
      → All P out
      → All P (fill weth limit pools out)
  unfolding fill
  All-fill weth limit [] out ps os = os
  All-fill weth limit (p ∷ pools) out (q, ps) os = elim (Bool-cases (leb limit (length out))) [
    | inl t ↦ rw t os
    | inr t ↦ rw t (elim (Bool-cases (has_token weth p)) [
      | inl u ↦ rw u (All-fill weth limit pools out ps os)
      | inr u ↦ rw u (All-fill weth limit pools (out ++ (p ∷ [])) ps (All-snoc P out p os q))
    ])
  ]

  -- What is selected are pools that were given.
  pub All-select_pools :
      (pools : List V2Pool) (weth : Address) (limit : ℕ)
      → All P pools
      → All P (select_pools pools weth limit)
  unfolding select_pools
  All-select_pools pools weth limit ps =
      let sorted = sort_by (is_deeper weth) (filter_weth weth pools) in
      let deep : All P (take limit sorted) =
        All-take P limit sorted (
          All-sort_by (is_deeper weth) P (filter_weth weth pools)
            (All-filter_weth weth pools ps)) in
      elim (Bool-cases (leb (length pools) limit)) [
        | inl few ↦ rw few ps
        | inr many ↦ elim (Bool-cases (ltb (length (take limit sorted)) limit)) [
          | inl room ↦ rw (many, room) (All-fill weth limit pools (take limit sorted) ps deep)
          | inr full ↦ rw (many, full) deep
        ]
      ]

length-fill :
    (weth : Address) (limit : ℕ) (pools out : List V2Pool)
    → length out ≤ limit
    → length (fill weth limit pools out) ≤ limit
unfolding fill
length-fill weth limit [] out h = h
length-fill weth limit (p ∷ pools) out h = elim (Bool-cases (leb limit (length out))) [
  | inl t ↦ rw t h
  | inr t ↦ rw t (elim (Bool-cases (has_token weth p)) [
    | inl u ↦ rw u (length-fill weth limit pools out h)
    | inr u ↦
        let size : length (out ++ (p ∷ [])) ≡ length out + 1 = length-append out (p ∷ []) in
        let less : length out < limit = ground arith in
        rw u (length-fill weth limit pools (out ++ (p ∷ [])) (omega arith))
  ])
]

-- No more pools are selected than the limit.
pub length-select_pools :
    (pools : List V2Pool) (weth : Address) (limit : ℕ)
    → length (select_pools pools weth limit) ≤ limit
unfolding select_pools
length-select_pools pools weth limit =
    let sorted = sort_by (is_deeper weth) (filter_weth weth pools) in
    let size : length (take limit sorted) ≡ min limit (length sorted) = length-take limit sorted in
    elim (Bool-cases (leb (length pools) limit)) [
      | inl few ↦ rw few (ground arith)
      | inr many ↦ elim (Bool-cases (ltb (length (take limit sorted)) limit)) [
        | inl room ↦
            rw (many, room) (length-fill weth limit pools (take limit sorted) (omega arith))
        | inr full ↦ rw (many, full) (omega arith)
      ]
    ]

-- An edge is one of the two directions of a pool whose reserves are not empty.
unfoldable pub IsDirection : List V2Pool → DirectedEdge → Type 0
IsDirection pools d =
    (p : V2Pool) × (get_elem? pools d.pool ≡ some p)
    × (0 < p.reserve0)
    × (0 < p.reserve1)
    × (((d.token_in ≡ p.token0) × (d.token_out ≡ p.token1))
        ⊎ ((d.token_in ≡ p.token1) × (d.token_out ≡ p.token0)))

All-append {ℓ κ} :
    {A : Type ℓ} (P : A → Type κ) (xs ys : List A) → All P xs → All P ys → All P (xs ++ ys)
All-append P [] ys ps qs = qs
All-append P (x ∷ xs) ys (p, ps) qs = (p, All-append P xs ys ps qs)

edges_of-IsDirection :
    (pools : List V2Pool) (i : ℕ) (p : V2Pool)
    → get_elem? pools i ≡ some p
    → All (IsDirection pools) (edges_of i p)
unfolding edges_of IsDirection
edges_of-IsDirection pools i p at = elim (Bool-cases (p.reserve0 == 0 || p.reserve1 == 0)) [
  | inl dead ↦ rw dead tt
  | inr live ↦
      let one : 0 < p.reserve0 = ground arith in
      let two : 0 < p.reserve1 = ground arith in
      rw live ((p, at, one, two, inl (refl, refl)), ((p, at, one, two, inr (refl, refl)), tt))
]

edges_from-IsDirection :
    (all : List V2Pool) (i : ℕ) (pools : List V2Pool)
    → ((k : ℕ) → get_elem? pools k ≡ get_elem? all (i + k))
    → All (IsDirection all) (edges_from i pools)
unfolding edges_from
edges_from-IsDirection all i [] same = tt
edges_from-IsDirection all i (p ∷ pools) same =
    let e : i + 0 ≡ i = omega arith in
    let at : get_elem? all i ≡ some p = rw e at (sym (same 0)) in
    All-append (IsDirection all) (edges_of i p) (edges_from (suc i) pools)
      (edges_of-IsDirection all i p at)
      (edges_from-IsDirection all (suc i) pools
        (λ k. let e2 : i + suc k ≡ suc i + k = omega arith in rw e2 at (same (suc k))))

pub build_edges-IsDirection : (pools : List V2Pool) → All (IsDirection pools) (build_edges pools)
unfolding build_edges
build_edges-IsDirection pools =
    edges_from-IsDirection pools 0 pools (λ k. let e : 0 + k ≡ k = omega arith in rw e refl)
