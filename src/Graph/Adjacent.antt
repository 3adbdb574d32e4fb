-- ===== src/Graph/Adjacent.antt =====
-- `adjacency` of bot/crates/mev-bot/src/dex/graph.rs.
use arrow_head.Prelude.{
  All-snoc, ℕ, zero, suc, ◌+◌, ◌<◌, ◌≡◌, inl, inr, refl, ap, sym, ◌∙◌, arith, true, false, Option,
  none, some, ◌==◌, List, [], ◌∷◌, ◌++◌, length, get_elem?, Bool-cases, Option-cases,
}
use arrow_head.Prelude.Sets.{contains, contains-append, ==_refl}
use arrow_head.Types.{Address}
use arrow_head.Graph.{DirectedEdge, edges_at, push_edge, adjacency, adjacency_from}
use arrow_head.Graph.Loops.{Starts, AdjFits}

abbrev or_empty : Option (List ℕ) → List ℕ
or_empty none = []
or_empty (some es) = es

-- An edge is pushed behind those of its token.
edges_at-push_same :
    (t : Address) (i : ℕ) (adj : List (Address × List ℕ))
    → edges_at (push_edge t i adj) t ≡ some (or_empty (edges_at adj t) ++ (i ∷ []))
unfolding edges_at push_edge
edges_at-push_same t i [] = rw (==_refl t) refl
edges_at-push_same t i ((u, es) ∷ adj) = elim (Bool-cases (u == t)) [
  | inl same ↦ rw same (rw same refl)
  | inr other ↦ rw other (rw other (edges_at-push_same t i adj))
]

edges_at-push_other :
    (t u : Address) (i : ℕ) (adj : List (Address × List ℕ))
    → (t == u) ≡ false
    → edges_at (push_edge t i adj) u ≡ edges_at adj u
unfolding edges_at push_edge
edges_at-push_other t u i [] h = rw h refl
edges_at-push_other t u i ((v, es) ∷ adj) h = elim (Bool-cases (v == t)) [
  | inl same ↦ let away : (v == u) ≡ false = ground arith in rw same (rw away refl)
  | inr other ↦ elim (Bool-cases (v == u)) [
    | inl found ↦ rw other (rw found refl)
    | inr away ↦ rw other (rw away (edges_at-push_other t u i adj h))
  ]
]

-- The map lists the edges below `i` at their input token, and no others.
unfoldable ListsBelow : List DirectedEdge → ℕ → List (Address × List ℕ) → Type 0
ListsBelow edges i adj =
    ((t : Address) (es : List ℕ) → edges_at adj t ≡ some es → Starts edges t es)
    × ((e : ℕ) (d : DirectedEdge)
        → e < i
        → get_elem? edges e ≡ some d
        → (es : List ℕ) × (edges_at adj d.token_in ≡ some es)
          × (contains (λ a b. a == b) e es ≡ true))

or_empty-Starts :
    (edges : List DirectedEdge) (t : Address) (adj : List (Address × List ℕ))
    → ((u : Address) (es : List ℕ) → edges_at adj u ≡ some es → Starts edges u es)
    → Starts edges t (or_empty (edges_at adj t))
or_empty-Starts edges t adj h = elim (Option-cases (edges_at adj t)) [
  | inl missing ↦ rw missing tt
  | inr (es, found) ↦ rw found (h t es found)
]

-- The lists of the token that an edge is pushed to.
pushed-lists :
    (edges : List DirectedEdge) (i e : ℕ) (d g : DirectedEdge) (adj : List (Address × List ℕ))
    → get_elem? edges i ≡ some d
    → ListsBelow edges i adj
    → e < suc i
    → get_elem? edges e ≡ some g
    → d.token_in ≡ g.token_in
    → contains (λ a b. a == b) e (or_empty (edges_at adj d.token_in) ++ (i ∷ [])) ≡ true
unfolding ListsBelow
pushed-lists edges i e d g adj at (_, lists) below read same =
    rw (contains-append (λ a b. a == b) e (or_empty (edges_at adj d.token_in)) (i ∷ []))
      (elim (Bool-cases (e == i)) [
        | inl here ↦ rw here (ground arith)
        | inr there ↦
            let (es, found, member) = lists e g (ground arith) read in
            let old : edges_at adj d.token_in ≡ some es = rw same found in rw (old, member) refl
      ])

push_edge-ListsBelow :
    (edges : List DirectedEdge) (i : ℕ) (d : DirectedEdge) (adj : List (Address × List ℕ))
    → get_elem? edges i ≡ some d
    → ListsBelow edges i adj
    → ListsBelow edges (suc i) (push_edge d.token_in i adj)
unfolding ListsBelow
push_edge-ListsBelow edges i d adj at (starts, lists) =
    let pushed = edges_at-push_same d.token_in i adj in
    let longer = or_empty (edges_at adj d.token_in) ++ (i ∷ []) in
    let news : Starts edges d.token_in longer =
      All-snoc (λ e. (g : DirectedEdge) × (get_elem? edges e ≡ some g) × (g.token_in ≡ d.token_in))
        (or_empty (edges_at adj d.token_in)) i (or_empty-Starts edges d.token_in adj starts)
        (d, at, refl) in
    (
      λ t es found. elim (Bool-cases (d.token_in == t)) [
        | inl same ↦
            let here : d.token_in ≡ t = ground arith in
            let moved : edges_at (push_edge d.token_in i adj) d.token_in ≡ some es =
              ap (λ u. edges_at (push_edge d.token_in i adj) u) here ∙ found in
            let all : longer ≡ es = cc in rw (sym here, sym all) news
        | inr other ↦ starts t es (sym (edges_at-push_other d.token_in t i adj other) ∙ found)
      ],
      λ e g below read. elim (Bool-cases (d.token_in == g.token_in)) [
        | inl same ↦
            let here : d.token_in ≡ g.token_in = ground arith in
            (
              longer,
              rw (sym here) pushed,
              pushed-lists edges i e d g adj at (starts, lists) below read here,
            )
        | inr other ↦ elim (Bool-cases (e == i)) [
          | inl last ↦
              let here : e ≡ i = ground arith in
              let twin : g ≡ d = cc in
              let clash : (d.token_in == d.token_in) ≡ false = rw twin at other in
              let fine = ==_refl d.token_in in cc
          | inr before ↦
              let (es, found, member) = lists e g (ground arith) read in
              (es, edges_at-push_other d.token_in g.token_in i adj other ∙ found, member)
        ]
      ],
    )

adjacency_from-ListsBelow :
    (edges : List DirectedEdge) (i : ℕ) (rest : List DirectedEdge) (adj : List (Address × List ℕ))
    → ((k : ℕ) → get_elem? rest k ≡ get_elem? edges (i + k))
    → ListsBelow edges i adj
    → ListsBelow edges (i + length rest) (adjacency_from i rest adj)
unfolding adjacency_from
adjacency_from-ListsBelow edges i [] adj same below = let e : i + 0 ≡ i = omega arith in rw e below
adjacency_from-ListsBelow edges i (d ∷ rest) adj same below =
    let at : get_elem? edges i ≡ some d =
      let e : i + 0 ≡ i = omega arith in rw e at (sym (same 0)) in
    let e1 : i + suc (length rest) ≡ suc i + length rest = omega arith in
    rw e1 (
      adjacency_from-ListsBelow edges (suc i) rest (push_edge d.token_in i adj)
        (λ k. let e2 : i + suc k ≡ suc i + k = omega arith in rw e2 at (same (suc k)))
        (push_edge-ListsBelow edges i d adj at below))

get_elem?-lt {ℓ} :
    {A : Type ℓ} (xs : List A) (i : ℕ) (x : A) → get_elem? xs i ≡ some x → i < length xs
get_elem?-lt [] i x h = cc
get_elem?-lt (y ∷ xs) zero x h = omega arith
get_elem?-lt (y ∷ xs) (suc i) x h = omega (arith, get_elem?-lt xs i x h)

-- The adjacency map of the edges lists them all.
pub adjacency-AdjFits : (edges : List DirectedEdge) → AdjFits edges (adjacency edges)
unfolding adjacency AdjFits edges_at ListsBelow
adjacency-AdjFits edges =
    let none_yet : ListsBelow edges 0 [] = (λ t es found. cc, λ e d below read. ground arith) in
    let size : 0 + length edges ≡ length edges = omega arith in
    let (starts, lists) : ListsBelow edges (length edges) (adjacency_from 0 edges []) = rw size at (
      adjacency_from-ListsBelow edges 0 edges [] (λ k. let e : 0 + k ≡ k = omega arith in rw e refl)
        none_yet) in
    (starts, λ e d read. lists e d (get_elem?-lt edges e d read) read)
