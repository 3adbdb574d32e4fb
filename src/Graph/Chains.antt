-- ===== src/Graph/Chains.antt =====
-- Walks on the edges of bot/crates/mev-bot/src/dex/graph.rs, as lists of edges.
use arrow_head.Prelude.{
  ℕ, suc, ◌≤◌, ◌≡◌, refl, ap, arith, true, some, ◌==◌, List, [], ◌∷◌, ◌++◌, length, get_elem?,
}
use arrow_head.Prelude.Sets.{contains, Distinct}
use arrow_head.Types.{Address}
use arrow_head.Graph.{DirectedEdge, Cycle}

-- The edges at these indices.
abbrev pub Reads : List DirectedEdge → List ℕ → List DirectedEdge → Type 0
Reads edges [] [] = Unit {0}
Reads edges [] (d ∷ ds) = ⊥
Reads edges (e ∷ es) [] = ⊥
Reads edges (e ∷ es) (d ∷ ds) = (get_elem? edges e ≡ some d) × Reads edges es ds

-- Each edge takes the token that the one before it gives.
abbrev pub Chain : Address → List DirectedEdge → Address → Type 0
Chain a [] b = a ≡ b
Chain a (d ∷ ds) b = (d.token_in ≡ a) × Chain d.token_out ds b

abbrev pub pools_of : List DirectedEdge → List ℕ
pools_of [] = []
pools_of (d ∷ ds) = d.pool ∷ pools_of ds

abbrev pub outs_of : List DirectedEdge → List Address
outs_of [] = []
outs_of (d ∷ ds) = d.token_out ∷ outs_of ds

abbrev pub DistinctPools : List DirectedEdge → Type 0
DistinctPools ds = Distinct (λ a b. a == b) (pools_of ds)

abbrev pub DistinctOuts : List DirectedEdge → Type 0
DistinctOuts ds = Distinct (λ a b. a == b) (outs_of ds)

-- A closed walk over edges of the list, of two legs at least, that uses no pool twice and comes to
-- no token twice.
unfoldable pub IsSimple : List DirectedEdge → Address → ℕ → Cycle → Type 0
IsSimple edges anchor max_len cycle =
    (cycle.anchor ≡ anchor)
    × (2 ≤ length cycle.edges)
    × (length cycle.edges ≤ max_len)
    × ((ds : List DirectedEdge) × Reads edges cycle.edges ds
        × Chain anchor ds anchor
        × DistinctPools ds
        × DistinctOuts ds)

pub Reads-append :
    (edges : List DirectedEdge) (es fs : List ℕ) (ds gs : List DirectedEdge)
    → Reads edges es ds
    → Reads edges fs gs
    → Reads edges (es ++ fs) (ds ++ gs)
Reads-append edges [] fs [] gs r s = s
Reads-append edges [] fs (d ∷ ds) gs r s = elim r [ ]
Reads-append edges (e ∷ es) fs [] gs r s = elim r [ ]
Reads-append edges (e ∷ es) fs (d ∷ ds) gs (h, r) s = (h, Reads-append edges es fs ds gs r s)

pub length-Reads :
    (edges : List DirectedEdge) (es : List ℕ) (ds : List DirectedEdge)
    → Reads edges es ds
    → length es ≡ length ds
length-Reads edges [] [] r = refl
length-Reads edges [] (d ∷ ds) r = elim r [ ]
length-Reads edges (e ∷ es) [] r = elim r [ ]
length-Reads edges (e ∷ es) (d ∷ ds) (_, r) = ap suc (length-Reads edges es ds r)

pub Chain-append :
    (a b c : Address) (ds gs : List DirectedEdge)
    → Chain a ds b
    → Chain b gs c
    → Chain a (ds ++ gs) c
Chain-append a b c [] gs h k = rw h k
Chain-append a b c (d ∷ ds) gs (e, h) k = (e, Chain-append d.token_out b c ds gs h k)

pub pools_of-append : (ds gs : List DirectedEdge) → pools_of (ds ++ gs) ≡ pools_of ds ++ pools_of gs
pools_of-append [] gs = refl
pools_of-append (d ∷ ds) gs = ap (λ ps. d.pool ∷ ps) (pools_of-append ds gs)

pub outs_of-append : (ds gs : List DirectedEdge) → outs_of (ds ++ gs) ≡ outs_of ds ++ outs_of gs
outs_of-append [] gs = refl
outs_of-append (d ∷ ds) gs = ap (λ ts. d.token_out ∷ ts) (outs_of-append ds gs)

-- A walk of one leg at least comes to its end.
pub contains-outs_of :
    (a b : Address) (d : DirectedEdge) (ds : List DirectedEdge)
    → Chain a (d ∷ ds) b
    → contains (λ x y. x == y) b (outs_of (d ∷ ds)) ≡ true
contains-outs_of a b d [] (_, e) = ground arith
contains-outs_of a b d (g ∷ ds) (_, h) = rw (contains-outs_of d.token_out b g ds h) (ground arith)
