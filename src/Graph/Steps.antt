-- ===== src/Graph/Steps.antt =====
-- What one candidate edge of `walk` of bot/crates/mev-bot/src/dex/graph.rs does to its state.
use arrow_head.Prelude.{
  ℕ, suc, ◌+◌, ◌≤◌, ◌≡◌, refl, ap, ◌∙◌, arith, true, some, ◌==◌, List, [], ◌∷◌, ◌++◌, length,
  get_elem?, All, max,
}
use arrow_head.Prelude.Sets.{contains, Distinct, eq_list}
use arrow_head.Types.{Address}
use arrow_head.Graph.{DirectedEdge, Cycle, max_raw_cycles}
use arrow_head.Graph.Enumerate.{Query, Traversal, key_of, pop}
use arrow_head.Graph.Chains.{Reads, Chain, pools_of, outs_of, IsSimple, DistinctPools, DistinctOuts}

-- The keys of the cycles that were found.
abbrev pub keys_of : List Cycle → List (List ℕ)
keys_of [] = []
keys_of (c ∷ cs) = key_of c.edges ∷ keys_of cs

-- The cycles that a state holds: simple ones, each edge set once, and all are in `seen`.
unfoldable pub IsSound : Query → Traversal → Type 0
IsSound q s =
    (s.seen ≡ keys_of s.out)
    × Distinct eq_list s.seen
    × All (IsSimple q.edges q.anchor q.max_len) s.out

-- The state is at `current`, which the edges `ds` of its path lead to from the anchor.
unfoldable pub IsAt : Query → List DirectedEdge → Address → Traversal → Type 0
IsAt q ds current s =
    Reads q.edges s.path ds
    × Chain q.anchor ds current
    × (s.used_pools ≡ pools_of ds)
    × (s.visited ≡ q.anchor ∷ outs_of ds)
    × DistinctPools ds
    × Distinct (λ a b. a == b) (q.anchor ∷ outs_of ds)

-- The cycles that a walk behind a path of `n` legs may leave.
abbrev pub IsCapped : Query → ℕ → Traversal → Type 0
IsCapped q n s = length s.out + max (suc n) 2 ≤ max_raw_cycles + q.max_len

-- What a step leaves as it was, and that no cycle is lost.
unfoldable pub IsKept : Traversal → Traversal → Type 0
IsKept s t =
    (t.path ≡ s.path)
    × (t.visited ≡ s.visited)
    × (t.used_pools ≡ s.used_pools)
    × (length s.out ≤ length t.out)
    × ((k : List ℕ) → contains eq_list k s.seen ≡ true → contains eq_list k t.seen ≡ true)

pub IsKept-refl : (s : Traversal) → IsKept s s
unfolding IsKept
IsKept-refl s = (refl, refl, refl, omega arith, λ k h. h)

pub IsKept-trans : (s t u : Traversal) → IsKept s t → IsKept t u → IsKept s u
unfolding IsKept
IsKept-trans s t u (a, b, c, d, e) (a1, b1, c1, d1, e1) =
    (a1 ∙ a, b1 ∙ b, c1 ∙ c, omega arith, λ k h. e1 k (e k h))

pub IsAt-kept :
    (q : Query) (ds : List DirectedEdge) (current : Address) (s t : Traversal)
    → IsKept s t
    → IsAt q ds current s
    → IsAt q ds current t
unfolding IsKept IsAt
IsAt-kept q ds current s t (a, b, c, _, _) (r, ch, u, v, dp, dt) =
    (rw a r, ch, c ∙ u, b ∙ v, dp, dt)

-- A simple cycle that goes on from `current` with the edge `d` at `e`, and then `ds'`.
unfoldable pub GoesOn :
    Query → List DirectedEdge → Address → ℕ → List ℕ → DirectedEdge → List DirectedEdge → Type 0
GoesOn q ds current e es d gs =
    (get_elem? q.edges e ≡ some d)
    × (d.token_in ≡ current)
    × Reads q.edges es gs
    × Chain d.token_out gs q.anchor
    × DistinctPools (ds ++ (d ∷ gs))
    × DistinctOuts (ds ++ (d ∷ gs))
    × (2 ≤ length ds + suc (length gs))
    × (length ds + suc (length gs) ≤ q.max_len)

-- Every simple cycle that goes on with one of the candidates is seen.
unfoldable pub Covers : Query → List DirectedEdge → Address → List ℕ → List ℕ → Traversal → Type 0
Covers q ds current path candidates t =
    (e : ℕ) (es : List ℕ) (d : DirectedEdge) (gs : List DirectedEdge)
    → contains (λ a b. a == b) e candidates ≡ true
    → GoesOn q ds current e es d gs
    → contains eq_list (key_of (path ++ (e ∷ es))) t.seen ≡ true

abbrev pub IsFull : Traversal → Type 0
IsFull t = max_raw_cycles ≤ length t.out

pub pop-snoc : (path : List ℕ) (e : ℕ) → pop (path ++ (e ∷ [])) ≡ path
unfolding pop
pop-snoc [] e = refl
pop-snoc (x ∷ []) e = refl
pop-snoc (x ∷ (y ∷ path)) e = ap (λ p. x ∷ p) (pop-snoc (y ∷ path) e)

pub keys_of-snoc :
    (cs : List Cycle) (c : Cycle) → keys_of (cs ++ (c ∷ [])) ≡ keys_of cs ++ (key_of c.edges ∷ [])
keys_of-snoc [] c = refl
keys_of-snoc (x ∷ cs) c = ap (λ ks. key_of x.edges ∷ ks) (keys_of-snoc cs c)
