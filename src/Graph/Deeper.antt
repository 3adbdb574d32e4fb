-- ===== src/Graph/Deeper.antt =====
-- The candidate edges of `walk` of bot/crates/mev-bot/src/dex/graph.rs that it walks on.
use arrow_head.Prelude.{
  ℕ, suc, ◌+◌, ◌≤◌, ◌≡◌, ◌≢◌, ◌⊎◌, refl, ap, ◌∙◌, arith, true, false, none, some, ◌==◌, List, [],
  ◌∷◌, ◌++◌, length, get_elem?, length-append,
}
use mathlib.Core.List.{append_assoc}
use arrow_head.Prelude.Outcome.{Outcome, value}
use arrow_head.Prelude.Sets.{
  contains, remove, eq_list, ==_refl, ==_sym, remove-insert, Distinct-snoc,
}
use arrow_head.Types.{Address}
use arrow_head.Graph.{DirectedEdge}
use arrow_head.Graph.Enumerate.{Query, Traversal, key_of, pop, push_leg, pop_leg}
use arrow_head.Graph.Chains.{
  pools_of, outs_of, Reads-append, Chain-append, pools_of-append, outs_of-append,
}
use arrow_head.Graph.Steps.{IsSound, IsAt, IsCapped, IsKept, GoesOn, Covers, IsFull, pop-snoc}

-- Every simple cycle that goes on from `current` is seen.
unfoldable pub CoversAll : Query → List DirectedEdge → Address → List ℕ → Traversal → Type 0
CoversAll q ds current path t =
    (e : ℕ) (es : List ℕ) (d : DirectedEdge) (gs : List DirectedEdge)
    → GoesOn q ds current e es d gs
    → contains eq_list (key_of (path ++ (e ∷ es))) t.seen ≡ true

-- A walk from `current` returns, with what it promises.
unfoldable pub IsWalked :
    Query → List DirectedEdge → Address → Traversal → Outcome Traversal → Type 0
IsWalked q ds current s o =
    (t : Traversal) × (o ≡ value t)
    × IsKept s t
    × IsSound q t
    × IsCapped q (length ds) t
    × (q.deadline ≡ none → IsFull t ⊎ CoversAll q ds current s.path t)

-- A function that walks on behind paths of `n` legs.
unfoldable pub Walks : Query → ℕ → (Address → Traversal → Outcome Traversal) → Type 0
Walks q n next =
    (ds : List DirectedEdge) (current : Address) (s : Traversal)
    → length ds ≡ n
    → suc n ≤ q.max_len
    → IsAt q ds current s
    → IsSound q s
    → IsCapped q n s
    → IsWalked q ds current s (next current s)

pub push_leg-IsAt :
    (q : Query) (ds : List DirectedEdge) (current : Address) (e : ℕ) (d : DirectedEdge)
    (s : Traversal)
    → IsAt q ds current s
    → get_elem? q.edges e ≡ some d
    → d.token_in ≡ current
    → contains (λ a b. a == b) d.pool s.used_pools ≡ false
    → contains (λ a b. a == b) d.token_out s.visited ≡ false
    → IsAt q (ds ++ (d ∷ [])) d.token_out (push_leg e d s)
unfolding IsAt push_leg
push_leg-IsAt q ds current e d s (r, ch, u, v, dp, dt) at from unused new =
    let free : contains (λ a b. a == b) d.pool (pools_of ds) ≡ false = rw u at unused in
    let away : contains (λ a b. a == b) d.token_out (q.anchor ∷ outs_of ds) ≡ false = rw v at new in
    (
      Reads-append q.edges s.path (e ∷ []) ds (d ∷ []) r (at, tt),
      Chain-append q.anchor current d.token_out ds (d ∷ []) ch (from, refl),
      rw (unused, pools_of-append ds (d ∷ [])) (ap (λ ps. ps ++ (d.pool ∷ [])) u),
      rw (new, outs_of-append ds (d ∷ [])) (ap (λ ts. ts ++ (d.token_out ∷ [])) v),
      rw (pools_of-append ds (d ∷ []))
          (Distinct-snoc (λ a b. a == b) ==_sym (pools_of ds) d.pool dp free),
      rw (outs_of-append ds (d ∷ []))
          (Distinct-snoc (λ a b. a == b) ==_sym (q.anchor ∷ outs_of ds) d.token_out dt away),
    )

-- Popping the leg behind a walk restores the state.
pub pop_leg-IsKept :
    (e : ℕ) (d : DirectedEdge) (s t : Traversal)
    → contains (λ a b. a == b) d.pool s.used_pools ≡ false
    → contains (λ a b. a == b) d.token_out s.visited ≡ false
    → IsKept (push_leg e d s) t
    → IsKept s (pop_leg d t)
unfolding IsKept push_leg pop_leg
pop_leg-IsKept e d s t unused new (a, b, c, size, seen) = (
  ap pop a ∙ pop-snoc s.path e,
  ap (remove (λ a b. a == b) d.token_out) b
      ∙ remove-insert (λ a b. a == b) d.token_out s.visited (==_refl d.token_out) new,
  ap (remove (λ a b. a == b) d.pool) c
      ∙ remove-insert (λ a b. a == b) d.pool s.used_pools (==_refl d.pool) unused,
  size,
  seen,
)

-- A cycle that goes on with an edge that does not close it goes on behind that edge.
pub GoesOn-after :
    (q : Query) (ds : List DirectedEdge) (current : Address) (e : ℕ) (es : List ℕ)
    (d : DirectedEdge) (gs : List DirectedEdge)
    → GoesOn q ds current e es d gs
    → d.token_out ≢ q.anchor
    → (f : ℕ) × (fs : List ℕ) × (g : DirectedEdge) × (hs : List DirectedEdge) × (es ≡ f ∷ fs)
      × GoesOn q (ds ++ (d ∷ [])) d.token_out f fs g hs
unfolding GoesOn
GoesOn-after q ds current e [] d [] h apart = elim (apart h.3) [ ]
GoesOn-after q ds current e (x ∷ es) d [] h apart = elim h.2 [ ]
GoesOn-after q ds current e [] d (g ∷ gs) h apart = elim h.2 [ ]
GoesOn-after q ds current e (x ∷ es) d (g ∷ gs) h apart =
    let (_, _, (at, r), (from, ch), pools, outs, two, most) = h in
    let size : length (ds ++ (d ∷ [])) ≡ length ds + 1 = length-append ds (d ∷ []) in
    (
      x,
      es,
      g,
      gs,
      refl,
      (
        at,
        from,
        r,
        ch,
        rw (append_assoc ds (d ∷ []) (g ∷ gs)) pools,
        rw (append_assoc ds (d ∷ []) (g ∷ gs)) outs,
        omega arith,
        omega arith,
      ),
    )

pub deeper-Covers :
    (q : Query) (ds : List DirectedEdge) (current : Address) (e : ℕ) (d : DirectedEdge)
    (path : List ℕ) (t : Traversal)
    → get_elem? q.edges e ≡ some d
    → d.token_out ≢ q.anchor
    → CoversAll q (ds ++ (d ∷ [])) d.token_out (path ++ (e ∷ [])) t
    → Covers q ds current path (e ∷ []) (pop_leg d t)
unfolding Covers CoversAll pop_leg
deeper-Covers q ds current e d path t at apart all = λ x es g gs here h.
    let same : x ≡ e = ground arith in
    let read : get_elem? q.edges x ≡ some g = unfold GoesOn in h.0 in
    let shape : g ≡ d = cc in
    let (f, fs, g1, hs, split, on) = GoesOn-after q ds current x es g gs h (rw shape apart) in
    let seen = all f fs g1 hs (rw shape at on) in
    rw (same, split) (rw (append_assoc path (e ∷ []) (f ∷ fs)) at seen)
