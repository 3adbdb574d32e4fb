-- ===== src/Graph/Closing.antt =====
-- The closing edges of `walk` of bot/crates/mev-bot/src/dex/graph.rs.
use arrow_head.Prelude.{
  All-snoc, ℕ, suc, ◌+◌, ◌≤◌, ◌≡◌, ◌⊎◌, inl, inr, refl, ap, ◌∙◌, arith, Bool, true, false, none,
  some, ◌==◌, leb, List, [], ◌∷◌, ◌++◌, length, get_elem?, Bool-cases, length-append,
}
use arrow_head.Prelude.Sets.{
  contains, Distinct, eq_list, eq_list_sym, eq_list_refl, contains-append, Distinct-snoc,
  Distinct-after,
}
use arrow_head.Types.{Address}
use arrow_head.Graph.{DirectedEdge, Cycle, max_raw_cycles}
use arrow_head.Graph.Enumerate.{Query, Traversal, key_of, close_cycle}
use arrow_head.Graph.Chains.{
  Chain, pools_of, outs_of, IsSimple, DistinctPools, DistinctOuts, Reads-append, Chain-append,
  length-Reads, pools_of-append, outs_of-append, contains-outs_of,
}
use arrow_head.Graph.Steps.{
  IsSound, IsAt, IsCapped, IsKept, IsKept-refl, GoesOn, Covers, IsFull, keys_of-snoc,
}

-- What a candidate edge leaves, and whether it ends the walk.
unfoldable pub IsTried :
    Query → List DirectedEdge → Address → ℕ → Traversal → Bool × Traversal → Type 0
IsTried q ds current e s (over, t) =
    IsKept s t
    × IsSound q t
    × (over ≡ false → IsCapped q (suc (length ds)) t)
    × (over ≡ true → IsCapped q (length ds) t)
    × (over ≡ true → IsFull t)
    × (q.deadline ≡ none → IsFull t ⊎ Covers q ds current s.path (e ∷ []) t)

-- The cycle of a closing edge.
closed-IsSimple :
    (q : Query) (ds : List DirectedEdge) (current : Address) (e : ℕ) (d : DirectedEdge)
    (s : Traversal)
    → IsAt q ds current s
    → get_elem? q.edges e ≡ some d
    → d.token_in ≡ current
    → d.token_out ≡ q.anchor
    → contains (λ a b. a == b) d.pool s.used_pools ≡ false
    → 2 ≤ suc (length s.path)
    → suc (length s.path) ≤ q.max_len
    → IsSimple q.edges q.anchor q.max_len (record { edges = s.path ++ (e ∷ []); anchor = q.anchor })
unfolding IsAt IsSimple
closed-IsSimple q ds current e d s (r, ch, u, v, dp, (fresh, dt)) at from to unused two most =
    let size : length (s.path ++ (e ∷ [])) ≡ length s.path + 1 = length-append s.path (e ∷ []) in
    let free : contains (λ a b. a == b) d.pool (pools_of ds) ≡ false = rw u at unused in
    let pools : DistinctPools (ds ++ (d ∷ [])) =
      rw (pools_of-append ds (d ∷ []))
        (Distinct-snoc (λ a b. a == b) (λ a b h. ground arith) (pools_of ds) d.pool dp free) in
    let outs : DistinctOuts (ds ++ (d ∷ [])) =
      rw (outs_of-append ds (d ∷ []), to)
        (Distinct-snoc (λ a b. a == b) (λ a b h. ground arith) (outs_of ds) q.anchor dt fresh) in
    let walked : Chain q.anchor (ds ++ (d ∷ [])) q.anchor =
      Chain-append q.anchor current q.anchor ds (d ∷ []) ch (from, to) in
    (
      refl,
      omega arith,
      omega arith,
      (
        ds ++ (d ∷ []),
        Reads-append q.edges s.path (e ∷ []) ds (d ∷ []) r (at, tt),
        walked,
        pools,
        outs,
      ),
    )

-- A cycle that goes on with a closing edge ends there.
pub closing-last :
    (q : Query) (ds : List DirectedEdge) (current : Address) (e : ℕ) (es : List ℕ)
    (d : DirectedEdge) (gs : List DirectedEdge)
    → GoesOn q ds current e es d gs
    → d.token_out ≡ q.anchor
    → (es ≡ []) × (2 ≤ suc (length ds))
unfolding GoesOn
closing-last q ds current e [] d [] h to = (refl, omega (arith, h.6))
closing-last q ds current e (x ∷ es) d [] h to = elim h.2 [ ]
closing-last q ds current e [] d (g ∷ gs) h to = elim h.2 [ ]
closing-last q ds current e (x ∷ es) d (g ∷ gs) (_, _, _, ch, _, outs, _, _) to =
    let (fresh, _) : Distinct (λ a b. a == b) (outs_of (d ∷ (g ∷ gs))) =
      Distinct-after (λ a b. a == b) (outs_of ds) (outs_of (d ∷ (g ∷ gs)))
        (rw (outs_of-append ds (d ∷ (g ∷ gs))) at outs) in
    let come : contains (λ x y. x == y) q.anchor (outs_of (g ∷ gs)) ≡ true =
      contains-outs_of d.token_out q.anchor g gs ch in
    cc

-- Where the closed cycle is seen, the candidate is dealt with.
closed-Covers :
    (q : Query) (ds : List DirectedEdge) (current : Address) (e : ℕ) (d : DirectedEdge)
    (path : List ℕ) (t : Traversal)
    → get_elem? q.edges e ≡ some d
    → d.token_out ≡ q.anchor
    → (2 ≤ suc (length ds) → contains eq_list (key_of (path ++ (e ∷ []))) t.seen ≡ true)
    → Covers q ds current path (e ∷ []) t
unfolding Covers
closed-Covers q ds current e d path t at to seen = λ x es g gs here h.
    let same : x ≡ e = ground arith in
    let read : get_elem? q.edges x ≡ some g = unfold GoesOn in h.0 in
    let shape : g ≡ d = cc in
    let (last, two) = closing-last q ds current x es g gs h (ap (λ c. c.token_out) shape ∙ to) in
    rw (last, same) (seen two)

-- A candidate that is passed over, where no cycle goes on with it but those that are seen.
pub passed-IsTried :
    (q : Query) (ds : List DirectedEdge) (current : Address) (e : ℕ) (s : Traversal)
    → IsSound q s
    → IsCapped q (suc (length ds)) s
    → Covers q ds current s.path (e ∷ []) s
    → IsTried q ds current e s (false, s)
unfolding IsTried
passed-IsTried q ds current e s sound capped covers =
    (IsKept-refl s, sound, λ h. capped, λ h. cc, λ h. cc, λ h. inr covers)

-- A new cycle is stored.
found-IsTried :
    (q : Query) (ds : List DirectedEdge) (current : Address) (e : ℕ) (d : DirectedEdge)
    (s : Traversal)
    → IsSound q s
    → IsCapped q (suc (length ds)) s
    → suc (length ds) ≤ q.max_len
    → 2 ≤ suc (length ds)
    → get_elem? q.edges e ≡ some d
    → d.token_out ≡ q.anchor
    → contains eq_list (key_of (s.path ++ (e ∷ []))) s.seen ≡ false
    → IsSimple q.edges q.anchor q.max_len (record { edges = s.path ++ (e ∷ []); anchor = q.anchor })
    → IsTried q ds current e s (
      leb max_raw_cycles
          (length (s.out ++ (record { edges = s.path ++ (e ∷ []); anchor = q.anchor } ∷ []))),
      record s {
        seen = s.seen ++ (key_of (s.path ++ (e ∷ [])) ∷ []);
        out = s.out ++ (record { edges = s.path ++ (e ∷ []); anchor = q.anchor } ∷ []);
      },
    )
unfolding IsTried IsSound IsKept
found-IsTried q ds current e d s (keys, once, all) capped most two at to new simple =
    let c : Cycle = record { edges = s.path ++ (e ∷ []); anchor = q.anchor } in
    let key = key_of c.edges in
    let size : length (s.out ++ (c ∷ [])) ≡ length s.out + 1 = length-append s.out (c ∷ []) in
    let t : Traversal = record s { seen = s.seen ++ (key ∷ []); out = s.out ++ (c ∷ []) } in
    let seen : contains eq_list key (s.seen ++ (key ∷ [])) ≡ true =
      rw (contains-append eq_list key s.seen (key ∷ []), new, eq_list_refl key) refl in
    (
      (
        refl,
        refl,
        refl,
        omega arith,
        λ k h. rw (contains-append eq_list k s.seen (key ∷ []), h) refl,
      ),
      (
        rw (keys_of-snoc s.out c) (ap (λ ks. ks ++ (key ∷ [])) keys),
        Distinct-snoc eq_list eq_list_sym s.seen key once new,
        All-snoc (IsSimple q.edges q.anchor q.max_len) s.out c all simple,
      ),
      λ h. ground arith,
      λ h. ground arith,
      λ h. ground arith,
      λ h. inr (closed-Covers q ds current e d s.path t at to (λ _. seen)),
    )

-- A closing edge keeps the state sound, and its cycle is seen.
pub close_cycle-IsTried :
    (q : Query) (ds : List DirectedEdge) (current : Address) (e : ℕ) (d : DirectedEdge)
    (s : Traversal)
    → IsAt q ds current s
    → IsSound q s
    → IsCapped q (suc (length ds)) s
    → suc (length ds) ≤ q.max_len
    → get_elem? q.edges e ≡ some d
    → d.token_in ≡ current
    → d.token_out ≡ q.anchor
    → contains (λ a b. a == b) d.pool s.used_pools ≡ false
    → IsTried q ds current e s (close_cycle q e s)
unfolding close_cycle
close_cycle-IsTried q ds current e d s here sound capped most at from to unused =
    let edges = s.path ++ (e ∷ []) in
    let long : length s.path ≡ length ds = length-Reads q.edges s.path ds (unfold IsAt in here.0) in
    elim (Bool-cases (leb 2 (suc (length s.path)))) [
      | inr short ↦ rw short (
          passed-IsTried q ds current e s sound capped
            (closed-Covers q ds current e d s.path s at to (λ two. ground arith)))
      | inl enough ↦ elim (Bool-cases (contains eq_list (key_of edges) s.seen)) [
        | inl old ↦
            rw (enough, old)
              (passed-IsTried q ds current e s sound capped
                (closed-Covers q ds current e d s.path s at to (λ two. old)))
        | inr new ↦
            let simple =
              closed-IsSimple q ds current e d s here at from to unused (ground arith)
                (omega arith) in
            rw (enough, new)
              (found-IsTried q ds current e d s sound capped most (ground arith) at to new simple)
      ]
    ]
