-- ===== src/Graph/Tries.antt =====
-- What the loop of `walk` of bot/crates/mev-bot/src/dex/graph.rs does with a candidate edge.
use arrow_head.Prelude.{
  ℕ, suc, ◌+◌, ◌≤◌, ◌≡◌, ◌≢◌, inl, inr, refl, ap, sym, ◌∙◌, arith, Bool, true, false, some, ◌==◌,
  ◌||◌, leb, List, [], ◌∷◌, ◌++◌, length, get_elem?, Bool-cases, length-append,
}
use arrow_head.Prelude.Outcome.{Outcome, value, ◌>>=◌}
use arrow_head.Prelude.Sets.{contains, ==_sym, Distinct-before}
use arrow_head.Types.{Address}
use arrow_head.Graph.{DirectedEdge}
use arrow_head.Graph.Enumerate.{Query, Traversal, push_leg, pop_leg, try_edge, close_cycle}
use arrow_head.Graph.Chains.{
  pools_of, outs_of, length-Reads, pools_of-append, outs_of-append, DistinctPools, DistinctOuts,
}
use arrow_head.Graph.Steps.{IsSound, IsAt, IsCapped, GoesOn, Covers}
use arrow_head.Graph.Closing.{IsTried, passed-IsTried, close_cycle-IsTried}
use arrow_head.Graph.Deeper.{
  Walks, IsWalked, push_leg-IsAt, pop_leg-IsKept, GoesOn-after, deeper-Covers,
}

-- A pool that is used is in no cycle that goes on, and neither is a token that was visited.
used-Covers :
    (q : Query) (ds : List DirectedEdge) (current : Address) (e : ℕ) (d : DirectedEdge)
    (s : Traversal)
    → IsAt q ds current s
    → get_elem? q.edges e ≡ some d
    → contains (λ a b. a == b) d.pool s.used_pools ≡ true
    → Covers q ds current s.path (e ∷ []) s
unfolding Covers IsAt
used-Covers q ds current e d s (_, _, u, _, _, _) at used = λ x es g gs here h.
    let same : x ≡ e = ground arith in
    let read : get_elem? q.edges x ≡ some g = unfold GoesOn in h.0 in
    let pools : DistinctPools (ds ++ (g ∷ gs)) = unfold GoesOn in h.4 in
    let shape : g ≡ d = cc in
    let free : contains (λ a b. a == b) g.pool (pools_of ds) ≡ false =
      Distinct-before (λ a b. a == b) ==_sym (pools_of ds) (pools_of gs) g.pool
        (rw (pools_of-append ds (g ∷ gs)) at pools) in
    let taken : contains (λ a b. a == b) g.pool (pools_of ds) ≡ true = rw (shape, sym u) used in cc

-- A walk that is at its longest, or has visited the next token, has no cycle that goes on there.
left-Covers :
    (q : Query) (ds : List DirectedEdge) (current : Address) (e : ℕ) (d : DirectedEdge)
    (s : Traversal)
    → IsAt q ds current s
    → get_elem? q.edges e ≡ some d
    → (d.token_out == q.anchor) ≡ false
    → (leb q.max_len (suc (length s.path)) || contains (λ a b. a == b) d.token_out s.visited) ≡ true
    → Covers q ds current s.path (e ∷ []) s
unfolding Covers IsAt
left-Covers q ds current e d s (r, _, _, v, _, _) at apart over = λ x es g gs here h.
    let same : x ≡ e = ground arith in
    let read : get_elem? q.edges x ≡ some g = unfold GoesOn in h.0 in
    let shape : g ≡ d = cc in
    let long : length s.path ≡ length ds = length-Reads q.edges s.path ds r in
    let away : g.token_out ≢ q.anchor = λ k. ground (arith, ap (λ y. y.token_out) shape) in
    let (f, fs, g1, hs, split, on) = GoesOn-after q ds current x es g gs h away in
    let room : length (ds ++ (g ∷ [])) + suc (length hs) ≤ q.max_len = unfold GoesOn in on.7 in
    let size : length (ds ++ (g ∷ [])) ≡ length ds + 1 = length-append ds (g ∷ []) in
    let outs : DistinctOuts (ds ++ (g ∷ gs)) = unfold GoesOn in h.5 in
    let free : contains (λ a b. a == b) g.token_out (outs_of ds) ≡ false =
      Distinct-before (λ a b. a == b) ==_sym (outs_of ds) (outs_of gs) g.token_out
        (rw (outs_of-append ds (g ∷ gs)) at outs) in
    let short : leb q.max_len (suc (length s.path)) ≡ false = ground arith in
    let visited : contains (λ a b. a == b) d.token_out (q.anchor ∷ outs_of ds) ≡ true =
      rw (short, v) at over in
    let taken : contains (λ a b. a == b) d.token_out (outs_of ds) ≡ true = rw apart at visited in
    let clash : contains (λ a b. a == b) d.token_out (outs_of ds) ≡ false = rw shape at free in cc

deeper-IsTried :
    (q : Query) (ds : List DirectedEdge) (current : Address) (e : ℕ) (d : DirectedEdge)
    (s : Traversal) (o : Outcome Traversal)
    → get_elem? q.edges e ≡ some d
    → d.token_out ≢ q.anchor
    → contains (λ a b. a == b) d.pool s.used_pools ≡ false
    → contains (λ a b. a == b) d.token_out s.visited ≡ false
    → IsWalked q (ds ++ (d ∷ [])) d.token_out (push_leg e d s) o
    → (r : Bool × Traversal) × ((o >>= λ t. value (false, pop_leg d t)) ≡ value r)
      × IsTried q ds current e s r
unfolding IsWalked IsTried
deeper-IsTried q ds current e d s o at apart unused new (t, ends, kept, sound, capped, found) =
    let size : length (ds ++ (d ∷ [])) ≡ length ds + 1 = length-append ds (d ∷ []) in
    (
      (false, pop_leg d t),
      rw ends refl,
      (
        pop_leg-IsKept e d s t unused new kept,
        unfold IsSound pop_leg in sound,
        λ _. unfold pop_leg in omega arith,
        λ h. cc,
        λ h. cc,
        λ h. elim (found h) [
          | inl full ↦ inl (unfold pop_leg in full)
          | inr all ↦
              inr (deeper-Covers q ds current e d s.path t at apart (unfold push_leg in all))
        ],
      ),
    )

-- The loop's body, with a function that walks on.
pub try_edge-IsTried :
    (q : Query) (n : ℕ) (next : Address → Traversal → Outcome Traversal) (ds : List DirectedEdge)
    (current : Address) (e : ℕ) (d : DirectedEdge) (s : Traversal)
    → Walks q (suc n) next
    → length ds ≡ n
    → suc n ≤ q.max_len
    → IsAt q ds current s
    → IsSound q s
    → IsCapped q (suc (length ds)) s
    → get_elem? q.edges e ≡ some d
    → d.token_in ≡ current
    → (r : Bool × Traversal) × (try_edge q next e d s ≡ value r) × IsTried q ds current e s r
unfolding try_edge Walks
try_edge-IsTried q n next ds current e d s walks size most here sound capped at from =
    elim (Bool-cases (contains (λ a b. a == b) d.pool s.used_pools)) [
      | inl used ↦ rw used (
        (false, s),
        refl,
        passed-IsTried q ds current e s sound capped (used-Covers q ds current e d s here at used),
      )
      | inr unused ↦ elim (Bool-cases (d.token_out == q.anchor)) [
        | inl home ↦
            let to : d.token_out ≡ q.anchor = ground arith in
            rw (unused, home)
              (
                close_cycle q e s,
                refl,
                close_cycle-IsTried q ds current e d s here sound capped (rw size most) at from to
                    unused,
              )
        | inr apart ↦
            let over =
              leb q.max_len (suc (length s.path))
              || contains (λ a b. a == b) d.token_out s.visited in
            elim (Bool-cases over) [
              | inl t ↦
                  rw (unused, apart, t)
                    (
                      (false, s),
                      refl,
                      passed-IsTried q ds current e s sound capped
                          (left-Covers q ds current e d s here at apart t),
                    )
              | inr t ↦
                  let new : contains (λ a b. a == b) d.token_out s.visited ≡ false = ground arith in
                  let size1 : length (ds ++ (d ∷ [])) ≡ suc n =
                    length-append ds (d ∷ []) ∙ omega arith in
                  let short : length s.path ≡ length ds =
                    length-Reads q.edges s.path ds (unfold IsAt in here.0) in
                  rw (unused, apart, t)
                    (deeper-IsTried q ds current e d s (next d.token_out (push_leg e d s)) at
                      (λ k. ground arith) unused new
                      (walks (ds ++ (d ∷ [])) d.token_out (push_leg e d s) size1 (ground arith)
                        (push_leg-IsAt q ds current e d s here at from unused new)
                        (unfold IsSound push_leg in sound) (unfold push_leg in omega arith)))
            ]
      ]
    ]
