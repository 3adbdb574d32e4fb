-- ===== src/Graph/Loops.antt =====
-- The loop of `walk` of bot/crates/mev-bot/src/dex/graph.rs over its candidates.
use arrow_head.Prelude.{
  ℕ, suc, ◌≤◌, ◌≡◌, ◌⊎◌, inl, inr, refl, arith, true, none, some, ◌==◌, List, [], ◌∷◌, length,
  get_elem?, Bool-cases, All,
}
use arrow_head.Prelude.Outcome.{Outcome, value}
use arrow_head.Prelude.Sets.{contains}
use arrow_head.Types.{Address}
use arrow_head.Graph.{DirectedEdge, edges_at}
use arrow_head.Graph.Enumerate.{Query, Traversal, edge_at, try_each}
use arrow_head.Graph.Steps.{
  IsSound, IsAt, IsCapped, IsKept, IsKept-refl, IsKept-trans, IsAt-kept, Covers, IsFull,
}
use arrow_head.Graph.Closing.{IsTried}
use arrow_head.Graph.Deeper.{Walks}
use arrow_head.Graph.Tries.{try_edge-IsTried}

-- The candidates are indices of edges that start at `current`.
abbrev pub Starts : List DirectedEdge → Address → List ℕ → Type 0
Starts edges current es =
    All (λ e. (d : DirectedEdge) × (get_elem? edges e ≡ some d) × (d.token_in ≡ current)) es

-- The adjacency map lists the edges at their input token, and no others.
unfoldable pub AdjFits : List DirectedEdge → List (Address × List ℕ) → Type 0
AdjFits edges adj =
    ((t : Address) (es : List ℕ) → edges_at adj t ≡ some es → Starts edges t es)
    × ((e : ℕ) (d : DirectedEdge)
        → get_elem? edges e ≡ some d
        → (es : List ℕ) × (edges_at adj d.token_in ≡ some es)
          × (contains (λ a b. a == b) e es ≡ true))

-- What the loop over the candidates leaves.
unfoldable pub IsLooped :
    Query → List DirectedEdge → Address → List ℕ → Traversal → Traversal → Type 0
IsLooped q ds current candidates s t =
    IsKept s t
    × IsSound q t
    × IsCapped q (length ds) t
    × (q.deadline ≡ none → IsFull t ⊎ Covers q ds current s.path candidates t)

-- What the first candidate and the rest of them cover.
Covers-cons :
    (q : Query) (ds : List DirectedEdge) (current : Address) (e : ℕ) (es : List ℕ)
    (s t u : Traversal)
    → IsKept s t
    → IsKept t u
    → Covers q ds current s.path (e ∷ []) t
    → Covers q ds current t.path es u
    → Covers q ds current s.path (e ∷ es) u
unfolding Covers IsKept
Covers-cons q ds current e es s t u (same, _, _, _, _) (_, _, _, _, mono) first rest =
    λ x fs g gs here h. elim (Bool-cases (x == e)) [
      | inl k ↦ mono _ (first x fs g gs (rw k refl) h)
      | inr k ↦ rw same at (rest x fs g gs (rw k at here) h)
    ]

IsKept-length : (s t : Traversal) → IsKept s t → length s.out ≤ length t.out
unfolding IsKept
IsKept-length s t kept = kept.3

pub try_each-IsLooped :
    (q : Query) (n : ℕ) (next : Address → Traversal → Outcome Traversal) (ds : List DirectedEdge)
    (current : Address) (candidates : List ℕ) (s : Traversal)
    → Walks q (suc n) next
    → length ds ≡ n
    → suc n ≤ q.max_len
    → Starts q.edges current candidates
    → IsAt q ds current s
    → IsSound q s
    → IsCapped q (suc (length ds)) s
    → (t : Traversal) × (try_each q next candidates s ≡ value t)
      × IsLooped q ds current candidates s t
unfolding try_each IsLooped IsTried
try_each-IsLooped q n next ds current [] s walks size most starts here sound capped =
    (s, refl, (IsKept-refl s, sound, omega arith, λ h. inr (unfold Covers in λ e es d gs k on. cc)))
try_each-IsLooped q n next ds current (e ∷ es) s walks size most ((d, at, from), starts) here sound
      capped =
    let ((over, t), ends, tried) =
      try_edge-IsTried q n next ds current e d s walks size most here sound capped at from in
    let read : edge_at q.edges e ≡ value d = unfold edge_at in rw at refl in
    let (kept, sound1, capped1, capped2, full, found) : IsTried q ds current e s (over, t) =
      tried in
    elim (Bool-cases over) [
      | inl stop ↦
          rw (read, ends, stop) (t, refl, (kept, sound1, capped2 stop, λ h. inl (full stop)))
      | inr on ↦
          let (u, done, (kept1, sound2, capped3, found1)) =
            try_each-IsLooped q n next ds current es t walks size most starts
              (IsAt-kept q ds current s t kept here) sound1 (capped1 on) in
          let more : length t.out ≤ length u.out = IsKept-length t u kept1 in
          rw (read, ends, on)
            (
              u,
              done,
              (
                IsKept-trans s t u kept kept1,
                sound2,
                capped3,
                λ h. elim (found h) [
                  | inl f ↦ inl (omega arith)
                  | inr c ↦ elim (found1 h) [
                    | inl f ↦ inl f
                    | inr c1 ↦ inr (Covers-cons q ds current e es s t u kept kept1 c c1)
                  ]
                ],
              ),
            )
    ]
