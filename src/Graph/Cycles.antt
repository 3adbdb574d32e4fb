-- ===== src/Graph/Cycles.antt =====
-- What `walk` of bot/crates/mev-bot/src/dex/graph.rs returns.
use arrow_head.Prelude.{
  ℕ, zero, suc, ◌+◌, ◌≤◌, ◌≡◌, ◌⊎◌, inl, inr, refl, ap, arith, false, none, some, leb, List, length,
  get_elem?, Bool-cases, Option-cases,
}
use arrow_head.Prelude.Outcome.{Outcome, value}
use arrow_head.Types.{Address}
use arrow_head.Graph.{DirectedEdge, edges_at, max_raw_cycles}
use arrow_head.Graph.Enumerate.{Query, Traversal, read_clock, try_each, walk, walk_with}
use arrow_head.Graph.Steps.{
  IsSound, IsAt, IsCapped, IsKept, IsKept-refl, IsKept-trans, IsAt-kept, GoesOn, Covers, IsFull,
}
use arrow_head.Graph.Deeper.{Walks, IsWalked, CoversAll}
use arrow_head.Graph.Loops.{Starts, AdjFits, IsLooped, try_each-IsLooped}

-- Reading the clock changes nothing else, and without a deadline it is never late.
read_clock-IsKept :
    (q : Query) (s : Traversal)
    → IsKept s (read_clock q s).1
      × (IsSound q s → IsSound q (read_clock q s).1)
      × ((read_clock q s).1.out ≡ s.out)
      × (q.deadline ≡ none → (read_clock q s).0 ≡ false)
unfolding read_clock IsKept IsSound
read_clock-IsKept q s = elim (Option-cases q.deadline) [
  | inl free ↦ rw free ((refl, refl, refl, omega arith, λ k h. h), λ h. h, refl, λ _. refl)
  | inr (d, set) ↦ rw set ((refl, refl, refl, omega arith, λ k h. h), λ h. h, refl, λ h. cc)
]

-- Where the walk stops before its loop.
stopped-IsWalked :
    (q : Query) (ds : List DirectedEdge) (current : Address) (s t : Traversal)
    → IsKept s t
    → IsSound q t
    → IsCapped q (length ds) t
    → (q.deadline ≡ none → IsFull t ⊎ CoversAll q ds current s.path t)
    → IsWalked q ds current s (value t)
unfolding IsWalked
stopped-IsWalked q ds current s t kept sound capped found = (t, refl, kept, sound, capped, found)

-- The candidates are all the edges that start at `current`.
Covers-all :
    (q : Query) (ds : List DirectedEdge) (current : Address) (candidates : List ℕ) (path : List ℕ)
    (t : Traversal)
    → AdjFits q.edges q.adj
    → edges_at q.adj current ≡ some candidates
    → Covers q ds current path candidates t
    → CoversAll q ds current path t
unfolding AdjFits Covers CoversAll
Covers-all q ds current candidates path t (_, lists) at covers = λ e es d gs h.
    let read : get_elem? q.edges e ≡ some d = unfold GoesOn in h.0 in
    let from : d.token_in ≡ current = unfold GoesOn in h.1 in
    let (listed, found, member) = lists e d read in
    let same : listed ≡ candidates = cc in covers e es d gs (rw same at member) h

-- A token without an edge list has no edge.
none-CoversAll :
    (q : Query) (ds : List DirectedEdge) (current : Address) (path : List ℕ) (t : Traversal)
    → AdjFits q.edges q.adj
    → edges_at q.adj current ≡ none
    → CoversAll q ds current path t
unfolding AdjFits CoversAll
none-CoversAll q ds current path t (_, lists) missing = λ e es d gs h.
    let read : get_elem? q.edges e ≡ some d = unfold GoesOn in h.0 in
    let from : d.token_in ≡ current = unfold GoesOn in h.1 in
    let (listed, found, member) = lists e d read in cc

-- The loop over all the edges that start at `current`.
looped-IsWalked :
    (q : Query) (n : ℕ) (next : Address → Traversal → Outcome Traversal) (ds : List DirectedEdge)
    (current : Address) (candidates : List ℕ) (s t : Traversal)
    → AdjFits q.edges q.adj
    → edges_at q.adj current ≡ some candidates
    → Walks q (suc n) next
    → length ds ≡ n
    → suc n ≤ q.max_len
    → IsAt q ds current t
    → IsKept s t
    → IsSound q t
    → IsCapped q (suc (length ds)) t
    → IsWalked q ds current s (try_each q next candidates t)
looped-IsWalked q n next ds current candidates s t fits at walks size most here kept sound capped =
    let starts : Starts q.edges current candidates =
      unfold AdjFits in fits.0 current candidates at in
    let (u, done, looped) =
      try_each-IsLooped q n next ds current candidates t walks size most starts here sound capped in
    let same : t.path ≡ s.path = unfold IsKept in kept.0 in
    rw done (
      unfold IsWalked IsLooped in
      (
        u,
        refl,
        IsKept-trans s t u kept looped.0,
        looped.1,
        looped.2,
        λ h. elim (looped.3 h) [
          | inl full ↦ inl full
          | inr c ↦ inr (Covers-all q ds current candidates s.path u fits at (rw same at c))
        ],
      ))

-- One level of the recursion.
walk_with-IsWalked :
    (q : Query) (n : ℕ) (next : Address → Traversal → Outcome Traversal) (ds : List DirectedEdge)
    (current : Address) (s : Traversal)
    → AdjFits q.edges q.adj
    → Walks q (suc n) next
    → length ds ≡ n
    → suc n ≤ q.max_len
    → IsAt q ds current s
    → IsSound q s
    → IsCapped q n s
    → IsWalked q ds current s (walk_with q next current s)
unfolding walk_with
walk_with-IsWalked q n next ds current s fits walks size most here sound capped =
    let t = (read_clock q s).1 in
    let (kept, still, same, free) = read_clock-IsKept q s in
    let long : length t.out ≡ length s.out = ap length same in
    elim (Bool-cases (leb max_raw_cycles (length s.out))) [
      | inl full ↦ rw full (
          stopped-IsWalked q ds current s s (IsKept-refl s) sound (rw size capped)
            (λ h. inl (ground arith)))
      | inr room ↦ elim (Bool-cases (read_clock q s).0) [
        | inl late ↦
            rw (room, late)
              (stopped-IsWalked q ds current s t kept (still sound) (omega arith)
                (λ h. let never = free h in cc))
        | inr early ↦ elim (Option-cases (edges_at q.adj current)) [
          | inl missing ↦
              rw (room, early, missing)
                (stopped-IsWalked q ds current s t kept (still sound) (omega arith)
                  (λ h. inr (none-CoversAll q ds current s.path t fits missing)))
          | inr (candidates, at) ↦
              rw (room, early, at)
                (looped-IsWalked q n next ds current candidates s t fits at walks size most
                  (IsAt-kept q ds current s t kept here) kept (still sound) (ground arith))
        ]
      ]
    ]

-- The walk of so much fuel walks on behind any path that leaves no more legs.
pub walk-Walks :
    (fuel n : ℕ) (q : Query)
    → AdjFits q.edges q.adj
    → q.max_len ≤ fuel + n
    → Walks q n (walk fuel q)
unfolding walk
walk-Walks zero n q fits enough = unfold Walks in λ ds current s size most. ground arith
walk-Walks (suc fuel) n q fits enough = level (walk-Walks fuel (suc n) q fits (omega arith))
  where
    level : Walks q (suc n) (walk fuel q) → Walks q n (walk_with q (walk fuel q))
    level walks =
        unfold Walks in λ ds current s. walk_with-IsWalked q n (walk fuel q) ds current s fits walks
