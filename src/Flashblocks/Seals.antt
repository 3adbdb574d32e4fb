-- ===== src/Flashblocks/Seals.antt =====
-- The grading of a sealed block by the tracker of bot/crates/mev-bot/src/flashblocks.rs, and the
-- bounds of what it holds.
use arrow_head.Prelude.{
  ℕ, suc, ◌≤◌, ◌≡◌, inl, inr, arith, false, List, [], ◌∷◌, ◌++◌, length, ltb, ◌==◌, ◌&&◌, All,
  All-snoc, Bool-cases,
}
use arrow_head.Types.{B256}
use arrow_head.Types.Pending.{PreconfirmedState}
use arrow_head.Flashblocks.Tracker.{
  PreconfirmedTracker, TrackedFrame, tracked_blocks, observe_frame, observe_sealed, with_entry,
  push_frame, has_frame, trim, take_block,
}
use arrow_head.Flashblocks.Pins.{Event, step, run_events}

-- No two frames have the same index and state.
abbrev pub DistinctFrames : List TrackedFrame → Type 0
DistinctFrames [] = Unit {0}
DistinctFrames (f ∷ frames) =
    All (λ g. ((g.index == f.index) && (g.state_id == f.state_id)) ≡ false) frames
    × DistinctFrames frames

-- The blocks ascend from above `low`, and the frames of each are distinct.
abbrev pub IsAscending : ℕ → List (ℕ × List TrackedFrame) → Type 0
IsAscending low [] = Unit {0}
IsAscending low ((k, frames) ∷ m) = (low ≤ k) × DistinctFrames frames × IsAscending (suc k) m

-- What the tracker holds: at most 48 blocks, ascending, and no frame twice.
unfoldable pub IsTracked : PreconfirmedTracker → Type 0
IsTracked t = IsAscending 0 t.by_block × (length t.by_block ≤ tracked_blocks)

new_frame :
    (state : PreconfirmedState) (hashes : List B256) (frames : List TrackedFrame)
    → DistinctFrames frames
    → has_frame state frames ≡ false
    → DistinctFrames (
        frames
        ++ (record {
          index = state.flashblock_index;
          state_id = state.state_id;
          observed_at_ms = state.observed_at_ms;
          tx_hashes = hashes;
        }
            ∷ []))
unfolding has_frame
new_frame state hashes [] d h = (tt, tt)
new_frame state hashes (f ∷ frames) (apart, d) h =
    let here : ((state.flashblock_index == f.index) && (state.state_id == f.state_id)) ≡ false =
      ground arith in
    let later : has_frame state frames ≡ false = ground arith in
    (
      All-snoc (λ g. ((g.index == f.index) && (g.state_id == f.state_id)) ≡ false) frames
          (record {
            index = state.flashblock_index;
            state_id = state.state_id;
            observed_at_ms = state.observed_at_ms;
            tx_hashes = hashes;
          })
          apart here,
      new_frame state hashes frames d later,
    )

push_frame-DistinctFrames :
    (state : PreconfirmedState) (hashes : List B256) (frames : List TrackedFrame)
    → DistinctFrames frames
    → DistinctFrames (push_frame state hashes frames)
unfolding push_frame
push_frame-DistinctFrames state hashes frames d = elim (Bool-cases (has_frame state frames)) [
  | inl old ↦ rw old d
  | inr new ↦ rw new (new_frame state hashes frames d new)
]

pub with_entry-IsAscending :
    (low block : ℕ) (state : PreconfirmedState) (hashes : List B256)
    (m : List (ℕ × List TrackedFrame))
    → low ≤ block
    → IsAscending low m
    → IsAscending low (with_entry block (push_frame state hashes) m)
      × (length (with_entry block (push_frame state hashes) m) ≤ suc (length m))
unfolding with_entry
with_entry-IsAscending low block state hashes [] le a =
    ((le, push_frame-DistinctFrames state hashes [] tt, tt), omega arith)
with_entry-IsAscending low block state hashes ((k, frames) ∷ m) le (lk, d, a) =
    elim (Bool-cases (block == k)) [
      | inl same ↦ rw same ((lk, push_frame-DistinctFrames state hashes frames d, a), omega arith)
      | inr other ↦ elim (Bool-cases (ltb block k)) [
        | inl before ↦
            rw (other, before)
              (
                (le, push_frame-DistinctFrames state hashes [] tt, (ground arith, d, a)),
                omega arith,
              )
        | inr behind ↦
            let (up, size) = with_entry-IsAscending (suc k) block state hashes m (ground arith) a in
            rw (other, behind) ((lk, d, up), omega arith)
      ]
    ]

IsAscending-lower :
    (low high : ℕ) (m : List (ℕ × List TrackedFrame))
    → low ≤ high
    → IsAscending high m
    → IsAscending low m
IsAscending-lower low high [] le a = tt
IsAscending-lower low high ((k, frames) ∷ m) le (hk, d, a) = (omega arith, d, a)

trim-IsAscending :
    (low : ℕ) (m : List (ℕ × List TrackedFrame))
    → IsAscending low m
    → IsAscending low (trim m) × (length (trim m) ≤ tracked_blocks)
unfolding trim
trim-IsAscending low [] a = (tt, omega arith)
trim-IsAscending low ((k, frames) ∷ m) (lk, d, a) =
    let (up, size) = trim-IsAscending (suc k) m a in
    elim (Bool-cases (ltb tracked_blocks (suc (length m)))) [
      | inl many ↦ rw many (IsAscending-lower low (suc k) (trim m) (omega arith) up, size)
      | inr few ↦ rw few ((lk, d, a), ground arith)
    ]

-- A block that is taken out leaves the rest ascending.
take_block-IsAscending :
    (block low : ℕ) (m : List (ℕ × List TrackedFrame))
    → IsAscending low m
    → IsAscending low (take_block block m).1 × (length (take_block block m).1 ≤ length m)
unfolding take_block
take_block-IsAscending block low [] a = (tt, omega arith)
take_block-IsAscending block low ((k, frames) ∷ m) (lk, d, a) =
    let (up, size) = take_block-IsAscending block (suc k) m a in
    elim (Bool-cases (k == block)) [
      | inl here ↦ rw here (IsAscending-lower low (suc k) m (omega arith) a, omega arith)
      | inr there ↦ rw there ((lk, d, up), omega arith)
    ]

step-IsTracked : (t : PreconfirmedTracker) (e : Event) → IsTracked t → IsTracked (step t e)
unfolding step IsTracked observe_frame observe_sealed
step-IsTracked t (Event.frame state hashes) (a, size) =
    let (up, _) =
      with_entry-IsAscending 0 state.block_number state hashes t.by_block (omega arith) a in
    trim-IsAscending 0 (with_entry state.block_number (push_frame state hashes) t.by_block) up
step-IsTracked t (Event.sealed block canonical at_ms) (a, size) =
    let (up, less) = take_block-IsAscending block 0 t.by_block a in (up, omega arith)

-- Whatever frames and sealed blocks arrive at a new tracker, it holds at most 48 blocks, in
-- ascending order, and no frame of a block twice.
pub run_events-IsTracked :
    (t : PreconfirmedTracker) (es : List Event) → IsTracked t → IsTracked (run_events t es)
unfolding run_events
run_events-IsTracked t [] h = h
run_events-IsTracked t (e ∷ es) h = run_events-IsTracked (step t e) es (step-IsTracked t e h)
