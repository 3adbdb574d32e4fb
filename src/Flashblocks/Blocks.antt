-- ===== src/Flashblocks/Blocks.antt =====
-- The map of blocks of the tracker of bot/crates/mev-bot/src/flashblocks.rs.
use arrow_head.Prelude.{
  ℕ, suc, ◌≤◌, ◌<◌, ◌≡◌, inl, inr, refl, arith, true, false, Option, none, some, List, [], ◌∷◌,
  length, ltb, ◌==◌, Bool-cases, ap, subst,
}
use arrow_head.Types.{B256}
use arrow_head.Types.Pending.{PreconfirmedState}
use arrow_head.Flashblocks.Tracker.{
  PreconfirmedTracker, TrackedFrame, tracked_blocks, observe_frame, with_entry, push_frame, trim,
  take_block,
}
use arrow_head.Flashblocks.Seals.{IsAscending, IsTracked, with_entry-IsAscending}

abbrev pub or_nil : Option (List TrackedFrame) → List TrackedFrame
or_nil none = []
or_nil (some frames) = frames

-- A block below the first is not in the map.
take_block-below :
    (block low : ℕ) (m : List (ℕ × List TrackedFrame))
    → IsAscending low m
    → block < low
    → (take_block block m).0 ≡ none
unfolding take_block
take_block-below block low [] a h = refl
take_block-below block low ((k, frames) ∷ m) (lk, d, a) h =
    let apart : (k == block) ≡ false = ground arith in
    rw apart (take_block-below block (suc k) m a (omega arith))

pub take_block-with_entry :
    (block low : ℕ) (f : List TrackedFrame → List TrackedFrame) (m : List (ℕ × List TrackedFrame))
    → IsAscending low m
    → (take_block block (with_entry block f m)).0 ≡ some (f (or_nil (take_block block m).0))
unfolding take_block with_entry
take_block-with_entry block low f [] a =
    let same : (block == block) ≡ true = ground arith in rw same refl
take_block-with_entry block low f ((k, frames) ∷ m) (lk, d, a) = elim (Bool-cases (block == k)) [
  | inl here ↦ let back : (k == block) ≡ true = ground arith in rw here (rw back refl)
  | inr there ↦
      let back : (k == block) ≡ false = ground arith in
      elim (Bool-cases (ltb block k)) [
        | inl before ↦
            let same : (block == block) ≡ true = ground arith in
            let missing : (take_block block m).0 ≡ none =
              take_block-below block (suc k) m a (ground arith) in
            rw there (rw before (rw (same, back, missing) refl))
        | inr behind ↦ rw there (rw behind (rw back (take_block-with_entry block (suc k) f m a)))
      ]
]

-- A block that is there is changed in place.
length-with_entry :
    (block low : ℕ) (f : List TrackedFrame → List TrackedFrame) (m : List (ℕ × List TrackedFrame))
    (frames : List TrackedFrame)
    → IsAscending low m
    → (take_block block m).0 ≡ some frames
    → length (with_entry block f m) ≡ length m
unfolding take_block with_entry
length-with_entry block low f [] frames a h = cc
length-with_entry block low f ((k, fs) ∷ m) frames (lk, d, a) h = elim (Bool-cases (block == k)) [
  | inl here ↦ rw here refl
  | inr there ↦
      let back : (k == block) ≡ false = ground arith in
      let found : (take_block block m).0 ≡ some frames = rw back at h in
      elim (Bool-cases (ltb block k)) [
        | inl before ↦ let missing = take_block-below block (suc k) m a (ground arith) in cc
        | inr behind ↦
            rw (there, behind) (ap suc (length-with_entry block (suc k) f m frames a found))
      ]
]

pub trim-short : (m : List (ℕ × List TrackedFrame)) → length m ≤ tracked_blocks → trim m ≡ m
unfolding trim
trim-short [] h = refl
trim-short (x ∷ m) h =
    let few : ltb tracked_blocks (suc (length m)) ≡ false = ground arith in rw few refl

-- The tracker holds these frames of the block.
unfoldable pub Holds : PreconfirmedTracker → ℕ → List TrackedFrame → Type 0
Holds t block frames = ((take_block block t.by_block).0 ≡ some frames) × IsTracked t

observe_frame-Holds :
    (t : PreconfirmedTracker) (state : PreconfirmedState) (hashes : List B256)
    (frames : List TrackedFrame)
    → Holds t state.block_number frames
    → Holds (observe_frame t state hashes) state.block_number (push_frame state hashes frames)
unfolding Holds IsTracked observe_frame
observe_frame-Holds t state hashes frames (found, (a, size)) =
    let f = push_frame state hashes in
    let same = length-with_entry state.block_number 0 f t.by_block frames a found in
    let (up, _) =
      with_entry-IsAscending 0 state.block_number state hashes t.by_block (omega arith) a in
    let got = take_block-with_entry state.block_number 0 f t.by_block a in
    rw (trim-short (with_entry state.block_number f t.by_block) (omega arith))
      (rw found at got, (up, omega arith))

-- The same at a block that the frame is known to be of.
pub observe_frame-Holds_at :
    (t : PreconfirmedTracker) (block : ℕ) (state : PreconfirmedState) (hashes : List B256)
    (frames : List TrackedFrame)
    → state.block_number ≡ block
    → Holds t block frames
    → Holds (observe_frame t state hashes) block (push_frame state hashes frames)
observe_frame-Holds_at t block state hashes frames here =
    subst
      (λ b.
        Holds t b frames → Holds (observe_frame t state hashes) b (push_frame state hashes frames))
      here (observe_frame-Holds t state hashes frames)
