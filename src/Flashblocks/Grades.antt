-- ===== src/Flashblocks/Grades.antt =====
-- What `observe_sealed` of bot/crates/mev-bot/src/flashblocks.rs says of the frames of one block.
use arrow_head.Prelude.{
  ℕ, ◌-◌, ◌<◌, ◌≡◌, refl, arith, max, Bool, true, false, none, some, List, [], ◌∷◌, ◌++◌, length,
  ◌==◌, ◌&&◌, ◌||◌, All, ap, ◌∙◌, subst,
}
use mathlib.Core.List.{append_assoc, append-nil}
use arrow_head.Prelude.Sets.{eq_list}
use arrow_head.Types.{B256}
use arrow_head.Types.Pending.{PreconfirmedState}
use arrow_head.Flashblocks.Tracker.{
  PreconfirmedTracker, TrackedFrame, tracked_blocks, observe_frame, observe_sealed, with_entry,
  push_frame, has_frame, take_block, grade, cumulative, newest,
}
use arrow_head.Flashblocks.Seals.{IsTracked, with_entry-IsAscending}
use arrow_head.Flashblocks.Blocks.{take_block-with_entry, trim-short, Holds, observe_frame-Holds_at}

-- A frame as it arrives: its state and the hashes of its diff.
abbrev pub Delivery : Type 0
Delivery = PreconfirmedState × List B256

abbrev pub deliver : PreconfirmedTracker → List Delivery → PreconfirmedTracker
deliver t [] = t
deliver t ((state, hashes) ∷ ds) = deliver (observe_frame t state hashes) ds

-- The deliveries are of the block, and none has the index and state of one before it.
abbrev pub same_frame : PreconfirmedState → PreconfirmedState → Bool
same_frame a b = (a.flashblock_index == b.flashblock_index) && (a.state_id == b.state_id)

abbrev pub AreFrames : ℕ → List Delivery → Type 0
AreFrames block [] = Unit {0}
AreFrames block ((state, _) ∷ ds) =
    (state.block_number ≡ block) × All (λ d. same_frame state d.0 ≡ false) ds × AreFrames block ds

-- Each delivery repeats one of those.
abbrev pub is_among : PreconfirmedState → List Delivery → Bool
is_among state [] = false
is_among state ((s, _) ∷ ds) = same_frame s state || is_among state ds

abbrev pub AreRepeats : ℕ → List Delivery → List Delivery → Type 0
AreRepeats block ds rs = All (λ r. (r.0.block_number ≡ block) × (is_among r.0 ds ≡ true)) rs

abbrev pub all_hashes : List Delivery → List B256
all_hashes [] = []
all_hashes ((_, hashes) ∷ ds) = hashes ++ all_hashes ds

abbrev pub last_seen : List Delivery → ℕ
last_seen [] = 0
last_seen ((state, _) ∷ ds) = max state.observed_at_ms (last_seen ds)

abbrev frame_of : Delivery → TrackedFrame
frame_of (state, hashes) = record {
  index = state.flashblock_index;
  state_id = state.state_id;
  observed_at_ms = state.observed_at_ms;
  tx_hashes = hashes;
}

abbrev frames_of : List Delivery → List TrackedFrame
frames_of [] = []
frames_of (d ∷ ds) = frame_of d ∷ frames_of ds

has_frame-frames_of :
    (state : PreconfirmedState) (ds : List Delivery)
    → has_frame state (frames_of ds) ≡ is_among state ds
unfolding has_frame
has_frame-frames_of state [] = refl
has_frame-frames_of state (d ∷ ds) = rw (has_frame-frames_of state ds) refl

frames_of-snoc :
    (ds : List Delivery) (d : Delivery)
    → frames_of (ds ++ (d ∷ [])) ≡ frames_of ds ++ (frame_of d ∷ [])
frames_of-snoc [] d = refl
frames_of-snoc (x ∷ ds) d = ap (λ fs. frame_of x ∷ fs) (frames_of-snoc ds d)

is_among-snoc :
    (state : PreconfirmedState) (ds : List Delivery) (d : Delivery)
    → is_among state ds ≡ false
    → same_frame d.0 state ≡ false
    → is_among state (ds ++ (d ∷ [])) ≡ false
is_among-snoc state [] d h k = rw k refl
is_among-snoc state (x ∷ ds) d h k =
    let here : same_frame x.0 state ≡ false = ground arith in
    let later : is_among state ds ≡ false = rw here at h in
    rw here (is_among-snoc state ds d later k)

abbrev AreNew : List Delivery → List Delivery → Type 0
AreNew done ds = All (λ d. is_among d.0 done ≡ false) ds

AreNew-snoc :
    (done ds : List Delivery) (d : Delivery)
    → AreNew done ds
    → All (λ r. same_frame d.0 r.0 ≡ false) ds
    → AreNew (done ++ (d ∷ [])) ds
AreNew-snoc done [] d ns ps = tt
AreNew-snoc done (x ∷ ds) d (n, ns) (p, ps) =
    (is_among-snoc x.0 done d n p, AreNew-snoc done ds d ns ps)

-- New frames of the block are appended.
deliver-Holds :
    (t : PreconfirmedTracker) (block : ℕ) (done ds : List Delivery)
    → Holds t block (frames_of done)
    → AreFrames block ds
    → AreNew done ds
    → Holds (deliver t ds) block (frames_of (done ++ ds))
unfolding push_frame
deliver-Holds t block done [] holds are ns = rw (append-nil done) holds
deliver-Holds t block done ((state, hashes) ∷ ds) holds (here, apart, are) (n, ns) =
    let new : has_frame state (frames_of done) ≡ false = has_frame-frames_of state done ∙ n in
    let next : Holds (observe_frame t state hashes) block
        (frames_of (done ++ ((state, hashes) ∷ []))) =
      rw (frames_of-snoc done (state, hashes)) (appended new) in
    rw (append_assoc done ((state, hashes) ∷ []) ds) at (
      deliver-Holds (observe_frame t state hashes) block (done ++ ((state, hashes) ∷ [])) ds next
        are (AreNew-snoc done ds (state, hashes) ns apart))
  where
    appended :
        has_frame state (frames_of done) ≡ false
        → Holds
            (observe_frame t state hashes)
            block
            (frames_of done ++ (frame_of (state, hashes) ∷ []))
    appended new =
        rw new at (observe_frame-Holds_at t block state hashes (frames_of done) here holds)

-- Repeats change nothing.
repeats-Holds :
    (t : PreconfirmedTracker) (block : ℕ) (ds rs : List Delivery)
    → Holds t block (frames_of ds)
    → AreRepeats block ds rs
    → Holds (deliver t rs) block (frames_of ds)
unfolding push_frame
repeats-Holds t block ds [] holds are = holds
repeats-Holds t block ds ((state, hashes) ∷ rs) holds ((here, among), are) =
    repeats-Holds (observe_frame t state hashes) block ds rs
      (kept (has_frame-frames_of state ds ∙ among)) are
  where
    kept :
        has_frame state (frames_of ds) ≡ true
        → Holds (observe_frame t state hashes) block (frames_of ds)
    kept old = rw old at (observe_frame-Holds_at t block state hashes (frames_of ds) here holds)

first-Holds :
    (t : PreconfirmedTracker) (state : PreconfirmedState) (hashes : List B256)
    → IsTracked t
    → length t.by_block < tracked_blocks
    → (take_block state.block_number t.by_block).0 ≡ none
    → Holds (observe_frame t state hashes) state.block_number (frames_of ((state, hashes) ∷ []))
unfolding Holds IsTracked observe_frame
first-Holds t state hashes (a, _) room missing =
    let f = push_frame state hashes in
    let (up, size) =
      with_entry-IsAscending 0 state.block_number state hashes t.by_block (omega arith) a in
    let got = take_block-with_entry state.block_number 0 f t.by_block a in
    rw (trim-short (with_entry state.block_number f t.by_block) (omega arith))
      ((unfold push_frame has_frame in rw missing at got), (up, omega arith))

cumulative-frames_of : (ds : List Delivery) → cumulative (frames_of ds) ≡ all_hashes ds
unfolding cumulative
cumulative-frames_of [] = refl
cumulative-frames_of ((_, hashes) ∷ ds) = ap (λ hs. hashes ++ hs) (cumulative-frames_of ds)

newest-frames_of : (ds : List Delivery) → newest (frames_of ds) ≡ last_seen ds
unfolding newest
newest-frames_of [] = refl
newest-frames_of ((state, _) ∷ ds) = ap (λ n. max state.observed_at_ms n) (newest-frames_of ds)

-- The frames of a block, in the order in which they first arrive at a tracker with room for one more
-- block, and any of them again after that, are graded by their hashes in that order: the seal
-- matches exactly when the canonical block has these hashes, and the lead is measured from the
-- latest of the frames.
pub observe_sealed-deliver :
    (t : PreconfirmedTracker) (block : ℕ) (d : Delivery) (ds rs : List Delivery)
    (canonical : List B256) (at_ms : ℕ)
    → IsTracked t
    → length t.by_block < tracked_blocks
    → (take_block block t.by_block).0 ≡ none
    → AreFrames block (d ∷ ds)
    → AreRepeats block (d ∷ ds) rs
    → (observe_sealed (deliver (deliver t (d ∷ ds)) rs) block canonical at_ms).1
      ≡ some (eq_list (all_hashes (d ∷ ds)) canonical, at_ms - last_seen (d ∷ ds))
unfolding observe_sealed grade
observe_sealed-deliver t block (state, hashes) ds rs canonical at_ms tracked room missing
      (here, apart, are) repeats =
    let first : Holds (observe_frame t state hashes) block (frames_of ((state, hashes) ∷ [])) =
      subst
        (λ b.
          (take_block b t.by_block).0 ≡ none
          → Holds (observe_frame t state hashes) b (frames_of ((state, hashes) ∷ [])))
        here (first-Holds t state hashes tracked room) missing in
    let all : Holds (deliver t ((state, hashes) ∷ ds)) block (frames_of ((state, hashes) ∷ ds)) =
      deliver-Holds (observe_frame t state hashes) block ((state, hashes) ∷ []) ds first are
        (AreNew-snoc [] ds (state, hashes) (none_before ds) apart) in
    let kept =
      repeats-Holds (deliver t ((state, hashes) ∷ ds)) block ((state, hashes) ∷ ds) rs all
        repeats in
    let found : (take_block block (deliver (deliver t ((state, hashes) ∷ ds)) rs).by_block).0
        ≡ some (frames_of ((state, hashes) ∷ ds)) =
      unfold Holds in kept.0 in
    rw found (
      rw (cumulative-frames_of ((state, hashes) ∷ ds), newest-frames_of ((state, hashes) ∷ ds))
        refl)
  where
    none_before : (ds : List Delivery) → AreNew [] ds
    none_before [] = tt
    none_before (x ∷ ds) = (refl, none_before ds)
