-- ===== src/Flashblocks/Emitted.antt =====
-- What `parse` of bot/crates/mev-bot/src/flashblocks.rs gives and keeps.
use arrow_head.Prelude.{
  ℕ, ◌-◌, ◌≤◌, ◌<◌, ◌≡◌, ◌⊎◌, inl, inr, refl, sym, arith, true, false, Option, none, some, List, [],
  ◌∷◌, ◌==◌, if◌then◌else◌, All, Bool-cases,
}
use arrow_head.Prelude.Outcome.{value, >>=-eq-value}
use arrow_head.Prelude.Sets.{contains, Distinct}
use arrow_head.Types.{Address, B256, Bytes}
use arrow_head.Types.Pending.{PreconfirmedState, PendingTx}
use arrow_head.Flashblocks.{Frame}
use arrow_head.Flashblocks.Parser.{
  FlashblockStats, inc, dedupe_blocks, Key, eq_key, FlashblockParser, FrameOutcome, Malformed,
  ParsedFlashblock, Identity, Identified, refused, known, identify, sequence_of,
}
use arrow_head.Flashblocks.Intake.{
  Intake, fresh_intake, take_items, evict_before, advance_sequence, moves_to, finish_frame,
  state_of, parse_known, parse_identified, parse, dropped, is_redelivered,
}
use arrow_head.Flashblocks.Window.{IsWindow, IsIntake, evict_before-IsWindow, hashes_of}
use arrow_head.Flashblocks.Taken.{take_items-IsIntake}

-- A frame is at the place or behind it.
unfoldable pub IsNotBefore : Option (ℕ × ℕ) → Option (ℕ × ℕ) → Type 0
IsNotBefore none later = Unit {0}
IsNotBefore (some (b, i)) none = ⊥
IsNotBefore (some (b, i)) (some (c, j)) = (b < c) ⊎ ((b ≡ c) × (i ≤ j))

advance_sequence-IsNotBefore :
    (v : Frame) (id : Identity) (o : FrameOutcome) (p : FlashblockParser) (stats : FlashblockStats)
    → IsNotBefore p.last_frame (advance_sequence v id o p stats).0.last_frame
unfolding advance_sequence
advance_sequence-IsNotBefore v id o p stats = elim (Bool-cases (is_redelivered o)) [
  | inl again ↦ rw again (self p.last_frame)
  | inr first ↦ rw first (moved p.last_frame)
]
  where
    self : (place : Option (ℕ × ℕ)) → IsNotBefore place place
    self none = unfold IsNotBefore in tt
    self (some (b, i)) = unfold IsNotBefore in inr (refl, omega arith)

    moved :
        (place : Option (ℕ × ℕ))
        → IsNotBefore place (if moves_to id place then some (id.block_number, id.index) else place)
    moved none = unfold IsNotBefore in tt
    moved (some (b, i)) = unfold moves_to IsNotBefore in ground arith

pub advance_sequence-seen :
    (v : Frame) (id : Identity) (o : FrameOutcome) (p : FlashblockParser) (stats : FlashblockStats)
    → ((advance_sequence v id o p stats).0.seen ≡ p.seen)
      × ((advance_sequence v id o p stats).0.seen_order ≡ p.seen_order)
unfolding advance_sequence
advance_sequence-seen v id o p stats = elim (Bool-cases (is_redelivered o)) [
  | inl again ↦ rw again (refl, refl)
  | inr first ↦ rw first (refl, refl)
]

-- What a frame gives: transactions of keys that were not seen, each hash once.
unfoldable pub IsEmitted :
    FlashblockParser → FlashblockParser × (FlashblockStats × ParsedFlashblock) → Type 0
IsEmitted p (q, (stats, out)) =
    IsWindow q.seen q.seen_order
    × IsNotBefore p.last_frame q.last_frame
    × Distinct (λ a b. a == b) (hashes_of out.txs)
    × ((s : PreconfirmedState)
        → out.state ≡ some s
        → All (λ tx. contains eq_key (s.state_id, tx.hash) p.seen ≡ false) out.txs)

pub IsEmitted-IsWindow :
    (p : FlashblockParser) (r : FlashblockParser × (FlashblockStats × ParsedFlashblock))
    → IsEmitted p r
    → IsWindow r.0.seen r.0.seen_order
unfolding IsEmitted
IsEmitted-IsWindow p r e = e.0

forget-All :
    (id : B256) (seen old : List Key) (txs : List PendingTx)
    → All
        (λ tx.
          (contains eq_key (id, tx.hash) old ≡ false) × (contains eq_key (id, tx.hash) seen ≡ true))
        txs
    → All (λ tx. contains eq_key (id, tx.hash) old ≡ false) txs
forget-All id seen old [] all = tt
forget-All id seen old (tx ∷ txs) ((new, _), all) = (new, forget-All id seen old txs all)

finish_frame-IsEmitted :
    (v : Frame) (id : Identity) (o : FrameOutcome) (state : PreconfirmedState) (now : ℕ)
    (p : FlashblockParser) (s : Intake)
    → IsIntake p.seen state.state_id s
    → IsEmitted p (finish_frame v id o state now p s)
unfolding finish_frame IsEmitted IsIntake
finish_frame-IsEmitted v id o state now p s (w, _, all, distinct) =
    let evicted = evict_before (id.block_number - dedupe_blocks) s.seen_order s.seen in
    let p1 : FlashblockParser = record p { seen = evicted.1; seen_order = evicted.0 } in
    let (e1, e2) = advance_sequence-seen v id o p1 s.stats in
    (
      rw (e1, e2) (evict_before-IsWindow (id.block_number - dedupe_blocks) s.seen_order s.seen w),
      advance_sequence-IsNotBefore v id o p1 s.stats,
      distinct,
      λ t h. rw (sym (some-id state t h)) (forget-All state.state_id s.seen p.seen s.txs all),
    )
  where
    some-id : (a b : PreconfirmedState) → some a ≡ some b → a.state_id ≡ b.state_id
    some-id a b h = cc

fresh-IsIntake :
    (p : FlashblockParser) (stats : FlashblockStats) (id : B256)
    → IsWindow p.seen p.seen_order
    → IsIntake p.seen id (fresh_intake p stats)
unfolding IsIntake
fresh-IsIntake p stats id window = (window, λ k in_old. in_old, tt, tt)

dropped-IsEmitted :
    (reason : Malformed) (p : FlashblockParser) (stats : FlashblockStats)
    → IsWindow p.seen p.seen_order
    → IsEmitted p (dropped reason p stats)
unfolding IsEmitted
dropped-IsEmitted reason p stats window = (window, self p.last_frame, tt, λ s h. tt)
  where
    self : (place : Option (ℕ × ℕ)) → IsNotBefore place place
    self none = unfold IsNotBefore in tt
    self (some (b, i)) = unfold IsNotBefore in inr (refl, omega arith)

module _ (keccak : Bytes → B256) (recover : B256 → Bytes → ℕ → Option Address) where
  parse_known-IsEmitted :
      (v : Frame) (id : Identity) (now : ℕ) (p : FlashblockParser) (stats : FlashblockStats)
      (r : FlashblockParser × (FlashblockStats × ParsedFlashblock))
      → IsWindow p.seen p.seen_order
      → parse_known keccak recover v id now p stats ≡ value r
      → IsEmitted p r
  unfolding parse_known
  parse_known-IsEmitted v id now p stats r window h =
      let state = state_of p v id now in
      let o = (sequence_of p id v.prev_flashblock_id).0 in
      let (s, taken, done) =
        >>=-eq-value (take_items keccak recover state id.transactions _) _ r h in
      let kept =
        take_items-IsIntake keccak recover p.seen state id.transactions _ s taken
          (fresh-IsIntake p _ state.state_id window) in
      let e : finish_frame v id o state now p s ≡ r = cc in
      rw (sym e) (finish_frame-IsEmitted v id o state now p s kept)

  parse_identified-IsEmitted :
      (v : Frame) (i : Identified) (now : ℕ) (p : FlashblockParser) (stats : FlashblockStats)
      (r : FlashblockParser × (FlashblockStats × ParsedFlashblock))
      → IsWindow p.seen p.seen_order
      → parse_identified keccak recover v i now p stats ≡ value r
      → IsEmitted p r
  unfolding parse_identified
  parse_identified-IsEmitted v (refused reason) now p stats r window h =
      let e : dropped reason p stats ≡ r = cc in
      rw (sym e) (dropped-IsEmitted reason p stats window)
  parse_identified-IsEmitted v (known id) now p stats r window h =
      parse_known-IsEmitted v id now p stats r window h

  -- Whatever a frame holds, where its transactions decode without a panic: the window of seen keys
  -- stays a set that the queue lists in order, the last frame does not move backwards, no
  -- transaction is given twice, and none is given whose state and hash were seen before.
  pub parse-IsEmitted :
      (v : Frame) (now : ℕ) (p : FlashblockParser) (stats : FlashblockStats)
      (r : FlashblockParser × (FlashblockStats × ParsedFlashblock))
      → IsWindow p.seen p.seen_order
      → parse keccak recover v now p stats ≡ value r
      → IsEmitted p r
  unfolding parse
  parse-IsEmitted v now p stats r window h =
      parse_identified-IsEmitted v (identify v) now p
        (record stats { frames_total = inc stats.frames_total }) r window h
