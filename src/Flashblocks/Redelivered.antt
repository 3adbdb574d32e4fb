-- ===== src/Flashblocks/Redelivered.antt =====
-- Frames that `parse` of bot/crates/mev-bot/src/flashblocks.rs receives again.
use arrow_head.Prelude.{ℕ, ◌+◌, ◌≤◌, ◌≡◌, refl, sym, arith, true, false, Option, List, [], ◌∷◌, All}
use arrow_head.Prelude.Outcome.{Outcome, value, ◌>>=◌, >>=-eq-value}
use arrow_head.Prelude.Sets.{contains}
use arrow_head.Types.{Address, B256, Bytes}
use arrow_head.Flashblocks.{Item, Frame}
use arrow_head.Flashblocks.Parser.{
  FlashblockStats, inc, dedupe_blocks, Key, eq_key, FlashblockParser, ParsedFlashblock,
  FrameOutcome, Identity, Identified, refused, known, identify, sequence_of,
}
use arrow_head.Flashblocks.Intake.{
  Intake, fresh_intake, take_items, finish_frame, state_of, parse_known, parse_identified, parse,
  dropped,
}
use arrow_head.Flashblocks.Window.{IsWindow}
use arrow_head.Flashblocks.Emitted.{IsEmitted, parse-IsEmitted, IsEmitted-IsWindow}
use arrow_head.Flashblocks.Held.{
  holds, AreHeld, AllHeld, IsHeld, take_items-holds, take_items-AllHeld, take_items-seen,
  finish_frame-order,
}

-- The frame, where it is not malformed, is of a block at most 32 blocks ahead.
unfoldable pub IsNear : ℕ → Frame → Type 0
IsNear block v = (id : Identity) → identify v ≡ known id → id.block_number ≤ block + dedupe_blocks

abbrev pub Parsed : Type 0
Parsed = FlashblockParser × (FlashblockStats × ParsedFlashblock)

module _ (keccak : Bytes → B256) (recover : B256 → Bytes → ℕ → Option Address) where
  -- The frames of a connection, each with the instant of its arrival.
  unfoldable pub parse_each :
      List (Frame × ℕ)
      → FlashblockParser
      → FlashblockStats
      → Outcome (FlashblockParser × FlashblockStats)
  parse_each [] p stats = value (p, stats)
  parse_each ((v, now) ∷ vs) p stats =
      parse keccak recover v now p stats >>= λ r. parse_each vs r.0 r.1.0

  -- What the parts of an identified frame come to.
  parse_known-inversion :
      (v : Frame) (id : Identity) (now : ℕ) (p : FlashblockParser) (stats : FlashblockStats)
      (r : Parsed)
      → parse_known keccak recover v id now p stats ≡ value r
      → (counted : FlashblockStats) × (s : Intake) × (o : FrameOutcome) × (take_items keccak recover
            (state_of p v id now)
            id.transactions
            (fresh_intake p counted)
          ≡ value s)
        × (r ≡ finish_frame v id o (state_of p v id now) now p s)
  unfolding parse_known
  parse_known-inversion v id now p stats r h =
      let (s, taken, done) =
        >>=-eq-value (take_items keccak recover (state_of p v id now) id.transactions _) _ r h in
      (_, s, (sequence_of p id v.prev_flashblock_id).0, taken, cc)

  parse_identified-holds :
      (block : ℕ) (key : Key) (v : Frame) (i : Identified) (now : ℕ) (p : FlashblockParser)
      (stats : FlashblockStats) (r : Parsed)
      → ((id : Identity) → i ≡ known id → id.block_number ≤ block + dedupe_blocks)
      → holds block key p.seen_order ≡ true
      → parse_identified keccak recover v i now p stats ≡ value r
      → holds block key r.0.seen_order ≡ true
  unfolding parse_identified
  parse_identified-holds block key v (refused reason) now p stats r near held h =
      let e : dropped reason p stats ≡ r = cc in rw (sym e) held
  parse_identified-holds block key v (known id) now p stats r near held h =
      let (counted, s, o, taken, e) = parse_known-inversion v id now p stats r h in
      rw e (
        finish_frame-order keccak recover block key v id o (state_of p v id now) now p s
          (near id refl)
          (take_items-holds keccak recover block key (state_of p v id now) id.transactions
            (fresh_intake p counted) s taken held))

  parse_each-holds :
      (block : ℕ) (key : Key) (vs : List (Frame × ℕ)) (p q : FlashblockParser)
      (stats stats1 : FlashblockStats)
      → All (λ v. IsNear block v.0) vs
      → holds block key p.seen_order ≡ true
      → parse_each vs p stats ≡ value (q, stats1)
      → holds block key q.seen_order ≡ true
  unfolding parse_each IsNear parse
  parse_each-holds block key [] p q stats stats1 near held h = let e : p ≡ q = cc in rw (sym e) held
  parse_each-holds block key ((v, now) ∷ vs) p q stats stats1 (near, nears) held h =
      let (r, one, rest) = >>=-eq-value (parse keccak recover v now p stats) _ (q, stats1) h in
      parse_each-holds block key vs r.0 q r.1.0 stats1 nears
        (parse_identified-holds block key v (identify v) now p _ r near held one) rest

  parse_each-IsWindow :
      (vs : List (Frame × ℕ)) (p q : FlashblockParser) (stats stats1 : FlashblockStats)
      → IsWindow p.seen p.seen_order
      → parse_each vs p stats ≡ value (q, stats1)
      → IsWindow q.seen q.seen_order
  unfolding parse_each
  parse_each-IsWindow [] p q stats stats1 w h = let e : p ≡ q = cc in rw (sym e) w
  parse_each-IsWindow ((v, now) ∷ vs) p q stats stats1 w h =
      let (r, one, rest) = >>=-eq-value (parse keccak recover v now p stats) _ (q, stats1) h in
      parse_each-IsWindow vs r.0 q r.1.0 stats1
        (kept r (parse-IsEmitted keccak recover v now p stats r w one)) rest
    where
      kept : (r : Parsed) → IsEmitted p r → IsWindow r.0.seen r.0.seen_order
      kept r e = IsEmitted-IsWindow p r e

  AllHeld-map :
      (block : ℕ) (id : B256) (xs ys : List (ℕ × Key)) (items : List Item)
      → ((key : Key) → holds block key xs ≡ true → holds block key ys ≡ true)
      → AllHeld keccak recover block id xs items
      → AllHeld keccak recover block id ys items
  unfolding AllHeld IsHeld
  AllHeld-map block id xs ys [] f h = tt
  AllHeld-map block id xs ys (item ∷ items) f (here, h) =
      (λ d dec. f (id, d.hash) (here d dec), AllHeld-map block id xs ys items f h)

  -- The first delivery of a state puts what decodes from it under its block.
  parse_known-AllHeld :
      (v : Frame) (id : Identity) (now : ℕ) (p : FlashblockParser) (stats : FlashblockStats)
      (r : Parsed)
      → ((h : B256) → contains eq_key (id.state_id, h) p.seen ≡ false)
      → parse_known keccak recover v id now p stats ≡ value r
      → AllHeld keccak recover id.block_number id.state_id r.0.seen_order id.transactions
  unfolding state_of
  parse_known-AllHeld v id now p stats r fresh h =
      let (counted, s, o, taken, e) = parse_known-inversion v id now p stats r h in
      let held =
        take_items-AllHeld keccak recover (state_of p v id now) id.transactions
          (fresh_intake p counted) s taken (none_held counted) in
      rw e (
        AllHeld-map id.block_number id.state_id s.seen_order _ id.transactions
          (λ key.
            finish_frame-order keccak recover id.block_number key v id o (state_of p v id now) now p
              s (omega arith))
          held)
    where
      none_held :
          (counted : FlashblockStats) → AreHeld id.block_number id.state_id (fresh_intake p counted)
      none_held counted = unfold AreHeld in λ h there. let clash = fresh h in cc

  -- An identified frame is parsed as such, with some counters.
  parse-known :
      (v : Frame) (id : Identity) (now : ℕ) (p : FlashblockParser) (stats : FlashblockStats)
      (r : Parsed)
      → identify v ≡ known id
      → parse keccak recover v now p stats ≡ value r
      → (st : FlashblockStats) × (parse_known keccak recover v id now p st ≡ value r)
  unfolding parse parse_identified
  parse-known v id now p stats r identified h =
      (record stats { frames_total = inc stats.frames_total }, rw identified at h)

  -- A delivery of which everything is held gives nothing.
  parse_known-nothing :
      (v : Frame) (id : Identity) (now : ℕ) (p : FlashblockParser) (stats : FlashblockStats)
      (r : Parsed)
      → IsWindow p.seen p.seen_order
      → AllHeld keccak recover id.block_number id.state_id p.seen_order id.transactions
      → parse_known keccak recover v id now p stats ≡ value r
      → r.1.1.txs ≡ []
  unfolding finish_frame state_of
  parse_known-nothing v id now p stats r (same, _) held h =
      let (counted, s, o, taken, e) = parse_known-inversion v id now p stats r h in
      rw e (
        take_items-seen keccak recover (state_of p v id now) id.transactions p.seen_order
          (fresh_intake p counted) s held same taken)

  -- A frame that is delivered again after other frames gives no transaction: from a valid window in
  -- which no key of its state was seen, after the first delivery and any frames of blocks at most 32
  -- ahead of its block, where they all decode without a panic.
  pub parse-redelivered :
      (v : Frame) (id : Identity) (now now1 : ℕ) (vs : List (Frame × ℕ)) (p q : FlashblockParser)
      (stats stats1 : FlashblockStats) (r r1 : Parsed)
      → IsWindow p.seen p.seen_order
      → identify v ≡ known id
      → ((h : B256) → contains eq_key (id.state_id, h) p.seen ≡ false)
      → parse keccak recover v now p stats ≡ value r
      → All (λ w. IsNear id.block_number w.0) vs
      → parse_each vs r.0 r.1.0 ≡ value (q, stats1)
      → parse keccak recover v now1 q stats1 ≡ value r1
      → r1.1.1.txs ≡ []
  parse-redelivered v id now now1 vs p q stats stats1 r r1 window identified fresh one near each
        two =
      let (st, once) = parse-known v id now p stats r identified one in
      let (st1, again) = parse-known v id now1 q stats1 r1 identified two in
      let first = parse_known-AllHeld v id now p st r fresh once in
      let held : AllHeld keccak recover id.block_number id.state_id q.seen_order id.transactions =
        AllHeld-map id.block_number id.state_id r.0.seen_order q.seen_order id.transactions
          (λ key h. parse_each-holds id.block_number key vs r.0 q r.1.0 stats1 near h each) first in
      let window1 =
        parse_each-IsWindow vs r.0 q r.1.0 stats1
          (IsEmitted-IsWindow p r (parse-IsEmitted keccak recover v now p stats r window one))
          each in
      parse_known-nothing v id now1 q st1 r1 window1 held again
