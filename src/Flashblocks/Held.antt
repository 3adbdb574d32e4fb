-- ===== src/Flashblocks/Held.antt =====
-- What the queue of seen keys of bot/crates/mev-bot/src/flashblocks.rs holds.
use arrow_head.Prelude.{
  ℕ, ◌+◌, ◌-◌, ◌≤◌, ◌≡◌, inl, inr, refl, sym, arith, Bool, true, false, Option, List, [], ◌∷◌, ◌++◌,
  leb, ◌==◌, ◌&&◌, ◌||◌, All, Bool-cases, ap, ◌∙◌,
}
use arrow_head.Prelude.Outcome.{value, >>=-eq-value}
use arrow_head.Prelude.Sets.{contains, remove, contains-append}
use arrow_head.Types.{Address, B256, Bytes}
use arrow_head.Types.Pending.{PreconfirmedState}
use arrow_head.Envelope.{DecodedTx}
use arrow_head.Flashblocks.{Item, Frame}
use arrow_head.Flashblocks.Parser.{
  dedupe_blocks, Key, eq_key, FlashblockParser, FrameOutcome, Identity,
}
use arrow_head.Flashblocks.Intake.{
  Intake, admit, intake_item, take_items, evict_before, finish_frame,
}
use arrow_head.Flashblocks.Window.{tagged, eq_key_refl}
use arrow_head.Flashblocks.Taken.{Decodes, IsTaken, IsSame, intake_item-IsTaken}
use arrow_head.Flashblocks.Emitted.{advance_sequence-seen}

-- The queue holds the key under the block.
abbrev pub holds : ℕ → Key → List (ℕ × Key) → Bool
holds block key [] = false
holds block key ((b, k) ∷ order) = ((b == block) && eq_key key k) || holds block key order

holds-append :
    (block : ℕ) (key : Key) (xs ys : List (ℕ × Key))
    → holds block key xs ≡ true
    → holds block key (xs ++ ys) ≡ true
holds-append block key [] ys h = cc
holds-append block key ((b, k) ∷ xs) ys h = elim (Bool-cases ((b == block) && eq_key key k)) [
  | inl here ↦ rw here refl
  | inr there ↦ rw there (holds-append block key xs ys (rw there at h))
]

holds-snoc :
    (block : ℕ) (key : Key) (xs : List (ℕ × Key))
    → holds block key (xs ++ ((block, key) ∷ [])) ≡ true
holds-snoc block key [] =
    let same : (block == block) ≡ true = ground arith in rw (same, eq_key_refl key) refl
holds-snoc block key ((b, k) ∷ xs) = rw (holds-snoc block key xs) (ground arith)

-- What the queue holds is in the set.
holds-contains :
    (block : ℕ) (key : Key) (order : List (ℕ × Key))
    → holds block key order ≡ true
    → contains eq_key key (tagged order) ≡ true
holds-contains block key [] h = cc
holds-contains block key ((b, k) ∷ order) h = elim (Bool-cases (eq_key key k)) [
  | inl same ↦ rw same refl
  | inr apart ↦ rw apart (holds-contains block key order (later apart h))
]
  where
    later :
        eq_key key k ≡ false
        → holds block key ((b, k) ∷ order) ≡ true
        → holds block key order ≡ true
    later apart h = elim (Bool-cases (b == block)) [
      | inl t ↦ rw (t, apart) at h
      | inr t ↦ rw t at h
    ]

-- Eviction leaves what is under a block that is not before its bound.
evict_before-holds :
    (block : ℕ) (key : Key) (min_block : ℕ) (order : List (ℕ × Key)) (seen : List Key)
    → min_block ≤ block
    → holds block key order ≡ true
    → holds block key (evict_before min_block order seen).0 ≡ true
unfolding evict_before
evict_before-holds block key min_block [] seen le h = h
evict_before-holds block key min_block ((b, k) ∷ order) seen le h =
    elim (Bool-cases (leb min_block b)) [
      | inl stay ↦ rw stay h
      | inr go ↦
          let other : (b == block) ≡ false = ground arith in
          rw go
            (evict_before-holds block key min_block order (remove eq_key k seen) le (rw other at h))
    ]

-- Every key of the state that is seen is held under the block.
unfoldable pub AreHeld : ℕ → B256 → Intake → Type 0
AreHeld block id s =
    (h : B256) → contains eq_key (id, h) s.seen ≡ true → holds block (id, h) s.seen_order ≡ true

admit-AreHeld :
    (state : PreconfirmedState) (bytes : Bytes) (d : DecodedTx) (s : Intake)
    → AreHeld state.block_number state.state_id s
    → AreHeld state.block_number state.state_id (admit state bytes d s)
      × (holds state.block_number (state.state_id, d.hash) (admit state bytes d s).seen_order
          ≡ true)
unfolding admit AreHeld
admit-AreHeld state bytes d s held =
    let key : Key = (state.state_id, d.hash) in
    elim (Bool-cases (contains eq_key key s.seen)) [
      | inl old ↦ rw old (held, held d.hash old)
      | inr new ↦ rw new (
        λ h there. elim (Bool-cases (contains eq_key (state.state_id, h) s.seen)) [
          | inl was ↦
              holds-append state.block_number (state.state_id, h) s.seen_order _ (held h was)
          | inr fresh ↦
              let last : (contains eq_key (state.state_id, h) s.seen
                    || (eq_key (state.state_id, h) key || false))
                  ≡ true =
                rw (contains-append eq_key (state.state_id, h) s.seen (key ∷ [])) at there in
              let same : h ≡ d.hash = ground arith in
              rw same (holds-snoc state.block_number key s.seen_order)
        ],
        holds-snoc state.block_number key s.seen_order,
      )
    ]

admit-holds :
    (block : ℕ) (key : Key) (state : PreconfirmedState) (bytes : Bytes) (d : DecodedTx) (s : Intake)
    → holds block key s.seen_order ≡ true
    → holds block key (admit state bytes d s).seen_order ≡ true
unfolding admit
admit-holds block key state bytes d s h =
    elim (Bool-cases (contains eq_key (state.state_id, d.hash) s.seen)) [
      | inl old ↦ rw old h
      | inr new ↦ rw new (holds-append block key s.seen_order _ h)
    ]

module _ (keccak : Bytes → B256) (recover : B256 → Bytes → ℕ → Option Address) where
  taken-holds :
      (block : ℕ) (key : Key) (state : PreconfirmedState) (item : Item) (s t : Intake)
      → IsTaken keccak recover state item s t
      → holds block key s.seen_order ≡ true
      → holds block key t.seen_order ≡ true
  unfolding IsTaken IsSame
  taken-holds block key state item s t (inl ((_, e, _), _)) h = rw e h
  taken-holds block key state item s t (inr (bytes, d, _, e)) h =
      rw e (admit-holds block key state bytes d s h)

  pub take_items-holds :
      (block : ℕ) (key : Key) (state : PreconfirmedState) (items : List Item) (s t : Intake)
      → take_items keccak recover state items s ≡ value t
      → holds block key s.seen_order ≡ true
      → holds block key t.seen_order ≡ true
  unfolding take_items
  take_items-holds block key state [] s t h k = let e : s ≡ t = cc in rw (sym e) k
  take_items-holds block key state (item ∷ items) s t h k =
      let (u, taken, rest) = >>=-eq-value (intake_item keccak recover state item s) _ t h in
      take_items-holds block key state items u t rest (
        taken-holds block key state item s u
          (intake_item-IsTaken keccak recover state item s u taken) k)

  -- What decodes from the entry is held under the block.
  unfoldable pub IsHeld : ℕ → B256 → List (ℕ × Key) → Item → Type 0
  IsHeld block id order item =
      (d : DecodedTx) → Decodes keccak recover item d → holds block (id, d.hash) order ≡ true

  Decodes-hash :
      (item : Item) (g d : DecodedTx)
      → Decodes keccak recover item g
      → Decodes keccak recover item d
      → g.hash ≡ d.hash
  unfolding Decodes
  Decodes-hash item g d (k, r, shape, _, dec) (l, q, shape1, _, dec1) =
      let kinds : k ≡ l = cc in
      let rests : r ≡ q = cc in let same : g ≡ d = cc in ap (λ t. t.hash) same

  -- An entry whose key is seen changes nothing but the counters.
  seen_again :
      (state : PreconfirmedState) (item : Item) (order : List (ℕ × Key)) (s t : Intake)
      → IsHeld state.block_number state.state_id order item
      → s.seen ≡ tagged order
      → IsTaken keccak recover state item s t
      → (t.seen ≡ s.seen) × (t.txs ≡ s.txs)
  unfolding IsTaken IsSame IsHeld admit
  seen_again state item order s t here e (inl ((e1, _, e3), _)) = (e1, e3)
  seen_again state item order s t here e (inr (bytes, d, dec, same)) =
      let old : contains eq_key (state.state_id, d.hash) s.seen ≡ true =
        rw e (holds-contains state.block_number (state.state_id, d.hash) order (here d dec)) in
      rw same (rw old (refl, refl))

  taken-AreHeld :
      (state : PreconfirmedState) (item : Item) (s t : Intake)
      → IsTaken keccak recover state item s t
      → AreHeld state.block_number state.state_id s
      → AreHeld state.block_number state.state_id t
        × IsHeld state.block_number state.state_id t.seen_order item
  unfolding IsTaken IsHeld IsSame
  taken-AreHeld state item s t (inl ((e1, e2, _), not_one)) held =
      (unfold AreHeld in rw (e1, e2) held, λ d dec. elim (not_one d dec) [ ])
  taken-AreHeld state item s t (inr (bytes, d, dec, e)) held =
      let (all, here) = admit-AreHeld state bytes d s held in
      rw e (all, λ g other. rw (Decodes-hash item g d other dec) here)

  -- A loop over the entries holds them all.
  unfoldable pub AllHeld : ℕ → B256 → List (ℕ × Key) → List Item → Type 0
  AllHeld block id order items = All (IsHeld block id order) items

  pub take_items-AllHeld :
      (state : PreconfirmedState) (items : List Item) (s t : Intake)
      → take_items keccak recover state items s ≡ value t
      → AreHeld state.block_number state.state_id s
      → AllHeld state.block_number state.state_id t.seen_order items
  unfolding take_items AllHeld IsHeld
  take_items-AllHeld state [] s t h held = tt
  take_items-AllHeld state (item ∷ items) s t h held =
      let (u, taken, rest) = >>=-eq-value (intake_item keccak recover state item s) _ t h in
      let (held1, here) =
        taken-AreHeld state item s u (intake_item-IsTaken keccak recover state item s u taken)
          held in
      (
        λ d dec.
            take_items-holds state.block_number (state.state_id, d.hash) state items u t rest
              (here d dec),
        take_items-AllHeld state items u t rest held1,
      )

  -- A second loop over entries that are all seen gives nothing.
  pub take_items-seen :
      (state : PreconfirmedState) (items : List Item) (order : List (ℕ × Key)) (s t : Intake)
      → AllHeld state.block_number state.state_id order items
      → s.seen ≡ tagged order
      → take_items keccak recover state items s ≡ value t
      → t.txs ≡ s.txs
  unfolding take_items AllHeld IsHeld
  take_items-seen state [] order s t held e h = let same : s ≡ t = cc in rw same refl
  take_items-seen state (item ∷ items) order s t (here, held) e h =
      let (u, taken, rest) = >>=-eq-value (intake_item keccak recover state item s) _ t h in
      let (seen, txs) =
        seen_again state item order s u here e
          (intake_item-IsTaken keccak recover state item s u taken) in
      take_items-seen state items order u t held (seen ∙ e) rest ∙ txs

  pub finish_frame-order :
      (block : ℕ) (key : Key) (v : Frame) (id : Identity) (o : FrameOutcome)
      (state : PreconfirmedState) (now : ℕ) (p : FlashblockParser) (s : Intake)
      → id.block_number ≤ block + dedupe_blocks
      → holds block key s.seen_order ≡ true
      → holds block key (finish_frame v id o state now p s).0.seen_order ≡ true
  unfolding finish_frame
  finish_frame-order block key v id o state now p s le h =
      let evicted = evict_before (id.block_number - dedupe_blocks) s.seen_order s.seen in
      let (_, e) =
        advance_sequence-seen v id o (record p { seen = evicted.1; seen_order = evicted.0 })
          s.stats in
      rw e (
        evict_before-holds block key (id.block_number - dedupe_blocks) s.seen_order s.seen
          (omega arith) h)
