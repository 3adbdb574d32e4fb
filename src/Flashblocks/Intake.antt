-- ===== src/Flashblocks/Intake.antt =====
-- `FlashblockParser::parse` of bot/crates/mev-bot/src/flashblocks.rs: the transactions of a frame, the
-- window of those that were seen, and the sequence.
use arrow_head.Prelude.{
  ℕ, suc, ◌-◌, Bool, true, false, Option, none, some, List, [], ◌∷◌, ◌++◌, ltb, leb, ◌==◌, not,
  ◌&&◌, ◌||◌, if◌then◌else◌,
}
use arrow_head.Prelude.Outcome.{Outcome, value, absent, panicked, out_of_fuel, ◌>>=◌}
use arrow_head.Prelude.Sets.{contains, remove}
use arrow_head.Types.{Address, B256, Bytes}
use arrow_head.Types.Pending.{Text, PreconfirmedState, PendingTx, TxSource}
use arrow_head.Envelope.{DecodedTx, decode_raw_transaction}
use arrow_head.Flashblocks.{Item, Base, Frame}
use arrow_head.Flashblocks.Parser.{
  FlashblockStats, inc, dedupe_blocks, Key, eq_key, FlashblockParser, Malformed, FrameOutcome,
  ParsedFlashblock, Identity, Identified, refused, known, identify, sequence_of,
}

-- What the loop over the transactions changes.
pub record Intake : Type 0 where
  pub seen : List Key
  pub seen_order : List (ℕ × Key)
  pub stats : FlashblockStats
  pub txs : List PendingTx
  pub dup : ℕ

abbrev pub fresh_intake : FlashblockParser → FlashblockStats → Intake
fresh_intake p stats = record {
  seen = p.seen;
  seen_order = p.seen_order;
  stats = stats;
  txs = [];
  dup = 0;
}

abbrev count_malformed : Intake → Intake
count_malformed s = record s {
  stats = record s.stats { txs_malformed = inc s.stats.txs_malformed };
}

abbrev pub pending_of : PreconfirmedState → Bytes → DecodedTx → ℕ → PendingTx
pending_of state bytes d now_ms = record {
  hash = d.hash;
  from = d.from;
  to = d.to;
  value = d.value;
  gas = d.gas_limit;
  max_fee_per_gas = d.max_fee_per_gas;
  max_priority_fee_per_gas = d.max_priority_fee_per_gas;
  nonce = d.nonce;
  input = d.input;
  raw = some bytes;
  source = TxSource.flashblock;
  mined_at = none;
  preconfirmed = some state;
  seen_at_ms = now_ms;
}

-- A decoded transaction is taken unless its key was seen.
unfoldable pub admit : PreconfirmedState → Bytes → DecodedTx → Intake → Intake
admit state bytes d s =
    let key : Key = (state.state_id, d.hash) in
    if contains eq_key key s.seen
    then record s {
      stats = record s.stats { txs_duplicate = inc s.stats.txs_duplicate };
      dup = suc s.dup;
    }
    else record s {
      seen = s.seen ++ (key ∷ []);
      seen_order = s.seen_order ++ ((state.block_number, key) ∷ []);
      stats = record s.stats { txs_total = inc s.stats.txs_total };
      txs = s.txs ++ (pending_of state bytes d state.observed_at_ms ∷ []);
    }

-- `evict_before`, which stops at the first entry that is not before the block.
unfoldable pub evict_before : ℕ → List (ℕ × Key) → List Key → List (ℕ × Key) × List Key
evict_before min_block [] seen = ([], seen)
evict_before min_block ((b, key) ∷ order) seen =
    let rest = evict_before min_block order (remove eq_key key seen) in
    if leb min_block b then ((b, key) ∷ order, seen) else rest

-- Whether the frame moves the sequence.
unfoldable pub moves_to : Identity → Option (ℕ × ℕ) → Bool
moves_to id none = true
moves_to id (some (lb, li)) = ltb lb id.block_number || ((id.block_number == lb) && ltb li id.index)

unfoldable pub is_other_block : Identity → Option (ℕ × ℕ) → Bool
is_other_block id none = true
is_other_block id (some (lb, li)) = not (lb == id.block_number)

abbrev or_else_hash : Option B256 → Option B256 → Option B256
or_else_hash none other = other
or_else_hash (some h) other = some h

abbrev parent_of : Option Base → Option B256
parent_of none = none
parent_of (some b) = b.parent_hash

abbrev or_empty_text : Option Text → Text
or_empty_text none = []
or_empty_text (some t) = t

abbrev pub is_redelivered : FrameOutcome → Bool
is_redelivered FrameOutcome.redelivered = true
is_redelivered _ = false

-- The sequence tracker behind an accepted frame.
unfoldable pub advance_sequence :
    Frame
    → Identity
    → FrameOutcome
    → FlashblockParser
    → FlashblockStats
    → FlashblockParser × FlashblockStats
advance_sequence v id outcome p stats =
    let moved = moves_to id p.last_frame in
    if is_redelivered outcome then (p, stats) else (
      record p {
        last_frame = if moved then some (id.block_number, id.index) else p.last_frame;
        last_payload = if moved then some (or_empty_text v.payload_id) else p.last_payload;
        last_parent_hash = or_else_hash (parent_of v.base) p.last_parent_hash;
      },
      if moved && is_other_block id p.last_frame
          then record stats { blocks_seen = inc stats.blocks_seen }
          else stats,
    )

unfoldable pub state_of : FlashblockParser → Frame → Identity → ℕ → PreconfirmedState
state_of p v id now_ms = record {
  feed = p.feed;
  block_number = id.block_number;
  flashblock_index = id.index;
  state_id = id.state_id;
  payload_id = or_empty_text v.payload_id;
  prev_frame_id = v.prev_flashblock_id;
  parent_hash = or_else_hash (parent_of v.base) p.last_parent_hash;
  observed_at_ms = now_ms;
  ordered = true;
}

-- `parse` from where the transactions are taken.
unfoldable pub finish_frame :
    Frame
    → Identity
    → FrameOutcome
    → PreconfirmedState
    → ℕ
    → FlashblockParser
    → Intake
    → FlashblockParser × (FlashblockStats × ParsedFlashblock)
finish_frame v id outcome state now_ms p s =
    let (order, seen) = evict_before (id.block_number - dedupe_blocks) s.seen_order s.seen in
    let (p1, stats) =
      advance_sequence v id outcome (record p { seen = seen; seen_order = order }) s.stats in
    (
      p1,
      (
        record stats {
          last_frame_ms = now_ms;
          last_block_number = id.block_number;
          last_index = id.index;
        },
        record { state = some state; txs = s.txs; duplicate_txs = s.dup; outcome = outcome },
      ),
    )

abbrev pub dropped :
    Malformed
    → FlashblockParser
    → FlashblockStats
    → FlashblockParser × (FlashblockStats × ParsedFlashblock)
dropped reason p stats = (
  p,
  (
    record stats { frames_malformed = inc stats.frames_malformed },
    record { state = none; txs = []; duplicate_txs = 0; outcome = FrameOutcome.malformed reason },
  ),
)

module _ (keccak : Bytes → B256) (recover : B256 → Bytes → ℕ → Option Address) where
  abbrev pub admit_raw : PreconfirmedState → Bytes → Outcome DecodedTx → Intake → Outcome Intake
  admit_raw state bytes (value d) s = value (admit state bytes d s)
  admit_raw state bytes absent s = value (count_malformed s)
  admit_raw state bytes panicked s = panicked
  admit_raw state bytes out_of_fuel s = out_of_fuel

  -- One entry of the frame.
  unfoldable pub intake_item : PreconfirmedState → Item → Intake → Outcome Intake
  intake_item state Item.object s = value (count_malformed s)
  intake_item state (Item.text none) s = value (count_malformed s)
  intake_item state (Item.text (some [])) s = value (count_malformed s)
  intake_item state (Item.text (some (kind ∷ rest))) s =
      if kind == 0x7e
      then value (record s { stats = record s.stats { txs_deposit = inc s.stats.txs_deposit } })
      else admit_raw state (kind ∷ rest) (decode_raw_transaction keccak recover (kind ∷ rest)) s

  unfoldable pub take_items : PreconfirmedState → List Item → Intake → Outcome Intake
  take_items state [] s = value s
  take_items state (item ∷ items) s = do s1 ← intake_item state item s; take_items state items s1

  -- An identified frame.
  unfoldable pub parse_known :
      Frame
      → Identity
      → ℕ
      → FlashblockParser
      → FlashblockStats
      → Outcome (FlashblockParser × (FlashblockStats × ParsedFlashblock))
  parse_known v id now_ms p stats =
      let (outcome, gap) = sequence_of p id v.prev_flashblock_id in
      let counted = if gap then record stats { state_gaps = inc stats.state_gaps } else stats in
      let state = state_of p v id now_ms in
      take_items state id.transactions (fresh_intake p counted) >>= λ s1.
      value (finish_frame v id outcome state now_ms p s1)

  unfoldable pub parse_identified :
      Frame
      → Identified
      → ℕ
      → FlashblockParser
      → FlashblockStats
      → Outcome (FlashblockParser × (FlashblockStats × ParsedFlashblock))
  parse_identified v (refused reason) now_ms p stats = value (dropped reason p stats)
  parse_identified v (known id) now_ms p stats = parse_known v id now_ms p stats

  -- `FlashblockParser::parse`
  unfoldable pub parse :
      Frame
      → ℕ
      → FlashblockParser
      → FlashblockStats
      → Outcome (FlashblockParser × (FlashblockStats × ParsedFlashblock))
  parse v now_ms p stats =
      parse_identified v (identify v) now_ms p
        (record stats { frames_total = inc stats.frames_total })
