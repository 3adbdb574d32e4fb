-- ===== src/Flashblocks/Parser.antt =====
-- `FlashblockParser` of bot/crates/mev-bot/src/flashblocks.rs, with the counters of its feed, which
-- the connection loop always passes. The instants that one call reads are taken to be one.
use arrow_head.Prelude.{
  ℕ, ◌+◌, ◌%◌, Bool, false, Option, none, some, List, [], ◌∷◌, leb, ◌==◌, not, ◌&&◌, ◌||◌,
  if◌then◌else◌, u64_mod,
}
use arrow_head.Types.{B256}
use arrow_head.Types.Pending.{Text, PreconfirmedState, PendingTx}
use arrow_head.Flashblocks.{Item, Diff, Base, Frame, sequence_gap}

pub record FlashblockStats : Type 0 where
  pub frames_total : ℕ
  pub frames_malformed : ℕ
  pub blocks_seen : ℕ
  pub txs_total : ℕ
  pub txs_duplicate : ℕ
  pub txs_malformed : ℕ
  pub txs_deposit : ℕ
  pub state_gaps : ℕ
  pub last_frame_ms : ℕ
  pub last_block_number : ℕ
  pub last_index : ℕ

-- `inc!`
abbrev pub inc : ℕ → ℕ
inc n = (n + 1) % u64_mod

abbrev pub dedupe_blocks : ℕ
dedupe_blocks = 32

-- The state identity and the hash of a transaction.
abbrev pub Key : Type 0
Key = B256 × B256

abbrev pub eq_key : Key → Key → Bool
eq_key (s, h) (t, i) = (s == t) && (h == i)

pub record FlashblockParser : Type 0 where
  pub feed : Text
  pub last_frame : Option (ℕ × ℕ)
  pub last_payload : Option Text
  pub last_parent_hash : Option B256
  pub seen : List Key
  pub seen_order : List (ℕ × Key)

abbrev pub new_parser : Text → FlashblockParser
new_parser feed = record {
  feed = feed;
  last_frame = none;
  last_payload = none;
  last_parent_hash = none;
  seen = [];
  seen_order = [];
}

pub data Malformed : Type 0 where
  no_index no_diff no_block_hash disagreement no_block_number : Malformed

pub data FrameOutcome : Type 0 where
  new_block continuation redelivered : FrameOutcome
  malformed : Malformed → FrameOutcome

pub record ParsedFlashblock : Type 0 where
  pub state : Option PreconfirmedState
  pub txs : List PendingTx
  pub duplicate_txs : ℕ
  pub outcome : FrameOutcome

-- What identifies a frame that is not malformed.
pub record Identity : Type 0 where
  pub index : ℕ
  pub block_number : ℕ
  pub state_id : B256
  pub transactions : List Item

pub data Identified : Type 0 where
  refused : Malformed → Identified
  known : Identity → Identified

abbrev positive : Option ℕ → Option ℕ
positive none = none
positive (some b) = if b == 0 then none else some b

-- `base.block_number`, where it is above zero.
abbrev base_number : Option Base → Option ℕ
base_number none = none
base_number (some b) = positive b.block_number

abbrev numbered : ℕ → B256 → List Item → Option ℕ → Option ℕ → Identified
numbered index id txs (some m) (some b) =
    if m == b
    then known (record { index = index; block_number = m; state_id = id; transactions = txs })
    else refused Malformed.disagreement
numbered index id txs (some m) none =
    known (record { index = index; block_number = m; state_id = id; transactions = txs })
numbered index id txs none (some b) =
    known (record { index = index; block_number = b; state_id = id; transactions = txs })
numbered index id txs none none = refused Malformed.no_block_number

abbrev hashed : ℕ → List Item → Option B256 → Option ℕ → Option ℕ → Identified
hashed index txs none meta base = refused Malformed.no_block_hash
hashed index txs (some id) meta base = numbered index id txs meta base

abbrev with_diff : ℕ → Option Diff → Option ℕ → Option ℕ → Identified
with_diff index none meta base = refused Malformed.no_diff
with_diff index (some d) meta base = hashed index d.transactions d.block_hash meta base

abbrev with_index : Option ℕ → Option Diff → Option ℕ → Option ℕ → Identified
with_index none diff meta base = refused Malformed.no_index
with_index (some index) diff meta base = with_diff index diff meta base

-- The tests at the head of `parse`, in their order.
unfoldable pub identify : Frame → Identified
identify v = with_index v.index v.diff v.meta_block_number (base_number v.base)

-- Whether an entry of the window is of the block and the state.
abbrev any_of_state : ℕ → B256 → List (ℕ × Key) → Bool
any_of_state block id [] = false
any_of_state block id ((b, (s, _)) ∷ order) =
    ((b == block) && (s == id)) || any_of_state block id order

unfoldable pub state_id_is_duplicate : FlashblockParser → ℕ → ℕ → B256 → Bool
state_id_is_duplicate parser block index id = at_last parser.last_frame
  where
    at_last : Option (ℕ × ℕ) → Bool
    at_last none = false
    at_last (some (b, i)) =
        ((b == block) && (i == index)) && (any_of_state block id parser.seen_order && leb index i)

-- The outcome of a frame, and whether it is counted as a gap.
unfoldable pub sequence_of : FlashblockParser → Identity → Option Text → FrameOutcome × Bool
sequence_of parser id link = after parser.last_frame
  where
    after : Option (ℕ × ℕ) → FrameOutcome × Bool
    after none = (FrameOutcome.new_block, not (id.index == 0))
    after (some (lb, li)) =
        if state_id_is_duplicate parser id.block_number id.index id.state_id
        then (FrameOutcome.redelivered, false)
        else (
          if id.block_number == lb then FrameOutcome.continuation else FrameOutcome.new_block,
          sequence_gap id.block_number id.index link lb li,
        )
