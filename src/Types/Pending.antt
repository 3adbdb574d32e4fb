-- ===== src/Types/Pending.antt =====
-- Pending transactions and the preconfirmed states they come with, of
-- bot/crates/mev-bot/src/types.rs. A label is the list of its characters' codes.
use arrow_head.Prelude.{
  ℕ, ◌+◌, ◌-◌, ◌%◌, Bool, true, false, Option, none, some, List, [], ◌∷◌, ◌==◌, leb, ◌&&◌, u64_mod,
}
use arrow_head.Prelude.Sets.{eq_list}
use arrow_head.Types.{Address, B256, Bytes}
use Prim.Native.String.{String}

abbrev pub Text : Type 0
Text = List ℕ

pub record MinedAt : Type 0 where
  pub block_number : ℕ
  pub base_fee_per_gas : ℕ

pub record PreconfirmedState : Type 0 where
  pub feed : Text
  pub block_number : ℕ
  pub flashblock_index : ℕ
  pub state_id : B256
  pub payload_id : Text
  pub prev_frame_id : Option Text
  pub parent_hash : Option B256
  pub observed_at_ms : ℕ
  pub ordered : Bool

-- `PreconfirmedState::is_descendant_of`
unfoldable pub is_descendant_of : PreconfirmedState → PreconfirmedState → Bool
is_descendant_of later earlier =
    eq_list later.feed earlier.feed
    && ((later.block_number == earlier.block_number)
        && (leb earlier.flashblock_index later.flashblock_index
            && eq_list later.payload_id earlier.payload_id))

abbrev eq_text? : Option Text → Option Text → Bool
eq_text? none none = true
eq_text? (some a) (some b) = eq_list a b
eq_text? _ _ = false

abbrev eq_hash? : Option B256 → Option B256 → Bool
eq_hash? none none = true
eq_hash? (some a) (some b) = a == b
eq_hash? _ _ = false

abbrev eq_flag : Bool → Bool → Bool
eq_flag true true = true
eq_flag false false = true
eq_flag _ _ = false

-- The derived `PartialEq` of `PreconfirmedState`.
unfoldable pub state_eq : PreconfirmedState → PreconfirmedState → Bool
state_eq a b =
    eq_list a.feed b.feed
    && ((a.block_number == b.block_number)
        && ((a.flashblock_index == b.flashblock_index)
            && ((a.state_id == b.state_id)
                && (eq_list a.payload_id b.payload_id
                    && (eq_text? a.prev_frame_id b.prev_frame_id
                        && (eq_hash? a.parent_hash b.parent_hash
                            && ((a.observed_at_ms == b.observed_at_ms)
                                && eq_flag a.ordered b.ordered)))))))

pub data TxSource : Type 0 where
  public_mempool mev_share sequencer flashblock external_stream mev_blocker : TxSource
  relay_delivered mined : TxSource

-- `TxSource::as_str`
unfoldable pub source_str : TxSource → String
source_str TxSource.public_mempool = "public_mempool"
source_str TxSource.mev_share = "mev_share"
source_str TxSource.sequencer = "sequencer"
source_str TxSource.flashblock = "flashblock"
source_str TxSource.external_stream = "external_stream"
source_str TxSource.mev_blocker = "mev_blocker"
source_str TxSource.relay_delivered = "bloxroute_relay"
source_str TxSource.mined = "mined"

-- `TxSource::backrun_only`
unfoldable pub backrun_only : TxSource → Bool
backrun_only TxSource.mev_blocker = true
backrun_only TxSource.mev_share = true
backrun_only TxSource.sequencer = true
backrun_only TxSource.flashblock = true
backrun_only _ = false

pub record BlockHead : Type 0 where
  pub number : ℕ
  pub hash : B256
  pub parent_hash : B256
  pub timestamp : ℕ
  pub base_fee_per_gas : ℕ
  pub gas_used : ℕ
  pub gas_limit : ℕ

pub record PendingTx : Type 0 where
  pub hash : B256
  pub from : Option Address
  pub to : Option Address
  pub value : ℕ
  pub gas : ℕ
  pub max_fee_per_gas : ℕ
  pub max_priority_fee_per_gas : ℕ
  pub nonce : ℕ
  pub input : Bytes
  pub raw : Option Bytes
  pub source : TxSource
  pub mined_at : Option MinedAt
  pub preconfirmed : Option PreconfirmedState
  pub seen_at_ms : ℕ

-- `PendingTx::selector`
unfoldable pub selector : PendingTx → Option Bytes
selector tx = first_four tx.input
  where
    first_four : Bytes → Option Bytes
    first_four (a ∷ (b ∷ (c ∷ (d ∷ _)))) = some (a ∷ (b ∷ (c ∷ (d ∷ []))))
    first_four _ = none

abbrev is_mined : Option MinedAt → Bool
is_mined none = false
is_mined (some _) = true

unfoldable pub is_replay : PendingTx → Bool
is_replay tx = is_mined tx.mined_at

abbrev parent_or : ℕ → Option MinedAt → ℕ
parent_or head none = head
parent_or head (some m) = m.block_number - 1

unfoldable pub state_block : PendingTx → BlockHead → ℕ
state_block tx head = parent_or head.number tx.mined_at

abbrev target_or : ℕ → Option MinedAt → ℕ
target_or ahead none = ahead
target_or ahead (some m) = m.block_number

unfoldable pub target_block_of : PendingTx → BlockHead → ℕ → ℕ
target_block_of tx head offset = target_or ((head.number + offset) % u64_mod) tx.mined_at

abbrev fee_or : ℕ → Option MinedAt → ℕ
fee_or fee none = fee
fee_or fee (some m) = m.base_fee_per_gas

unfoldable pub base_fee_of : PendingTx → BlockHead → ℕ
base_fee_of tx head = fee_or head.base_fee_per_gas tx.mined_at
