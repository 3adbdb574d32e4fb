-- ===== src/Flashblocks/Tests.antt =====
-- Runs of bot/crates/mev-bot/src/flashblocks.rs on a small feed.
use arrow_head.Prelude.{
  ℕ, ◌+◌, ◌≡◌, ◌≢◌, refl, arith, true, false, Option, none, some, List, [], ◌∷◌, length, inl, inr,
  All,
}
use arrow_head.Prelude.Outcome.{Outcome, value}
use arrow_head.Prelude.Results.{ok}
use arrow_head.Types.{Address, B256, Bytes, Opportunity, Strategy}
use arrow_head.Types.Pending.{PreconfirmedState, is_descendant_of}
use arrow_head.Rlp.{decode_list, take_list, take_span, take_item, decode_u256, decode_u64}
use arrow_head.Envelope.{decode_raw_transaction, decoded_of, legacy_shape, item_at, to_of}
use arrow_head.Flashblocks.{Frame, Item}
use arrow_head.Flashblocks.Parser.{
  FlashblockParser, FlashblockStats, new_parser, Identity, known, identify, FrameOutcome,
  sequence_of,
}
use arrow_head.Flashblocks.Intake.{
  parse, parse_identified, parse_known, take_items, intake_item, finish_frame, admit,
  advance_sequence, evict_before, is_other_block, moves_to, state_of,
}
use arrow_head.Flashblocks.Emitted.{IsEmitted, parse-IsEmitted}
use arrow_head.Flashblocks.Redelivered.{Parsed, IsNear, parse_each, parse-redelivered}
use arrow_head.Flashblocks.Tracker.{
  PreconfirmedTracker, Provenance, new_tracker, check_pin, has_expired, observe_sealed, take_block,
}
use arrow_head.Flashblocks.Pins.{
  frame, sealed, run_events, StaysIn, check_pin-run_events_past, check_pin-run_events_alive,
}
use arrow_head.Flashblocks.Seals.{IsTracked, run_events-IsTracked}
use arrow_head.Flashblocks.Grades.{deliver, observe_sealed-deliver}

abbrev keccak : Bytes → B256
keccak b = length b

abbrev recover : B256 → Bytes → ℕ → Option Address
recover hash sig parity = some (hash + parity)

-- A legacy transaction that creates a contract.
abbrev legacy : Bytes
legacy = 0xc9 ∷ (1 ∷ (2 ∷ (3 ∷ (0x80 ∷ (0x80 ∷ (0x80 ∷ (0x1b ∷ (1 ∷ (1 ∷ [])))))))))

abbrev zero_stats : FlashblockStats
zero_stats = record {
  frames_total = 0;
  frames_malformed = 0;
  blocks_seen = 0;
  txs_total = 0;
  txs_duplicate = 0;
  txs_malformed = 0;
  txs_deposit = 0;
  state_gaps = 0;
  last_frame_ms = 0;
  last_block_number = 0;
  last_index = 0;
}

abbrev frame_at : ℕ → B256 → List Item → Frame
frame_at index id items = record {
  index = some index;
  diff = some (record { block_hash = some id; transactions = items });
  payload_id = some (80 ∷ []);
  meta_block_number = some 100;
  prev_flashblock_id = none;
  base = none;
}

-- A deposit, an object and a transaction.
abbrev items : List Item
items = Item.text (some (0x7e ∷ (1 ∷ []))) ∷ (Item.object ∷ (Item.text (some legacy) ∷ []))

abbrev fresh_parser : FlashblockParser
fresh_parser = new_parser (70 ∷ [])

abbrev stuck : Parsed
stuck = (
  fresh_parser,
  (
    zero_stats,
    record { state = none; txs = []; duplicate_txs = 0; outcome = FrameOutcome.redelivered },
  ),
)

abbrev result_of : Outcome Parsed → Parsed
result_of (value r) = r
result_of _ = stuck

abbrev first : Parsed
first = result_of (parse keccak recover (frame_at 0 7 items) 5 fresh_parser zero_stats)

first_parses : parse keccak recover (frame_at 0 7 items) 5 fresh_parser zero_stats ≡ value first
unfolding parse parse_identified identify parse_known take_items intake_item decode_raw_transaction
    decode_list take_list take_span take_item decoded_of legacy_shape item_at to_of decode_u256
    decode_u64
first_parses = refl

-- The deposit and the object are counted, and the transaction is given.
first_counts :
    (length first.1.1.txs ≡ 1) × (first.1.0.txs_deposit ≡ 1) × (first.1.0.txs_malformed ≡ 1)
unfolding parse parse_identified identify parse_known take_items intake_item finish_frame admit
    advance_sequence evict_before is_other_block moves_to state_of sequence_of
    decode_raw_transaction decode_list take_list take_span take_item decoded_of legacy_shape item_at
    to_of decode_u256 decode_u64
first_counts = (refl, refl, refl)

parse-IsEmitted_example : IsEmitted fresh_parser first
parse-IsEmitted_example =
    parse-IsEmitted keccak recover (frame_at 0 7 items) 5 fresh_parser zero_stats first (refl, tt)
      first_parses

abbrev later : List (Frame × ℕ)
later = (frame_at 1 8 [], 6) ∷ []

abbrev between : Parsed
between = result_of (parse keccak recover (frame_at 1 8 []) 6 first.0 first.1.0)

abbrev again : Parsed
again = result_of (parse keccak recover (frame_at 0 7 items) 9 between.0 between.1.0)

later_parses : parse_each keccak recover later first.0 first.1.0 ≡ value (between.0, between.1.0)
unfolding parse_each parse parse_identified identify parse_known take_items intake_item
later_parses = refl

again_parses : parse keccak recover (frame_at 0 7 items) 9 between.0 between.1.0 ≡ value again
unfolding parse parse_identified identify parse_known take_items intake_item decode_raw_transaction
    decode_list take_list take_span take_item decoded_of legacy_shape item_at to_of decode_u256
    decode_u64
again_parses = refl

abbrev first_id : Identity
first_id = record { index = 0; block_number = 100; state_id = 7; transactions = items }

later-IsNear : All (λ w. IsNear 100 w.0) later
unfolding IsNear identify
later-IsNear = ((λ id h. let e : id.block_number ≡ 100 = cc in omega arith), tt)

first_identified : identify (frame_at 0 7 items) ≡ known first_id
unfolding identify
first_identified = refl

parse-redelivered_example : again.1.1.txs ≡ []
parse-redelivered_example =
    parse-redelivered keccak recover (frame_at 0 7 items) first_id 5 9 later fresh_parser between.0
      zero_stats between.1.0 first again (refl, tt) first_identified (λ h. refl) first_parses
      later-IsNear later_parses again_parses

abbrev state_at : ℕ → ℕ → B256 → PreconfirmedState
state_at block index id = record {
  feed = 70 ∷ [];
  block_number = block;
  flashblock_index = index;
  state_id = id;
  payload_id = block ∷ [];
  prev_frame_id = none;
  parent_hash = none;
  observed_at_ms = 1_000 + index;
  ordered = true;
}

abbrev opp : Opportunity
opp = record {
  id = "o";
  strategy = Strategy.atomic_arb;
  victim_hashes = [];
  front_calls = [];
  back_calls = [];
  flash_tokens = [];
  flash_amounts = [];
  profit_token = 1;
  expected_profit_wei = 5;
  notional_wei = 5;
  target_block = 101;
  created_at_ms = 1_000;
  notes = "";
}

abbrev pinned_at : PreconfirmedState → Provenance
pinned_at pin = record {
  source_state = some pin;
  ttl_ms = some 400;
  requires_foreign_payload = false;
}

abbrev tracker_at : PreconfirmedState → PreconfirmedTracker
tracker_at l = record { latest = some l; by_block = [] }

-- A late frame of the pin's own block comes after one of the next.
check_pin-run_events_past_example :
    check_pin opp (pinned_at (state_at 100 3 7)) 1_100 (
      run_events
        (tracker_at (state_at 101 0 8))
        (frame (state_at 100 4 9) [] ∷ (sealed 100 [] 2_000 ∷ [])))
    ≢ ok tt
check_pin-run_events_past_example =
    check_pin-run_events_past (state_at 100 3 7) (tracker_at (state_at 101 0 8)) (state_at 101 0 8)
      (frame (state_at 100 4 9) [] ∷ (sealed 100 [] 2_000 ∷ [])) opp (pinned_at (state_at 100 3 7))
      1_100 refl (omega arith) refl

check_pin-run_events_alive_example :
    check_pin opp (pinned_at (state_at 100 3 7)) 1_100 (
      run_events
        (tracker_at (state_at 100 3 7))
        (frame (state_at 100 4 9) [] ∷ (frame (state_at 99 8 6) [] ∷ (sealed 99 [] 2_000 ∷ []))))
    ≡ ok tt
unfolding StaysIn has_expired is_descendant_of
check_pin-run_events_alive_example =
    check_pin-run_events_alive (state_at 100 3 7) (tracker_at (state_at 100 3 7))
      (frame (state_at 100 4 9) [] ∷ (frame (state_at 99 8 6) [] ∷ (sealed 99 [] 2_000 ∷ []))) opp
      (pinned_at (state_at 100 3 7)) 1_100 refl (inl refl, (inr (omega arith), (tt, tt))) refl refl

run_events-IsTracked_example : IsTracked (
    run_events new_tracker
      (frame (state_at 100 0 7) (1 ∷ []) ∷ (frame (state_at 101 0 8) (2 ∷ []) ∷ [])))
unfolding IsTracked
run_events-IsTracked_example =
    run_events-IsTracked new_tracker
      (frame (state_at 100 0 7) (1 ∷ []) ∷ (frame (state_at 101 0 8) (2 ∷ []) ∷ []))
      (tt, omega arith)

-- Two frames, and the first of them again.
observe_sealed-deliver_example :
    (observe_sealed
      (deliver
        (deliver new_tracker ((state_at 100 0 7, 1 ∷ []) ∷ ((state_at 100 1 8, 2 ∷ (3 ∷ [])) ∷ [])))
        ((state_at 100 0 7, 1 ∷ []) ∷ []))
      100
      (1 ∷ (2 ∷ (3 ∷ [])))
      1_500).1
    ≡ some (true, 499)
unfolding IsTracked take_block
observe_sealed-deliver_example =
    observe_sealed-deliver new_tracker 100 (state_at 100 0 7, 1 ∷ [])
      ((state_at 100 1 8, 2 ∷ (3 ∷ [])) ∷ []) ((state_at 100 0 7, 1 ∷ []) ∷ []) (1 ∷ (2 ∷ (3 ∷ [])))
      1_500 (tt, omega arith) (omega arith) refl (refl, (refl, tt), (refl, tt, tt))
      ((refl, refl), tt)
