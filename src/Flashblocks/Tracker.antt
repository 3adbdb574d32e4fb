-- ===== src/Flashblocks/Tracker.antt =====
-- `PreconfirmedTracker` and `check_pin` of bot/crates/mev-bot/src/flashblocks.rs. A `BTreeMap` is
-- the list of its entries in the order of their keys. Each method returns the tracker it leaves.
use arrow_head.Prelude.{
  ℕ, suc, ◌-◌, max, Bool, true, false, Option, none, some, List, [], ◌∷◌, ◌++◌, length, ltb, leb,
  ◌==◌, ◌&&◌, ◌||◌, if◌then◌else◌, u64_mod, saturating_add,
}
use arrow_head.Prelude.Results.{Result, ok, err}
use arrow_head.Prelude.Sets.{eq_list}
use arrow_head.Types.{B256, Opportunity}
use arrow_head.Types.Pending.{PreconfirmedState, is_descendant_of, state_eq}

pub record TrackedFrame : Type 0 where
  pub index : ℕ
  pub state_id : B256
  pub observed_at_ms : ℕ
  pub tx_hashes : List B256

abbrev pub tracked_blocks : ℕ
tracked_blocks = 48

pub record PreconfirmedTracker : Type 0 where
  pub latest : Option PreconfirmedState
  pub by_block : List (ℕ × List TrackedFrame)

abbrev pub new_tracker : PreconfirmedTracker
new_tracker = record { latest = none; by_block = [] }

-- Whether a frame moves `latest`.
unfoldable pub advances : PreconfirmedState → Option PreconfirmedState → Bool
advances state none = true
advances state (some l) =
    ltb l.block_number state.block_number
    || ((state.block_number == l.block_number) && ltb l.flashblock_index state.flashblock_index)

unfoldable pub has_frame : PreconfirmedState → List TrackedFrame → Bool
has_frame state [] = false
has_frame state (f ∷ frames) =
    ((f.index == state.flashblock_index) && (f.state_id == state.state_id))
    || has_frame state frames

unfoldable pub push_frame : PreconfirmedState → List B256 → List TrackedFrame → List TrackedFrame
push_frame state tx_hashes frames =
    if has_frame state frames
    then frames
    else frames
      ++ (record {
        index = state.flashblock_index;
        state_id = state.state_id;
        observed_at_ms = state.observed_at_ms;
        tx_hashes = tx_hashes;
      }
          ∷ [])

-- `by_block.entry(block).or_default()`, changed by `f`.
unfoldable pub with_entry :
    ℕ
    → (List TrackedFrame → List TrackedFrame)
    → List (ℕ × List TrackedFrame)
    → List (ℕ × List TrackedFrame)
with_entry block f [] = (block, f []) ∷ []
with_entry block f ((k, frames) ∷ m) =
    let rest = with_entry block f m in
    if block == k
    then (k, f frames) ∷ m
    else if ltb block k
    then (block, f []) ∷ ((k, frames) ∷ m)
    else (k, frames) ∷ rest

-- The loop that removes the oldest blocks.
unfoldable pub trim : List (ℕ × List TrackedFrame) → List (ℕ × List TrackedFrame)
trim [] = []
trim (x ∷ m) = let rest = trim m in if ltb tracked_blocks (suc (length m)) then rest else x ∷ m

unfoldable pub observe_frame :
    PreconfirmedTracker → PreconfirmedState → List B256 → PreconfirmedTracker
observe_frame t state tx_hashes = record {
  latest = if advances state t.latest then some state else t.latest;
  by_block = trim (with_entry state.block_number (push_frame state tx_hashes) t.by_block);
}

unfoldable pub pinned_is_current : PreconfirmedTracker → PreconfirmedState → Bool
pinned_is_current t pinned = current_of t.latest
  where
    current_of : Option PreconfirmedState → Bool
    current_of none = false
    current_of (some l) = is_descendant_of l pinned || state_eq l pinned

-- The frames that `by_block.remove(&block)` takes out, and the map without them.
unfoldable pub take_block :
    ℕ → List (ℕ × List TrackedFrame) → Option (List TrackedFrame) × List (ℕ × List TrackedFrame)
take_block block [] = (none, [])
take_block block ((k, frames) ∷ m) =
    let (found, rest) = take_block block m in
    if k == block then (some frames, m) else (found, (k, frames) ∷ rest)

unfoldable pub cumulative : List TrackedFrame → List B256
cumulative [] = []
cumulative (f ∷ frames) = f.tx_hashes ++ cumulative frames

unfoldable pub newest : List TrackedFrame → ℕ
newest [] = 0
newest (f ∷ frames) = max f.observed_at_ms (newest frames)

unfoldable pub grade : List B256 → ℕ → Option (List TrackedFrame) → Option (Bool × ℕ)
grade canonical sealed_at_ms none = none
grade canonical sealed_at_ms (some frames) =
    some (eq_list (cumulative frames) canonical, sealed_at_ms - newest frames)

unfoldable pub observe_sealed :
    PreconfirmedTracker → ℕ → List B256 → ℕ → PreconfirmedTracker × Option (Bool × ℕ)
observe_sealed t block canonical sealed_at_ms =
    let (found, rest) = take_block block t.by_block in
    (record t { by_block = rest }, grade canonical sealed_at_ms found)

-- The fields of `Provenance` that the pin reads; it is a field of the source's `Opportunity`.
pub record Provenance : Type 0 where
  pub source_state : Option PreconfirmedState
  pub ttl_ms : Option ℕ
  pub requires_foreign_payload : Bool

pub data PinReject : Type 0 where
  ttl_expired state_superseded : PinReject

unfoldable pub has_expired : ℕ → ℕ → Option ℕ → Bool
has_expired created_at_ms now_ms none = false
has_expired created_at_ms now_ms (some ttl) = leb (saturating_add u64_mod created_at_ms ttl) now_ms

unfoldable pub check_pin :
    Opportunity → Provenance → ℕ → PreconfirmedTracker → Result PinReject (Unit {0})
check_pin opp provenance now_ms t = check_of provenance.source_state
  where
    check_of : Option PreconfirmedState → Result PinReject (Unit {0})
    check_of none = ok tt
    check_of (some pin) =
        if has_expired opp.created_at_ms now_ms provenance.ttl_ms
        then err PinReject.ttl_expired
        else if pinned_is_current t pin
        then ok tt
        else err PinReject.state_superseded

unfoldable pub raw_transportable : Provenance → Bool
raw_transportable provenance = if provenance.requires_foreign_payload then false else true
