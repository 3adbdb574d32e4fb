-- ===== src/Flashblocks/Pins.antt =====
-- How long the pins of bot/crates/mev-bot/src/flashblocks.rs live, over any sequence of frames and
-- sealed blocks.
use arrow_head.Prelude.{
  ℕ, ◌<◌, ◌≡◌, ◌≢◌, ◌⊎◌, inl, inr, refl, arith, true, false, some, List, [], ◌∷◌, ◌==◌, All,
  Bool-cases,
}
use arrow_head.Prelude.Results.{ok}
use arrow_head.Prelude.Sets.{eq_list_refl}
use arrow_head.Types.{B256, Opportunity}
use arrow_head.Types.Pending.{PreconfirmedState, is_descendant_of, state_eq}
use arrow_head.Flashblocks.Tracker.{
  PreconfirmedTracker, Provenance, advances, observe_frame, observe_sealed, pinned_is_current,
  check_pin, has_expired,
}

pub data Event : Type 0 where
  frame : PreconfirmedState → List B256 → Event
  sealed : ℕ → List B256 → ℕ → Event

unfoldable pub step : PreconfirmedTracker → Event → PreconfirmedTracker
step t (frame state tx_hashes) = observe_frame t state tx_hashes
step t (sealed block canonical at_ms) = (observe_sealed t block canonical at_ms).0

unfoldable pub run_events : PreconfirmedTracker → List Event → PreconfirmedTracker
run_events t [] = t
run_events t (e ∷ es) = run_events (step t e) es

-- The feed is past the block of the pin.
unfoldable pub IsPast : PreconfirmedState → PreconfirmedTracker → Type 0
IsPast pin t = (l : PreconfirmedState) × (t.latest ≡ some l) × (pin.block_number < l.block_number)

step-IsPast :
    (pin : PreconfirmedState) (t : PreconfirmedTracker) (e : Event)
    → IsPast pin t
    → IsPast pin (step t e)
unfolding step IsPast observe_frame observe_sealed advances
step-IsPast pin t (frame state hashes) (l, at, past) = elim (Bool-cases (advances state (some l))) [
  | inl on ↦ (state, rw at (rw on refl), ground arith)
  | inr off ↦ (l, rw at (rw off refl), past)
]
step-IsPast pin t (sealed block canonical at_ms) past = past

run_events-IsPast :
    (pin : PreconfirmedState) (t : PreconfirmedTracker) (es : List Event)
    → IsPast pin t
    → IsPast pin (run_events t es)
unfolding run_events
run_events-IsPast pin t [] past = past
run_events-IsPast pin t (e ∷ es) past =
    run_events-IsPast pin (step t e) es (step-IsPast pin t e past)

past-pinned_is_current :
    (pin : PreconfirmedState) (t : PreconfirmedTracker)
    → IsPast pin t
    → pinned_is_current t pin ≡ false
unfolding IsPast pinned_is_current
past-pinned_is_current pin t (l, at, past) =
    let apart : (l.block_number == pin.block_number) ≡ false = ground arith in
    rw at (unfold is_descendant_of state_eq in ground arith)

-- Once the feed has come to a later block than the pin's, no sequence of frames and sealed blocks,
-- in whatever order they arrive, revives the pin: the recheck refuses its candidate at any time.
pub check_pin-run_events_past :
    (pin : PreconfirmedState) (t : PreconfirmedTracker) (l : PreconfirmedState) (es : List Event)
    (opp : Opportunity) (p : Provenance) (now_ms : ℕ)
    → t.latest ≡ some l
    → pin.block_number < l.block_number
    → p.source_state ≡ some pin
    → check_pin opp p now_ms (run_events t es) ≢ ok tt
unfolding check_pin
check_pin-run_events_past pin t l es opp p now_ms at past pinned =
    let late : pinned_is_current (run_events t es) pin ≡ false =
      past-pinned_is_current pin (run_events t es)
        (run_events-IsPast pin t es (unfold IsPast in (l, at, past))) in
    rw (pinned, late)
      (elim (Bool-cases (has_expired opp.created_at_ms now_ms p.ttl_ms)) [
        | inl t1 ↦ rw t1 (λ e. cc)
        | inr t1 ↦ rw t1 (λ e. cc)
      ])

-- A frame of the pin's build that does not come before it, or a frame of an older block.
unfoldable pub StaysIn : PreconfirmedState → Event → Type 0
StaysIn pin (frame state hashes) =
    (is_descendant_of state pin ≡ true) ⊎ (state.block_number < pin.block_number)
StaysIn pin (sealed block canonical at_ms) = Unit {0}

unfoldable IsIn : PreconfirmedState → PreconfirmedTracker → Type 0
IsIn pin t = (l : PreconfirmedState) × (t.latest ≡ some l) × (is_descendant_of l pin ≡ true)

descendant-block :
    (l pin : PreconfirmedState) → is_descendant_of l pin ≡ true → l.block_number ≡ pin.block_number
unfolding is_descendant_of
descendant-block l pin h = ground arith

step-IsIn :
    (pin : PreconfirmedState) (t : PreconfirmedTracker) (e : Event)
    → StaysIn pin e
    → IsIn pin t
    → IsIn pin (step t e)
unfolding step IsIn StaysIn observe_frame observe_sealed advances
step-IsIn pin t (frame state hashes) stays (l, at, inside) =
    elim (Bool-cases (advances state (some l))) [
      | inl on ↦ elim stays [
        | inl next ↦ (state, rw at (rw on refl), next)
        | inr old ↦ let same = descendant-block l pin inside in ground arith
      ]
      | inr off ↦ (l, rw at (rw off refl), inside)
    ]
step-IsIn pin t (sealed block canonical at_ms) stays inside = inside

run_events-IsIn :
    (pin : PreconfirmedState) (t : PreconfirmedTracker) (es : List Event)
    → All (StaysIn pin) es
    → IsIn pin t
    → IsIn pin (run_events t es)
unfolding run_events
run_events-IsIn pin t [] stays inside = inside
run_events-IsIn pin t (e ∷ es) (stay, stays) inside =
    run_events-IsIn pin (step t e) es stays (step-IsIn pin t e stay inside)

-- A pin on the newest state lives as long as the feed stays in its build: after any frames of the
-- same build that are not before the pin, late frames of older blocks and sealed blocks, the recheck
-- lets the candidate pass until its time to live is over.
pub check_pin-run_events_alive :
    (pin : PreconfirmedState) (t : PreconfirmedTracker) (es : List Event) (opp : Opportunity)
    (p : Provenance) (now_ms : ℕ)
    → t.latest ≡ some pin
    → All (StaysIn pin) es
    → p.source_state ≡ some pin
    → has_expired opp.created_at_ms now_ms p.ttl_ms ≡ false
    → check_pin opp p now_ms (run_events t es) ≡ ok tt
unfolding check_pin IsIn
check_pin-run_events_alive pin t es opp p now_ms at stays pinned fresh =
    let self : is_descendant_of pin pin ≡ true =
      unfold is_descendant_of in
      rw (eq_list_refl pin.feed, eq_list_refl pin.payload_id) (ground arith) in
    let (l, found, inside) = run_events-IsIn pin t es stays (pin, at, self) in
    let current : pinned_is_current (run_events t es) pin ≡ true =
      unfold pinned_is_current in rw found (rw inside refl) in
    rw (pinned, fresh, current) refl
