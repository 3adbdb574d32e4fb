-- ===== src/RiskEngine/KillSwitch.antt =====
-- The drawdown kill switch over the life of a process, and across a restart.
use arrow_head.Prelude.{
  ℕ, ◌+◌, ◌<◌, ◌≡◌, ◌≢◌, ◌↔◌, ◌⊎◌, inl, inr, refl, ap, ◌∙◌, Bool, true, false, some, List, [], ◌∷◌,
  arith, min,
}
use arrow_head.Prelude.Int.{ℤ, pos_part, neg_part, ◌+ℤ◌, wrap_i128, i128_max}
use arrow_head.Prelude.Results.{err}
use arrow_head.Types.{Strategy, Opportunity, SimulationResult}
use arrow_head.RuntimeRisk.{RuntimeRisk}
use arrow_head.RiskEngine.{
  RiskEngine, PersistedRiskState, Reject, check, begin, finish, observe, restore, new, boot,
  is_breach, trip, persist,
}

-- What happens to an engine between two resets. The flag of `observed` says whether the store
-- accepts a write; `patched` is any change of the runtime limits and toggles.
pub data Event : Type 0 where
  begun finished : Strategy → Event
  observed : Bool → SimulationResult → Event
  patched : RuntimeRisk → Event

unfoldable pub step : Event → RiskEngine → RiskEngine
step (Event.begun s) e = begin e s
step (Event.finished s) e = finish e s
step (Event.observed accepted sim) e = observe accepted e sim
step (Event.patched r) e = record e { runtime = r }

unfoldable pub run : List Event → RiskEngine → RiskEngine
run [] e = e
run (v ∷ vs) e = run vs (step v e)

-- A breach of the limit: one is set, and the sum lies below minus the limit (which saturates at
-- the largest `i128`).
abbrev pub Breaches : ℕ → ℤ → Type 0
Breaches limit net = (limit ≢ 0) × (pos_part net + min limit i128_max < neg_part net)

is_breach_iff : (limit : ℕ) (net : ℤ) → (is_breach limit net ≡ true) ↔ Breaches limit net
unfolding is_breach
is_breach_iff limit net = (λ h. ground arith, λ h. ground arith)

trip-tripped :
    (accepted b : Bool) (e : RiskEngine)
    → ((trip accepted b e).tripped ≡ true) ↔ ((e.tripped ≡ true) ⊎ (b ≡ true))
unfolding trip persist
trip-tripped accepted true e = (λ h. inr refl, λ h. ground arith)
trip-tripped accepted false e = (λ h. inl h, λ h. ground arith)

-- After `observe` the switch is tripped exactly when it was before or the new sum breaches the
-- drawdown limit.
pub observe-tripped_iff :
    (accepted : Bool) (e : RiskEngine) (sim : SimulationResult)
    → ((observe accepted e sim).tripped ≡ true) ↔ (
        (e.tripped ≡ true)
        ⊎ Breaches e.runtime.risk.max_drawdown_wei
            (wrap_i128 (e.cumulative_net +ℤ sim.net_profit_wei)))
unfolding observe
observe-tripped_iff accepted e sim =
    let net = wrap_i128 (e.cumulative_net +ℤ sim.net_profit_wei) in
    let limit = e.runtime.risk.max_drawdown_wei in
    let t = trip-tripped accepted (is_breach limit net) (record e { cumulative_net = net }) in
    let b = is_breach_iff limit net in
    (
      λ h. elim (t.0 h) [ inl was ↦ inl was | inr now ↦ inr (b.0 now) ],
      λ h. t.1 (elim h [ inl was ↦ inl was | inr now ↦ inr (b.1 now) ]),
    )

step-tripped : (v : Event) (e : RiskEngine) → e.tripped ≡ true → (step v e).tripped ≡ true
unfolding step
step-tripped (Event.begun s) e h = unfold begin in h
step-tripped (Event.finished s) e h = unfold finish in h
step-tripped (Event.observed accepted sim) e h = (observe-tripped_iff accepted e sim).1 (inl h)
step-tripped (Event.patched r) e h = h

run-tripped : (vs : List Event) (e : RiskEngine) → e.tripped ≡ true → (run vs e).tripped ≡ true
unfolding run
run-tripped [] e h = h
run-tripped (v ∷ vs) e h = run-tripped vs (step v e) (step-tripped v e h)

-- Once the switch is tripped, no event but a reset arms it again, a change of the limits included:
-- the gate rejects every opportunity from then on.
pub run-check_tripped :
    (vs : List Event) (e : RiskEngine) (opp : Opportunity) (base_fee : ℕ)
    → e.tripped ≡ true
    → (check (run vs e) opp base_fee ≡ err Reject.disabled)
      ⊎ (check (run vs e) opp base_fee ≡ err Reject.kill_switch)
unfolding check
run-check_tripped vs e opp base_fee h = ground (arith, run-tripped vs e h)

-- The store says so when the switch is tripped.
abbrev pub IsDurable : RiskEngine → Type 0
IsDurable e =
    e.tripped ≡ true → (st : PersistedRiskState) × (e.store ≡ some st) × (st.tripped ≡ true)

-- The write of an event, where it has one, is accepted.
abbrev pub IsWritten : Event → Type 0
IsWritten (Event.observed accepted sim) = accepted ≡ true
IsWritten _ = Unit {0}

-- A store is attached.
abbrev pub IsAttached : RiskEngine → Type 0
IsAttached e = (st : PersistedRiskState) × (e.store ≡ some st)

trip-again : (accepted b : Bool) (e : RiskEngine) → e.tripped ≡ true → trip accepted b e ≡ e
unfolding trip
trip-again accepted true e h = simp h
trip-again accepted false e h = refl

step-store : (v : Event) (e : RiskEngine) → e.tripped ≡ true → (step v e).store ≡ e.store
unfolding step
step-store (Event.begun s) e h = unfold begin in refl
step-store (Event.finished s) e h = unfold finish in refl
step-store (Event.observed accepted sim) e h =
    let net = wrap_i128 (e.cumulative_net +ℤ sim.net_profit_wei) in
    unfold observe in
    ap (λ r. r.store)
      (trip-again accepted (is_breach e.runtime.risk.max_drawdown_wei net)
        (record e { cumulative_net = net }) h)
step-store (Event.patched r) e h = refl

run-store : (vs : List Event) (e : RiskEngine) → e.tripped ≡ true → (run vs e).store ≡ e.store
unfolding run
run-store [] e h = refl
run-store (v ∷ vs) e h = run-store vs (step v e) (step-tripped v e h) ∙ step-store v e h

-- A process that could not read its row at its start is tripped after any events but a reset, and
-- leaves the row as it was, whatever it loses: the next process that reads the row starts with the
-- switch as it was before.
pub boot-unread :
    (vs : List Event) (before after : RuntimeRisk) (st : PersistedRiskState)
    → ((run vs (boot before st false)).tripped ≡ true)
      × ((row : PersistedRiskState) × ((run vs (boot before st false)).store ≡ some row)
          × ((boot after row true).tripped ≡ st.tripped)
          × ((boot after row true).cumulative_net ≡ st.cumulative_net_wei))
unfolding boot restore new
boot-unread vs before after st =
    let e : RiskEngine = boot before st false in
    (run-tripped vs e refl, (st, run-store vs e refl, refl, refl))
