-- ===== src/Qualification/Verdicts.antt =====
-- `evaluate_with_required_hours` and `strategy_passes` of
-- bot/crates/mev-bot/src/qualification.rs. A name of a strategy is the strategy.
use arrow_head.Prelude.{
  ℕ, ◌+◌, ◌-◌, ◌*◌, ◌/◌, ◌%◌, ◌≤◌, ◌<◌, ◌≡◌, ◌↔◌, refl, arith, max, Bool, true, false, Option, none,
  some, List, [], ◌∷◌, length, leb, ◌==◌, ◌&&◌, ◌||◌, if◌then◌else◌, is_empty, Bool-cases, inl, inr,
  u64_mod,
}
use arrow_head.Types.{Strategy, live_candidate, strategy_eq, all}
use arrow_head.Qualification.{
  ObservationCoverage, observed_since, observation_coverage, no_coverage, QualificationConfig,
  QualificationEvidence, Verdict, Reason, StrategyQualification, evaluate_strategy, verdict_of,
  is_sufficient, relay_accuracy, actual_accuracy,
}
use arrow_head.Qualification.Continuity.{elapsed_hours, since_ms, global_reasons}
use arrow_head.Qualification.Windows.{IsSoakedSince, since_ms_lem, global_reasons-IsSoakedSince}

pub record QualificationStatus : Type 0 where
  pub pass : Bool
  pub started_at_ms : ℕ
  pub elapsed_hours : ℕ
  pub required_hours : ℕ
  pub observation_count : ℕ
  pub maximum_observation_gap_secs : ℕ
  pub allowed_observation_gap_secs : ℕ
  pub live_candidate_simulations : ℕ
  pub relay_cross_checks : ℕ
  pub high_confidence_actual_matches : ℕ
  pub persistence_dropped : ℕ
  pub reasons : List Reason
  pub strategies : List StrategyQualification

abbrev is_pass : Verdict → Bool
is_pass Verdict.pass = true
is_pass _ = false

abbrev no_evidence : QualificationEvidence
no_evidence = record { fork_samples = 0; relay_errors_bps = []; actual_errors_bps = [] }

-- `unwrap_or_default`
abbrev pub evidence_or : Option QualificationEvidence → QualificationEvidence
evidence_or none = no_evidence
evidence_or (some e) = e

abbrev coverage_or : Option ObservationCoverage → ObservationCoverage
coverage_or none = no_coverage
coverage_or (some c) = c

unfoldable pub evaluate_each :
    (Strategy → StrategyQualification) → List Strategy → List StrategyQualification
evaluate_each row [] = []
evaluate_each row (s ∷ ss) = row s ∷ evaluate_each row ss

-- The sum of a field over the live candidates.
unfoldable pub sum_live : (StrategyQualification → ℕ) → List StrategyQualification → ℕ
sum_live field [] = 0
sum_live field (r ∷ rows) =
    let rest = sum_live field rows in if r.live_candidate then (field r + rest) % u64_mod else rest

unfoldable pub any_passes : List StrategyQualification → Bool
any_passes [] = false
any_passes (r ∷ rows) = (r.live_candidate && is_pass r.verdict) || any_passes rows

abbrev started_or : ℕ → Option ℕ → ℕ
started_or now none = now
started_or now (some started) = started

-- What the store answers for a window that starts at an instant: the coverage up to now, the
-- incidents and the evidence of each strategy.
pub record Answers : Type 0 where
  pub coverage : ℕ → Option ObservationCoverage
  pub incidents : ℕ → ℕ
  pub evidence : ℕ → Strategy → Option QualificationEvidence

-- `dropped` is the count of the writes that the writer dropped.
unfoldable pub evaluate_with_required_hours :
    QualificationConfig → Answers → ℕ → ℕ → ℕ → QualificationStatus
evaluate_with_required_hours cfg answers dropped now_ms required_hours =
    let since = since_ms now_ms required_hours in
    let coverage = coverage_or (answers.coverage since) in
    let lost = max dropped (answers.incidents since) in
    let reasons = global_reasons cfg coverage lost now_ms required_hours in
    let rows =
      evaluate_each
        (λ s.
          evaluate_strategy cfg s (evidence_or (answers.evidence since s)) reasons
            (required_hours == 0))
        all in
    record {
      pass = any_passes rows;
      started_at_ms = started_or now_ms coverage.first_seen_ms;
      elapsed_hours = elapsed_hours coverage now_ms;
      required_hours = required_hours;
      observation_count = coverage.observations;
      maximum_observation_gap_secs = coverage.maximum_gap_ms / 1_000;
      allowed_observation_gap_secs = cfg.qualification_max_gap_secs;
      live_candidate_simulations = sum_live (λ r. r.fork_samples) rows;
      relay_cross_checks = sum_live (λ r. r.relay_comparisons) rows;
      high_confidence_actual_matches = sum_live (λ r. r.actual_comparisons) rows;
      persistence_dropped = lost;
      reasons = reasons;
      strategies = rows;
    }

unfoldable pub passes_in : Strategy → List StrategyQualification → Bool
passes_in s [] = false
passes_in s (r ∷ rows) = (strategy_eq r.strategy s && is_pass r.verdict) || passes_in s rows

-- `QualificationStatus::strategy_passes`
unfoldable pub strategy_passes : QualificationStatus → Strategy → Bool
strategy_passes status s = passes_in s status.strategies

-- The evidence of a strategy reaches the minima, and so do both accuracies.
unfoldable pub IsProven : QualificationConfig → QualificationEvidence → Type 0
IsProven cfg e =
    (cfg.qualification_min_samples ≤ e.fork_samples)
    × (cfg.qualification_min_relay_comparisons ≤ length e.relay_errors_bps)
    × (cfg.qualification_min_actual_matches ≤ length e.actual_errors_bps)
    × (cfg.qualification_min_accuracy_bps ≤ relay_accuracy cfg e)
    × (cfg.qualification_min_accuracy_bps ≤ actual_accuracy cfg e)

or_false : (b : Bool) → (b || false) ≡ b
or_false true = refl
or_false false = refl

-- A strategy passes by its own row.
passes_in-all :
    (cfg : QualificationConfig) (evidence : Strategy → QualificationEvidence)
    (reasons : List Reason) (express : Bool) (s : Strategy)
    → passes_in s (evaluate_each (λ t. evaluate_strategy cfg t (evidence t) reasons express) all)
      ≡ is_pass (verdict_of cfg s (evidence s) reasons express)
unfolding passes_in evaluate_each evaluate_strategy
passes_in-all cfg evidence reasons express Strategy.sandwich = or_false _
passes_in-all cfg evidence reasons express Strategy.sandwich_v3 = or_false _
passes_in-all cfg evidence reasons express Strategy.jit = or_false _
passes_in-all cfg evidence reasons express Strategy.atomic_arb = or_false _
passes_in-all cfg evidence reasons express Strategy.liquidation = or_false _
passes_in-all cfg evidence reasons express Strategy.liquidation_compound = or_false _
passes_in-all cfg evidence reasons express Strategy.liquidation_morpho = or_false _
passes_in-all cfg evidence reasons express Strategy.liquidation_maker = or_false _
passes_in-all cfg evidence reasons express Strategy.oracle_frontrun = or_false _

is_sufficient_iff :
    (cfg : QualificationConfig) (s : Strategy) (e : QualificationEvidence) (reasons : List Reason)
    → (is_sufficient cfg s e reasons ≡ true) ↔ (
        (live_candidate s ≡ true)
        × (is_empty reasons ≡ true)
        × (cfg.qualification_min_samples ≤ e.fork_samples)
        × (cfg.qualification_min_relay_comparisons ≤ length e.relay_errors_bps)
        × (cfg.qualification_min_actual_matches ≤ length e.actual_errors_bps))
unfolding is_sufficient
is_sufficient_iff cfg s e reasons = ground arith

-- In a soak a verdict is `PASS` on sufficient evidence that is accurate.
verdict_of-soak :
    (cfg : QualificationConfig) (s : Strategy) (e : QualificationEvidence) (reasons : List Reason)
    → (is_pass (verdict_of cfg s e reasons false) ≡ true)
      ↔ ((live_candidate s ≡ true) × (is_empty reasons ≡ true) × IsProven cfg e)
unfolding verdict_of IsProven
verdict_of-soak cfg s e reasons =
    let (parts, whole) = is_sufficient_iff cfg s e reasons in
    elim (Bool-cases (is_sufficient cfg s e reasons)) [
      | inr short ↦
          rw short (λ h. cc, λ (a, b, (c, d, f, _, _)). let t = whole (a, b, c, d, f) in cc)
      | inl enough ↦
          let (a, b, c, d, f) = parts enough in
          elim (Bool-cases (
            leb cfg.qualification_min_accuracy_bps (relay_accuracy cfg e)
            && leb cfg.qualification_min_accuracy_bps (actual_accuracy cfg e))) [
              | inl exact ↦
                  rw (enough, exact) (λ _. (a, b, (c, d, f, ground arith, ground arith)), λ _. refl)
              | inr vague ↦ rw (enough, vague) (λ h. cc, λ (_, _, (_, _, _, r, t)). ground arith)
            ]
    ]

-- With a soak and a gap bound that fit a word, a store that reads its blocks lets a strategy pass
-- exactly when it may go live; a canonical block was seen the hours asked for ago; the window starts
-- those hours before now, its newest block then and those behind follow each other, and now, within
-- the gap bound; no write was dropped; and the strategy's own evidence since then reaches the minima
-- with both accuracies.
pub strategy_passes-IsSoaked :
    (cfg : QualificationConfig) (seen : List ℕ) (answers : Answers) (dropped now hours : ℕ)
    (s : Strategy)
    → 0 < hours
    → hours * 3_600_000 < u64_mod
    → cfg.qualification_max_gap_secs * 1_000 < u64_mod - 1
    → ((since : ℕ)
        → answers.coverage since ≡ some (observation_coverage (observed_since since seen) now))
    → (strategy_passes (evaluate_with_required_hours cfg answers dropped now hours) s ≡ true) ↔ (
        (live_candidate s ≡ true)
        × IsSoakedSince cfg seen
            (max dropped (answers.incidents (now - hours * 3_600_000)))
            now
            hours
        × IsProven cfg (evidence_or (answers.evidence (now - hours * 3_600_000) s)))
unfolding strategy_passes evaluate_with_required_hours
strategy_passes-IsSoaked cfg seen answers dropped now hours s pos fits small reads =
    let since = now - hours * 3_600_000 in
    let lost = max dropped (answers.incidents since) in
    let coverage = observation_coverage (observed_since since seen) now in
    let reasons = global_reasons cfg coverage lost now hours in
    let soak : (hours == 0) ≡ false = ground arith in
    let (passes, pass1) = verdict_of-soak cfg s (evidence_or (answers.evidence since s)) reasons in
    let (soaked, soaked1) = global_reasons-IsSoakedSince cfg seen lost now hours pos small in
    let row = passes_in-all cfg (λ t. evidence_or (answers.evidence since t)) reasons false s in
    rw (since_ms_lem now hours pos fits) (
      rw (reads since, soak, row)
        (λ h. let (a, b, c) = passes h in (a, soaked b, c), λ (a, b, c). pass1 (a, soaked1 b, c)))

-- Without hours to soak only the dropped writes are a reason.
express_iff :
    (cfg : QualificationConfig) (coverage : ObservationCoverage) (lost now : ℕ)
    → (is_empty (global_reasons cfg coverage lost now 0) ≡ true) ↔ (lost ≡ 0)
unfolding global_reasons
express_iff cfg coverage lost now = elim (Bool-cases (lost == 0)) [
  | inl t ↦ rw t (λ _. ground arith, λ _. refl)
  | inr t ↦ rw t (λ h. cc, λ e. ground arith)
]

-- Without hours to soak, a strategy passes exactly when it may go live, no write was dropped, and its
-- evidence of the last hour reaches the minima of samples, comparisons and matches: neither the span and the gaps nor
-- the accuracies are asked for.
pub strategy_passes-express :
    (cfg : QualificationConfig) (answers : Answers) (dropped now : ℕ) (s : Strategy)
    → (strategy_passes (evaluate_with_required_hours cfg answers dropped now 0) s ≡ true) ↔ (
        (live_candidate s ≡ true)
        × (max dropped (answers.incidents (now - 3_600_000)) ≡ 0)
        × (cfg.qualification_min_samples
            ≤ (evidence_or (answers.evidence (now - 3_600_000) s)).fork_samples)
        × (cfg.qualification_min_relay_comparisons
            ≤ length (evidence_or (answers.evidence (now - 3_600_000) s)).relay_errors_bps)
        × (cfg.qualification_min_actual_matches
            ≤ length (evidence_or (answers.evidence (now - 3_600_000) s)).actual_errors_bps))
unfolding strategy_passes evaluate_with_required_hours verdict_of
strategy_passes-express cfg answers dropped now s =
    let coverage = coverage_or (answers.coverage (now - 3_600_000)) in
    let lost = max dropped (answers.incidents (now - 3_600_000)) in
    let e = evidence_or (answers.evidence (now - 3_600_000) s) in
    let reasons = global_reasons cfg coverage lost now 0 in
    let (parts, whole) = is_sufficient_iff cfg s e reasons in
    let row =
      passes_in-all cfg (λ t. evidence_or (answers.evidence (now - 3_600_000) t)) reasons true s in
    let (lossless, lossless1) = express_iff cfg coverage lost now in
    let hour : since_ms now 0 ≡ now - 3_600_000 = unfold since_ms in omega arith in
    rw (hour, row)
      (elim (Bool-cases (is_sufficient cfg s e reasons)) [
        | inl enough ↦
            let (a, b, c, d, f) = parts enough in
            rw enough (λ _. (a, lossless b, c, d, f), λ _. refl)
        | inr short ↦
            rw short (λ h. cc, λ (a, b, c, d, f). let t = whole (a, lossless1 b, c, d, f) in cc)
      ])
