-- ===== src/Qualification/Tests.antt =====
-- Runs of bot/crates/mev-bot/src/qualification.rs on an hour of blocks.
use arrow_head.Prelude.{List, ℕ, ◌≤◌, ◌≡◌, ◌↔◌, refl, arith, true, some, [], ◌∷◌, length, max}
use arrow_head.Types.{Strategy, live_candidate}
use arrow_head.Qualification.{
  observed_since, first_of, latest_until, later_than, observation_coverage, scan_rows, scan_row,
  first_scan, QualificationConfig,
}
use arrow_head.Qualification.Windows.{IsSoakedSince}
use arrow_head.Qualification.Verdicts.{
  Answers, evaluate_with_required_hours, strategy_passes, evidence_or, IsProven,
  strategy_passes-IsSoaked, strategy_passes-express,
}

abbrev cfg : QualificationConfig
cfg = record {
  qualification_max_gap_secs = 1_800;
  qualification_min_samples = 1;
  qualification_min_relay_comparisons = 1;
  qualification_min_actual_matches = 1;
  qualification_max_error_bps = 500;
  qualification_min_accuracy_bps = 8_000;
}

-- Blocks at the start, after half an hour, and after an hour.
abbrev seen : List ℕ
seen = 2_800_000 ∷ (1_000_000 ∷ (4_600_000 ∷ []))

-- The queries for the last hour.
hour : observed_since 1_000_000 seen ≡ record {
  first_seen_ms = some 1_000_000;
  anchor = some 1_000_000;
  rows = 2_800_000 ∷ (4_600_000 ∷ []);
}
unfolding observed_since first_of latest_until later_than
hour = refl

-- The longest gap is half an hour.
half_an_hour :
    (observation_coverage (observed_since 1_000_000 seen) 4_600_000).maximum_gap_ms ≡ 1_800_000
unfolding observed_since first_of latest_until later_than observation_coverage scan_rows scan_row
    first_scan
half_an_hour = refl

abbrev answers : Answers
answers = record {
  coverage = λ since. some (observation_coverage (observed_since since seen) 4_600_000);
  incidents = λ since. 0;
  evidence = λ since s.
      some (record { fork_samples = 3; relay_errors_bps = 10 ∷ []; actual_errors_bps = 20 ∷ [] });
}

strategy_passes-IsSoaked_example :
    (strategy_passes (evaluate_with_required_hours cfg answers 0 4_600_000 1) Strategy.atomic_arb
      ≡ true)
    ↔ ((live_candidate Strategy.atomic_arb ≡ true)
        × IsSoakedSince cfg seen (max 0 0) 4_600_000 1
        × IsProven cfg (evidence_or (answers.evidence 1_000_000 Strategy.atomic_arb)))
strategy_passes-IsSoaked_example =
    strategy_passes-IsSoaked cfg seen answers 0 4_600_000 1 Strategy.atomic_arb (omega arith)
      (omega arith) (omega arith) (λ since. refl)

strategy_passes-express_example :
    (strategy_passes (evaluate_with_required_hours cfg answers 0 4_600_000 0) Strategy.atomic_arb
      ≡ true)
    ↔ ((live_candidate Strategy.atomic_arb ≡ true)
        × (max 0 0 ≡ 0)
        × (1 ≤ (evidence_or (answers.evidence 1_000_000 Strategy.atomic_arb)).fork_samples)
        × (1
            ≤ length
                (evidence_or (answers.evidence 1_000_000 Strategy.atomic_arb)).relay_errors_bps)
        × (1
            ≤ length
                (evidence_or (answers.evidence 1_000_000 Strategy.atomic_arb)).actual_errors_bps))
strategy_passes-express_example =
    strategy_passes-express cfg answers 0 4_600_000 Strategy.atomic_arb
