-- ===== src/Qualification.antt =====
-- The qualification gate of bot/crates/mev-bot/src/qualification.rs, and the scan for gaps of
-- `observation_coverage` of store.rs. The wording of a reason is left out.
pub mod Continuity
pub mod Windows
pub mod Verdicts
mod Tests
use arrow_head.Prelude.{
  ℕ, suc, ◌+◌, ◌-◌, ◌*◌, ◌/◌, ◌%◌, ◌^◌, min, max, Bool, true, false, Option, none, some, List, [],
  ◌∷◌, ◌++◌, length, is_empty, ltb, leb, ◌==◌, not, ◌&&◌, ◌||◌, if◌then◌else◌, u64_mod,
  saturating_add, saturating_mul,
}
use arrow_head.Prelude.Sort.{sort_by}
use arrow_head.Types.{Strategy, live_candidate, shadow_only_reason, ShadowReason, strategy_eq, all}

pub record ObservationCoverage : Type 0 where
  pub first_seen_ms : Option ℕ
  pub last_seen_ms : Option ℕ
  pub maximum_gap_ms : ℕ
  pub observations : ℕ

-- `ObservationCoverage::default`
abbrev pub no_coverage : ObservationCoverage
no_coverage = record {
  first_seen_ms = none;
  last_seen_ms = none;
  maximum_gap_ms = 0;
  observations = 0;
}

-- What the three queries of `observation_coverage` answer: the first canonical block, the newest
-- one at the start of the window or before, and those behind, in ascending order.
pub record Observed : Type 0 where
  pub first_seen_ms : Option ℕ
  pub anchor : Option ℕ
  pub rows : List ℕ

abbrev pub least : ℕ → Option ℕ → ℕ
least s none = s
least s (some t) = min s t

abbrev pub greatest : ℕ → Option ℕ → ℕ
greatest s none = s
greatest s (some t) = max s t

-- `MIN(seen_at_ms)` of the canonical blocks, given by their times in any order.
unfoldable pub first_of : List ℕ → Option ℕ
first_of [] = none
first_of (s ∷ seen) = some (least s (first_of seen))

-- `MAX(seen_at_ms)` of those at an instant or before.
unfoldable pub latest_until : ℕ → List ℕ → Option ℕ
latest_until since [] = none
latest_until since (s ∷ seen) =
    let rest = latest_until since seen in if leb s since then some (greatest s rest) else rest

-- Those behind it.
unfoldable pub later_than : ℕ → List ℕ → List ℕ
later_than since [] = []
later_than since (s ∷ seen) =
    let rest = later_than since seen in if ltb since s then s ∷ rest else rest

-- What the three queries of `observation_coverage` answer for a window.
unfoldable pub observed_since : ℕ → List ℕ → Observed
observed_since since seen = record {
  first_seen_ms = first_of seen;
  anchor = latest_until since seen;
  rows = sort_by leb (later_than since seen);
}

-- The state of the loop over the rows.
pub record Scan : Type 0 where
  pub previous : Option ℕ
  pub maximum_gap_ms : ℕ
  pub observations : ℕ

abbrev gap_from : Option ℕ → ℕ → ℕ → ℕ
gap_from none seen gap = gap
gap_from (some prior) seen gap = max gap (seen - prior)

unfoldable pub scan_row : ℕ → Scan → Scan
scan_row seen s = record {
  previous = some seen;
  maximum_gap_ms = gap_from s.previous seen s.maximum_gap_ms;
  observations = saturating_add u64_mod s.observations 1;
}

unfoldable pub scan_rows : List ℕ → Scan → Scan
scan_rows [] s = s
scan_rows (seen ∷ rows) s = scan_rows rows (scan_row seen s)

abbrev is_some : Option ℕ → Bool
is_some none = false
is_some (some _) = true

unfoldable pub first_scan : Option ℕ → Scan
first_scan anchor = record {
  previous = anchor;
  maximum_gap_ms = if is_some anchor then 0 else u64_mod - 1;
  observations = 0;
}

-- `previous` and `last_seen_ms` are set together and start alike.
unfoldable pub observation_coverage : Observed → ℕ → ObservationCoverage
observation_coverage o now_ms =
    let s = scan_rows o.rows (first_scan o.anchor) in
    record {
      first_seen_ms = o.first_seen_ms;
      last_seen_ms = s.previous;
      maximum_gap_ms = gap_from s.previous now_ms s.maximum_gap_ms;
      observations = s.observations;
    }

pub record QualificationEvidence : Type 0 where
  pub fork_samples : ℕ
  pub relay_errors_bps : List ℕ
  pub actual_errors_bps : List ℕ

-- The fields of `Config` that qualify.
pub record QualificationConfig : Type 0 where
  pub qualification_max_gap_secs : ℕ
  pub qualification_min_samples : ℕ
  pub qualification_min_relay_comparisons : ℕ
  pub qualification_min_actual_matches : ℕ
  pub qualification_max_error_bps : ℕ
  pub qualification_min_accuracy_bps : ℕ

pub data Verdict : Type 0 where
  pass fail insufficient_sample : Verdict

pub data Reason : Type 0 where
  short_span wide_gap dropped_writes few_samples few_comparisons few_matches : Reason
  relay_inaccurate actual_inaccurate not_live : Reason
  shadow_only : ShadowReason → Reason

pub record StrategyQualification : Type 0 where
  pub strategy : Strategy
  pub live_candidate : Bool
  pub verdict : Verdict
  pub fork_samples : ℕ
  pub relay_comparisons : ℕ
  pub actual_comparisons : ℕ
  pub relay_within_tolerance : ℕ
  pub actual_within_tolerance : ℕ
  pub relay_accuracy_bps : ℕ
  pub actual_accuracy_bps : ℕ
  pub reasons : List Reason

unfoldable pub accuracy_bps : ℕ → ℕ → ℕ
accuracy_bps within total = if total == 0 then 0 else saturating_mul u64_mod within 10_000 / total

-- `filter(|error| **error <= bound).count()`
unfoldable pub count_within : ℕ → List ℕ → ℕ
count_within bound [] = 0
count_within bound (e ∷ errors) =
    let rest = count_within bound errors in if leb e bound then suc rest else rest

abbrev reason_if : Bool → Reason → List Reason
reason_if true r = r ∷ []
reason_if false r = []

abbrev shadow_reason : Option ShadowReason → Reason
shadow_reason none = Reason.not_live
shadow_reason (some r) = Reason.shadow_only r

unfoldable pub is_sufficient :
    QualificationConfig → Strategy → QualificationEvidence → List Reason → Bool
is_sufficient cfg strategy evidence global_reasons =
    live_candidate strategy
    && (is_empty global_reasons
        && (leb cfg.qualification_min_samples evidence.fork_samples
            && (leb cfg.qualification_min_relay_comparisons (length evidence.relay_errors_bps)
                && leb cfg.qualification_min_actual_matches (length evidence.actual_errors_bps))))

unfoldable pub relay_accuracy : QualificationConfig → QualificationEvidence → ℕ
relay_accuracy cfg evidence =
    accuracy_bps (count_within cfg.qualification_max_error_bps evidence.relay_errors_bps)
      (length evidence.relay_errors_bps)

unfoldable pub actual_accuracy : QualificationConfig → QualificationEvidence → ℕ
actual_accuracy cfg evidence =
    accuracy_bps (count_within cfg.qualification_max_error_bps evidence.actual_errors_bps)
      (length evidence.actual_errors_bps)

unfoldable pub verdict_of :
    QualificationConfig → Strategy → QualificationEvidence → List Reason → Bool → Verdict
verdict_of cfg strategy evidence global_reasons express =
    let sufficient = is_sufficient cfg strategy evidence global_reasons in
    let accurate =
      leb cfg.qualification_min_accuracy_bps (relay_accuracy cfg evidence)
      && leb cfg.qualification_min_accuracy_bps (actual_accuracy cfg evidence) in
    if express && sufficient
    then Verdict.pass
    else if not sufficient
    then Verdict.insufficient_sample
    else if accurate
    then Verdict.pass
    else Verdict.fail

abbrev is_fail : Verdict → Bool
is_fail Verdict.fail = true
is_fail _ = false

unfoldable pub evaluate_strategy :
    QualificationConfig
    → Strategy
    → QualificationEvidence
    → List Reason
    → Bool
    → StrategyQualification
evaluate_strategy cfg strategy evidence global_reasons express =
    let relay = length evidence.relay_errors_bps in
    let actual = length evidence.actual_errors_bps in
    let verdict = verdict_of cfg strategy evidence global_reasons express in
    record {
      strategy = strategy;
      live_candidate = live_candidate strategy;
      verdict = verdict;
      fork_samples = evidence.fork_samples;
      relay_comparisons = relay;
      actual_comparisons = actual;
      relay_within_tolerance =
          count_within cfg.qualification_max_error_bps evidence.relay_errors_bps;
      actual_within_tolerance =
          count_within cfg.qualification_max_error_bps evidence.actual_errors_bps;
      relay_accuracy_bps = relay_accuracy cfg evidence;
      actual_accuracy_bps = actual_accuracy cfg evidence;
      reasons =
          global_reasons
          ++ (reason_if (not (live_candidate strategy))
                (shadow_reason (shadow_only_reason strategy))
              ++ (reason_if (ltb evidence.fork_samples cfg.qualification_min_samples)
                    Reason.few_samples
                  ++ (reason_if (ltb relay cfg.qualification_min_relay_comparisons)
                        Reason.few_comparisons
                      ++ (reason_if (ltb actual cfg.qualification_min_actual_matches)
                            Reason.few_matches
                          ++ (reason_if
                                (is_fail verdict
                                  && ltb (relay_accuracy cfg evidence)
                                      cfg.qualification_min_accuracy_bps)
                                Reason.relay_inaccurate
                              ++ reason_if
                                  (is_fail verdict
                                    && ltb (actual_accuracy cfg evidence)
                                        cfg.qualification_min_accuracy_bps)
                                  Reason.actual_inaccurate)))));
    }
