-- ===== src/Qualification/Continuity.antt =====
-- The reasons of `evaluate_with_required_hours` of bot/crates/mev-bot/src/qualification.rs that
-- block every strategy, and what the scan for gaps says of the observations.
use arrow_head.Prelude.{
  ℕ, ◌-◌, ◌*◌, ◌/◌, ◌≤◌, ◌<◌, ◌≡◌, inl, inr, refl, arith, max, Bool, true, false, Option, none,
  some, List, [], ◌∷◌, ◌++◌, ltb, ◌==◌, not, ◌&&◌, ◌||◌, if◌then◌else◌, is_empty, Option-cases,
  u64_mod, saturating_mul, saturating_add, ◌↔◌,
}
use arrow_head.Qualification.{
  ObservationCoverage, Observed, Scan, scan_row, scan_rows, first_scan, observation_coverage,
  gap_from, Reason, reason_if, QualificationConfig, is_some,
}

-- The hours since the first observation.
unfoldable pub elapsed_hours : ObservationCoverage → ℕ → ℕ
elapsed_hours coverage now_ms = hours coverage.first_seen_ms
  where
    hours : Option ℕ → ℕ
    hours none = 0
    hours (some started) = (now_ms - started) / 3_600_000

-- The start of the window, for the hours that are asked for (one at least).
unfoldable pub since_ms : ℕ → ℕ → ℕ
since_ms now_ms required_hours =
    let soak_hours = if required_hours == 0 then 1 else required_hours in
    now_ms
    - saturating_mul u64_mod (saturating_mul u64_mod (saturating_mul u64_mod soak_hours 60) 60)
        1_000

unfoldable pub global_reasons : QualificationConfig → ObservationCoverage → ℕ → ℕ → ℕ → List Reason
global_reasons cfg coverage dropped now_ms required_hours =
    let soak = not (required_hours == 0) in
    let elapsed = elapsed_hours coverage now_ms in
    reason_if (soak && (not (is_some coverage.first_seen_ms) || ltb elapsed required_hours))
      Reason.short_span
    ++ (reason_if
          (soak
            && ltb (saturating_mul u64_mod cfg.qualification_max_gap_secs 1_000)
                coverage.maximum_gap_ms)
          Reason.wide_gap
        ++ reason_if (not (dropped == 0)) Reason.dropped_writes)

-- From an instant on, each row follows the one before within the bound, and so does `now`.
abbrev pub IsCovered : ℕ → ℕ → List ℕ → ℕ → Type 0
IsCovered bound prior [] now = now - prior ≤ bound
IsCovered bound prior (seen ∷ rows) now = (seen - prior ≤ bound) × IsCovered bound seen rows now

-- The scan of the rows behind an instant finds a gap above the bound exactly where one is.
scan_rows-IsCovered :
    (bound prior gap count now : ℕ) (rows : List ℕ)
    → let s : Scan =
        scan_rows rows
          (record { previous = some prior; maximum_gap_ms = gap; observations = count }) in
      (gap_from s.previous now s.maximum_gap_ms ≤ bound)
      ↔ ((gap ≤ bound) × IsCovered bound prior rows now)
unfolding scan_rows scan_row
scan_rows-IsCovered bound prior gap count now [] =
    (λ h. (omega arith, omega arith), λ (h, k). omega arith)
scan_rows-IsCovered bound prior gap count now (seen ∷ rows) =
    let (down, up) =
      scan_rows-IsCovered bound seen (max gap (seen - prior)) (saturating_add u64_mod count 1) now
        rows in
    (
      λ h. let (le, covered) = down h in (omega arith, (omega arith, covered)),
      λ (h, (k, covered)). up (omega arith, covered),
    )

-- Without an anchor the gap is the largest word.
scan_rows-wide :
    (gap count now : ℕ) (previous : Option ℕ) (rows : List ℕ)
    → let s : Scan =
        scan_rows rows
          (record { previous = previous; maximum_gap_ms = gap; observations = count }) in
      gap ≤ gap_from s.previous now s.maximum_gap_ms
unfolding scan_rows scan_row
scan_rows-wide gap count now none [] = omega arith
scan_rows-wide gap count now (some prior) [] = omega arith
scan_rows-wide gap count now none (seen ∷ rows) =
    scan_rows-wide gap (saturating_add u64_mod count 1) now (some seen) rows
scan_rows-wide gap count now (some prior) (seen ∷ rows) =
    let h =
      scan_rows-wide (max gap (seen - prior)) (saturating_add u64_mod count 1) now (some seen)
        rows in
    omega arith

-- The observations run from an instant at the start of the window or before to `now`.
unfoldable pub IsContinuous : ℕ → Observed → ℕ → Type 0
IsContinuous bound o now =
    (anchor : ℕ) × (o.anchor ≡ some anchor) × IsCovered bound anchor o.rows now

-- The maximum gap lies within a bound below the largest word exactly when the observations run from
-- the start of the window to now without a longer gap.
pub observation_coverage-IsContinuous :
    (bound now : ℕ) (o : Observed)
    → bound < u64_mod - 1
    → ((observation_coverage o now).maximum_gap_ms ≤ bound) ↔ IsContinuous bound o now
unfolding observation_coverage first_scan IsContinuous
observation_coverage-IsContinuous bound now o small = elim (Option-cases o.anchor) [
  | inl missing ↦ rw missing (
    λ h. let wide = scan_rows-wide (u64_mod - 1) 0 now none o.rows in elim (too_wide wide h) [ ],
    λ (anchor, e, _). cc,
  )
  | inr (anchor, at) ↦
      let (down, up) = scan_rows-IsCovered bound anchor 0 0 now o.rows in
      rw at (
        λ h. let (_, covered) = down h in (anchor, refl, covered),
        λ (other, e, covered). let same : anchor ≡ other = cc in up (omega arith, rw same covered),
      )
]
  where
    too_wide : {n : ℕ} → u64_mod - 1 ≤ n → n ≤ bound → ⊥
    too_wide wide h = omega arith

-- No reason blocks every strategy in a soak.
unfoldable pub IsSoaked : QualificationConfig → Observed → ℕ → ℕ → ℕ → Type 0
IsSoaked cfg o dropped now required_hours =
    ((started : ℕ) × (o.first_seen_ms ≡ some started)
      × (required_hours ≤ (now - started) / 3_600_000))
    × IsContinuous (cfg.qualification_max_gap_secs * 1_000) o now
    × (dropped ≡ 0)

no-reasons :
    (a b c : Bool) (p q r : Reason)
    → (is_empty (reason_if a p ++ (reason_if b q ++ reason_if c r)) ≡ true)
      ↔ ((a ≡ false) × (b ≡ false) × (c ≡ false))
no-reasons false false false p q r = (λ h. (refl, refl, refl), λ h. refl)
no-reasons false false true p q r = (λ h. cc, λ (a, b, c). cc)
no-reasons false true c p q r = (λ h. cc, λ (a, b, c). cc)
no-reasons true b c p q r = (λ h. cc, λ (a, b, c). cc)

-- The span is long enough exactly when there is a first observation so many hours ago.
span_iff :
    (first : Option ℕ) (coverage : ObservationCoverage) (now required_hours : ℕ)
    → coverage.first_seen_ms ≡ first
    → ((not (is_some coverage.first_seen_ms) || ltb (elapsed_hours coverage now) required_hours)
        ≡ false)
      ↔ ((started : ℕ) × (first ≡ some started) × (required_hours ≤ (now - started) / 3_600_000))
unfolding elapsed_hours
span_iff none coverage now required_hours e = rw e (λ h. cc, λ (s, h, _). cc)
span_iff (some started) coverage now required_hours e = rw e (
  λ h. (started, refl, ground arith),
  λ (other, same, le). let e1 : started ≡ other = cc in rw e1 (ground arith),
)

-- In a soak no reason blocks every strategy exactly when the observations span the hours asked for,
-- no gap is longer than allowed, and no write was dropped.
pub global_reasons-IsSoaked :
    (cfg : QualificationConfig) (o : Observed) (dropped now required_hours : ℕ)
    → 0 < required_hours
    → cfg.qualification_max_gap_secs * 1_000 < u64_mod - 1
    → (is_empty (global_reasons cfg (observation_coverage o now) dropped now required_hours) ≡ true)
      ↔ IsSoaked cfg o dropped now required_hours
unfolding global_reasons IsSoaked
global_reasons-IsSoaked cfg o dropped now required_hours pos small =
    let coverage = observation_coverage o now in
    let soak : not (required_hours == 0) ≡ true = ground arith in
    let bound : saturating_mul u64_mod cfg.qualification_max_gap_secs 1_000
        ≡ cfg.qualification_max_gap_secs * 1_000 =
      omega arith in
    let (span, span1) =
      span_iff o.first_seen_ms coverage now required_hours (unfold observation_coverage in refl) in
    let (cont, cont1) =
      observation_coverage-IsContinuous (cfg.qualification_max_gap_secs * 1_000) now o small in
    let (none_of, all_of) =
      no-reasons
        (not (is_some coverage.first_seen_ms) || ltb (elapsed_hours coverage now) required_hours)
        (ltb (cfg.qualification_max_gap_secs * 1_000) coverage.maximum_gap_ms) (not (dropped == 0))
        Reason.short_span Reason.wide_gap Reason.dropped_writes in
    rw (soak, bound)
      (
        λ h. let (a, b, c) = none_of h in (span a, cont (ground arith), ground arith),
        λ (a, b, c).
            let within : coverage.maximum_gap_ms ≤ cfg.qualification_max_gap_secs * 1_000 =
              cont1 b in
            all_of (span1 a, ground arith, ground arith),
      )
