-- ===== src/Qualification/Windows.antt =====
-- What the queries of `observation_coverage` of bot/crates/mev-bot/src/store.rs answer for a window,
-- and the soak of bot/crates/mev-bot/src/qualification.rs over it.
use arrow_head.Prelude.{
  ℕ, ◌-◌, ◌*◌, ◌/◌, ◌≤◌, ◌<◌, ◌≡◌, ◌↔◌, ◌⊎◌, inl, inr, refl, sym, subst, arith, min, max, true,
  false, Option, none, some, List, [], ◌∷◌, leb, ◌==◌, Bool-cases, Option-cases, is_empty, u64_mod,
}
use arrow_head.Prelude.Sort.{sort_by}
use arrow_head.Qualification.{
  observation_coverage, first_of, latest_until, later_than, observed_since, greatest,
  QualificationConfig,
}
use arrow_head.Qualification.Continuity.{
  since_ms, global_reasons, IsCovered, IsContinuous, IsSoaked, global_reasons-IsSoaked,
}

-- A time at which a block was seen.
abbrev pub IsSeen : ℕ → List ℕ → Type 0
IsSeen a [] = ⊥
IsSeen a (s ∷ seen) = (a ≡ s) ⊎ IsSeen a seen

-- The newest time that is at an instant or before.
pub record IsLatest (since : ℕ) (seen : List ℕ) (a : ℕ) : Type 0 where
  pub seen_then : IsSeen a seen
  pub in_time : a ≤ since
  pub newest : (s : ℕ) → IsSeen s seen → s ≤ since → s ≤ a

-- What `MAX` answers is the newest of the rows in time, and it answers nothing where there is none.
abbrev IsNewest : ℕ → List ℕ → Option ℕ → Type 0
IsNewest since seen none = (s : ℕ) → IsSeen s seen → since < s
IsNewest since seen (some a) = IsLatest since seen a

IsNewest-insert :
    (since s : ℕ) (seen : List ℕ) (rest : Option ℕ)
    → s ≤ since
    → IsNewest since seen rest
    → IsNewest since (s ∷ seen) (some (greatest s rest))
IsNewest-insert since s seen none le h = record {
  seen_then = inl refl;
  in_time = le;
  newest = λ t at le_t. elim at [
    | inl e ↦ omega (arith, e)
    | inr there ↦ let late = h t there in absurd (omega (arith, late, le_t))
  ];
}
IsNewest-insert since s seen (some b) le h = record {
  seen_then = elim (Bool-cases (leb s b)) [
    | inl under ↦
        let e : max s b ≡ b = ground arith in inr (subst (λ z. IsSeen z seen) (sym e) h.seen_then)
    | inr over ↦ let e : max s b ≡ s = ground arith in rw e (inl refl)
  ];
  in_time = let in_time = h.in_time in omega (arith, le, in_time);
  newest = λ t at le_t. elim at [
    | inl e ↦ omega (arith, e)
    | inr there ↦ let below = h.newest t there le_t in omega (arith, below)
  ];
}

IsNewest-skip :
    (since s : ℕ) (seen : List ℕ) (rest : Option ℕ)
    → since < s
    → IsNewest since seen rest
    → IsNewest since (s ∷ seen) rest
IsNewest-skip since s seen none lt h =
    λ t at. elim at [ inl e ↦ omega (arith, e, lt) | inr there ↦ h t there ]
IsNewest-skip since s seen (some b) lt h = record {
  seen_then = inr h.seen_then;
  in_time = h.in_time;
  newest = λ t at le_t. elim at [
    | inl e ↦ absurd (omega (arith, e, lt, le_t))
    | inr there ↦ h.newest t there le_t
  ];
}

latest_until-IsNewest : (since : ℕ) (seen : List ℕ) → IsNewest since seen (latest_until since seen)
unfolding latest_until
latest_until-IsNewest since [] = λ s h. elim h [ ]
latest_until-IsNewest since (s ∷ seen) =
    let rest = latest_until-IsNewest since seen in
    elim (Bool-cases (leb s since)) [
      | inl early ↦
          rw early (IsNewest-insert since s seen (latest_until since seen) (ground arith) rest)
      | inr late ↦
          rw late (IsNewest-skip since s seen (latest_until since seen) (ground arith) rest)
    ]

answered_iff :
    (since : ℕ) (seen : List ℕ) (a : ℕ) (o : Option ℕ)
    → IsNewest since seen o
    → (o ≡ some a) ↔ IsLatest since seen a
answered_iff since seen a none h = (
  λ e. cc,
  λ l.
      let late = h a l.seen_then in
      let in_time = l.in_time in absurd (omega (arith, late, in_time)),
)
answered_iff since seen a (some b) h = (
  λ e. let same : b ≡ a = cc in rw same at h,
  λ l.
      let below = h.newest a l.seen_then l.in_time in
      let above = l.newest b h.seen_then h.in_time in
      let same : b ≡ a = omega (arith, below, above) in rw same refl,
)

latest_until_iff :
    (since : ℕ) (seen : List ℕ) (a : ℕ) → (latest_until since seen ≡ some a) ↔ IsLatest since seen a
latest_until_iff since seen a =
    answered_iff since seen a (latest_until since seen) (latest_until-IsNewest since seen)

-- `MIN` answers a time that was seen.
first_of-IsSeen : (seen : List ℕ) (a : ℕ) → first_of seen ≡ some a → IsSeen a seen
unfolding first_of
first_of-IsSeen [] a e = cc
first_of-IsSeen (s ∷ seen) a e = elim (Option-cases (first_of seen)) [
  | inl missing ↦ let e1 = rw missing at e in let same : a ≡ s = cc in inl same
  | inr (t, found) ↦
      let e1 = rw found at e in
      let same : a ≡ min s t = cc in
      elim (Bool-cases (leb s t)) [
        | inl le ↦ let first : min s t ≡ s = ground arith in inl (omega (arith, same, first))
        | inr gt ↦
            let later : a ≡ t = ground arith in
            inr (subst (λ z. IsSeen z seen) (sym later) (first_of-IsSeen seen t found))
      ]
]

-- None that was seen is before it.
first_of-le : (seen : List ℕ) (s : ℕ) → IsSeen s seen → (a : ℕ) × (first_of seen ≡ some a) × (a ≤ s)
unfolding first_of
first_of-le [] s h = elim h [ ]
first_of-le (t ∷ seen) s (inl e) = elim (Option-cases (first_of seen)) [
  | inl missing ↦ rw missing (t, refl, omega (arith, e))
  | inr (a, found) ↦ rw found (min t a, refl, omega (arith, e))
]
first_of-le (t ∷ seen) s (inr h) =
    let (a, found, le) = first_of-le seen s h in rw found (min t a, refl, omega (arith, le))

-- A block was seen so many hours ago.
abbrev pub IsOld : List ℕ → ℕ → ℕ → Type 0
IsOld seen now hours = (s : ℕ) × IsSeen s seen × (hours * 3_600_000 ≤ now - s)

first_of-IsOld :
    (seen : List ℕ) (now hours : ℕ)
    → ((a : ℕ) × (first_of seen ≡ some a) × (hours ≤ (now - a) / 3_600_000)) ↔ IsOld seen now hours
first_of-IsOld seen now hours = (
  λ (a, e, h). (a, first_of-IsSeen seen a e, omega (arith, h)),
  λ (s, at, h). let (a, e, le) = first_of-le seen s at in (a, e, omega (arith, h, le)),
)

-- From the newest block at the start of the window, each block follows the one before within the
-- bound, and so does `now`.
unfoldable pub IsCoveredSince : ℕ → List ℕ → ℕ → ℕ → Type 0
IsCoveredSince bound seen since now =
    (a : ℕ) × IsLatest since seen a × IsCovered bound a (sort_by leb (later_than since seen)) now

IsContinuous-IsCoveredSince :
    (bound since now : ℕ) (seen : List ℕ)
    → IsContinuous bound (observed_since since seen) now ↔ IsCoveredSince bound seen since now
unfolding IsContinuous observed_since IsCoveredSince
IsContinuous-IsCoveredSince bound since now seen = (
  λ (a, e, covered). (a, (latest_until_iff since seen a).0 e, covered),
  λ (a, l, covered). (a, (latest_until_iff since seen a).1 l, covered),
)

-- What a soak asks of the canonical blocks and of the writes that were lost.
unfoldable pub IsSoakedSince : QualificationConfig → List ℕ → ℕ → ℕ → ℕ → Type 0
IsSoakedSince cfg seen lost now hours =
    IsOld seen now hours
    × IsCoveredSince (cfg.qualification_max_gap_secs * 1_000) seen (now - hours * 3_600_000) now
    × (lost ≡ 0)

-- The start of the window lies the hours that are asked for before now.
pub since_ms_lem :
    (now hours : ℕ)
    → 0 < hours
    → hours * 3_600_000 < u64_mod
    → since_ms now hours ≡ now - hours * 3_600_000
unfolding since_ms
since_ms_lem now hours pos small =
    let soak : (hours == 0) ≡ false = ground arith in rw soak (omega arith)

pub global_reasons-IsSoakedSince :
    (cfg : QualificationConfig) (seen : List ℕ) (lost now hours : ℕ)
    → 0 < hours
    → cfg.qualification_max_gap_secs * 1_000 < u64_mod - 1
    → (is_empty (
          global_reasons cfg
            (observation_coverage (observed_since (now - hours * 3_600_000) seen) now)
            lost
            now
            hours)
        ≡ true)
      ↔ IsSoakedSince cfg seen lost now hours
unfolding IsSoakedSince IsSoaked observed_since
global_reasons-IsSoakedSince cfg seen lost now hours pos small =
    let since = now - hours * 3_600_000 in
    let (down, up) =
      global_reasons-IsSoaked cfg (observed_since since seen) lost now hours pos small in
    let (old, old1) = first_of-IsOld seen now hours in
    let (cov, cov1) =
      IsContinuous-IsCoveredSince (cfg.qualification_max_gap_secs * 1_000) since now seen in
    (λ h. let (a, b, c) = down h in (old a, cov b, c), λ (a, b, c). up (old1 a, cov1 b, c))
