-- ===== src/Leads/Registry.antt =====
-- What the registry of bot/crates/mev-bot/src/strategies/leads.rs gives, and its ratio.
use arrow_head.Prelude.{
  ℕ, sym, Bool, [], ◌*◌, ◌/◌, ◌≤◌, ◌<◌, ◌≡◌, ◌↔◌, ◌⊎◌, inl, inr, refl, arith, min, true, false,
  Option, some, List, ◌∷◌, length, take, ltb, leb, ◌==◌, All, All-take, Bool-cases, length-take,
  u64_mod, u256_mod, saturating_mul, ◌-◌,
}
use arrow_head.Prelude.Sort.{sort_by, IsSorted, sort_by-IsSorted, take-IsSorted, All-sort_by}
use arrow_head.Types.{Address}
use arrow_head.Leads.Members.{IsIn, IsIn-append, IsIn-left, IsIn-right, IsIn-sort_by, IsIn-take}
use native.Mathlib.Nat.{le-div_iff_mul-le, div-lt_iff_lt-mul}
use arrow_head.Leads.{
  Protocol, Lead, Slots, is_protocol, publish, is_near_miss, filter_near, all_leads, is_riskier,
  near_misses_for, near_miss_min_bps, near_miss_max_bps, effective_of, ratio_bps,
}

-- The lead stands in a slot of another protocol.
abbrev pub IsElsewhere : Lead → Protocol → Slots → Type 0
IsElsewhere l protocol [] = ⊥
IsElsewhere l protocol ((p, leads) ∷ slots) =
    ((is_protocol p protocol ≡ false) × IsIn l leads) ⊎ IsElsewhere l protocol slots

-- No slot stands twice.
abbrev pub IsRegistry : Slots → Type 0
IsRegistry [] = Unit {0}
IsRegistry ((p, _) ∷ slots) = All (λ s. is_protocol s.0 p ≡ false) slots × IsRegistry slots

-- A near miss of the asset that the batch holds or another slot.
unfoldable pub IsLead : Address → Protocol → List Lead → Slots → Lead → Type 0
IsLead asset protocol batch slots l =
    (l.collateral ≡ asset)
    × (near_miss_min_bps ≤ l.ratio_bps)
    × (l.ratio_bps < near_miss_max_bps)
    × (IsIn l batch ⊎ IsElsewhere l protocol slots)

-- Every lead that is found satisfies what every near miss does.
All-filter_near :
    (P : Lead → Type 0) (asset : Address) (leads : List Lead)
    → ((l : Lead) → IsIn l leads → is_near_miss asset l ≡ true → P l)
    → All P (filter_near asset leads)
unfolding filter_near
All-filter_near P asset [] h = tt
All-filter_near P asset (l ∷ leads) h = elim (Bool-cases (is_near_miss asset l)) [
  | inl near ↦
      rw near (h l (inl refl) near, All-filter_near P asset leads (λ x in_x. h x (inr in_x)))
  | inr far ↦ rw far (All-filter_near P asset leads (λ x in_x. h x (inr in_x)))
]

-- Slots of other protocols only.
others-IsElsewhere :
    (l : Lead) (protocol p : Protocol) (slots : Slots)
    → is_protocol p protocol ≡ true
    → All (λ s. is_protocol s.0 p ≡ false) slots
    → IsIn l (all_leads slots)
    → IsElsewhere l protocol slots
unfolding all_leads
others-IsElsewhere l protocol p [] same others h = h
others-IsElsewhere l protocol p ((q, leads) ∷ slots) same (apart, others) h =
    let other : is_protocol q protocol ≡ false = ground arith in
    elim (IsIn-append l leads (all_leads slots) h) [
      | inl here ↦ inl (other, here)
      | inr there ↦ inr (others-IsElsewhere l protocol p slots same others there)
    ]

-- Behind a publication every lead is of the batch or of another slot.
publish-IsIn :
    (l : Lead) (protocol : Protocol) (batch : List Lead) (slots : Slots)
    → IsRegistry slots
    → IsIn l (all_leads (publish protocol batch slots))
    → IsIn l batch ⊎ IsElsewhere l protocol slots
unfolding publish all_leads
publish-IsIn l protocol batch [] reg h = elim (IsIn-append l batch [] h) [
  | inl here ↦ inl here
  | inr there ↦ elim there [ ]
]
publish-IsIn l protocol batch ((p, leads) ∷ slots) (apart, reg) h =
    elim (Bool-cases (is_protocol p protocol)) [
      | inl same ↦ elim (IsIn-append l batch (all_leads slots) (rw same at h)) [
        | inl here ↦ inl here
        | inr there ↦ inr (inr (others-IsElsewhere l protocol p slots same apart there))
      ]
      | inr other ↦
          elim (IsIn-append l leads (all_leads (publish protocol batch slots)) (rw other at h)) [
            | inl here ↦ inr (inl (other, here))
            | inr there ↦ elim (publish-IsIn l protocol batch slots reg there) [
              | inl new ↦ inl new
              | inr old ↦ inr (inr old)
            ]
          ]
    ]

-- A lead of the batch or of another slot stands in the registry behind a publication.
elsewhere-IsIn :
    (l : Lead) (protocol : Protocol) (slots : Slots)
    → IsElsewhere l protocol slots
    → IsIn l (all_leads slots)
unfolding all_leads
elsewhere-IsIn l protocol [] h = elim h [ ]
elsewhere-IsIn l protocol ((p, leads) ∷ slots) (inl (_, h)) = IsIn-left l leads (all_leads slots) h
elsewhere-IsIn l protocol ((p, leads) ∷ slots) (inr h) =
    IsIn-right l leads (all_leads slots) (elsewhere-IsIn l protocol slots h)

IsIn-publish :
    (l : Lead) (protocol : Protocol) (batch : List Lead) (slots : Slots)
    → IsIn l batch ⊎ IsElsewhere l protocol slots
    → IsIn l (all_leads (publish protocol batch slots))
unfolding publish all_leads
IsIn-publish l protocol batch [] (inl h) = IsIn-left l batch [] h
IsIn-publish l protocol batch [] (inr h) = elim h [ ]
IsIn-publish l protocol batch ((p, leads) ∷ slots) h = elim (Bool-cases (is_protocol p protocol)) [
  | inl same ↦ rw same (elim h [
    | inl new ↦ IsIn-left l batch (all_leads slots) new
    | inr old ↦ elim old [
      | inl (other, _) ↦ cc
      | inr there ↦ IsIn-right l batch (all_leads slots) (elsewhere-IsIn l protocol slots there)
    ]
  ])
  | inr other ↦ rw other (elim h [
    | inl new ↦ IsIn-right l leads _ (IsIn-publish l protocol batch slots (inl new))
    | inr old ↦ elim old [
      | inl (_, here) ↦ IsIn-left l leads _ here
      | inr there ↦ IsIn-right l leads _ (IsIn-publish l protocol batch slots (inr there))
    ]
  ])
]

IsIn-filter_near :
    (asset : Address) (l : Lead) (leads : List Lead)
    → is_near_miss asset l ≡ true
    → IsIn l leads
    → IsIn l (filter_near asset leads)
unfolding filter_near
IsIn-filter_near asset l [] near h = elim h [ ]
IsIn-filter_near asset l (x ∷ leads) near (inl e) =
    let kept : is_near_miss asset x ≡ true = rw (sym e) near in rw kept (inl e)
IsIn-filter_near asset l (x ∷ leads) near (inr h) = elim (Bool-cases (is_near_miss asset x)) [
  | inl kept ↦ rw kept (inr (IsIn-filter_near asset l leads near h))
  | inr not_kept ↦ rw not_kept (IsIn-filter_near asset l leads near h)
]

IsLead-is_near_miss :
    (asset : Address) (protocol : Protocol) (batch : List Lead) (slots : Slots) (l : Lead)
    → IsLead asset protocol batch slots l
    → (is_near_miss asset l ≡ true) × (IsIn l batch ⊎ IsElsewhere l protocol slots)
unfolding IsLead is_near_miss
IsLead-is_near_miss asset protocol batch slots l (a, b, c, source) = (ground arith, source)

-- After a batch is published in a registry with one slot for each protocol, the near misses of an
-- asset are at most `max`, those closest to the threshold first, each has the asset as collateral and
-- a ratio from 10,000 up to but not including 10,500 basis points, and each is of the batch or of
-- another protocol's slot: nothing older of the protocol is left. None of these is missed: a near
-- miss of the batch or of another slot is given, or `max` are given, none riskier than it left out.
pub near_misses_for-publish :
    (asset : Address) (bound : ℕ) (protocol : Protocol) (batch : List Lead) (slots : Slots)
    → IsRegistry slots
    → let found = near_misses_for asset bound (publish protocol batch slots) in
      (length found ≤ bound)
      × IsSorted is_riskier found
      × All (IsLead asset protocol batch slots) found
      × ((l : Lead)
          → IsLead asset protocol batch slots l
          → IsIn l found ⊎ ((length found ≡ bound) × All (λ r. r.ratio_bps ≤ l.ratio_bps) found))
unfolding near_misses_for is_riskier
near_misses_for-publish asset bound protocol batch slots reg =
    let le : Lead → Lead → Bool = λ a b. leb a.ratio_bps b.ratio_bps in
    let found = filter_near asset (all_leads (publish protocol batch slots)) in
    let sorted = sort_by le found in
    let size : length (take bound sorted) ≡ min bound (length sorted) = length-take bound sorted in
    let order : IsSorted le sorted =
      sort_by-IsSorted le (λ a b h. ground arith) (λ a b c h k. ground arith) found in
    let leads : All (IsLead asset protocol batch slots) found =
      All-filter_near (IsLead asset protocol batch slots) asset
        (all_leads (publish protocol batch slots))
        (λ l in_all near. near-IsLead l (publish-IsIn l protocol batch slots reg in_all) near) in
    (
      omega arith,
      take-IsSorted le bound sorted order,
      All-take (IsLead asset protocol batch slots) bound sorted
          (All-sort_by le (IsLead asset protocol batch slots) found leads),
      λ l lead.
          let (near, source) = IsLead-is_near_miss asset protocol batch slots l lead in
          elim (IsIn-take le bound l sorted order (
            IsIn-sort_by le l found (
              IsIn-filter_near asset l (all_leads (publish protocol batch slots)) near
                (IsIn-publish l protocol batch slots source)))) [
                  | inl given ↦ inl given
                  | inr (full, all) ↦ inr (full, closer l (take bound sorted) all)
                ],
    )
  where
    near-IsLead :
        (l : Lead)
        → IsIn l batch ⊎ IsElsewhere l protocol slots
        → is_near_miss asset l ≡ true
        → IsLead asset protocol batch slots l
    near-IsLead l source near =
        unfold IsLead is_near_miss in (ground arith, ground arith, ground arith, source)

    closer :
        (l : Lead) (rs : List Lead)
        → All (λ r. leb r.ratio_bps l.ratio_bps ≡ true) rs
        → All (λ r. r.ratio_bps ≤ l.ratio_bps) rs
    closer l [] h = tt
    closer l (r ∷ rs) (h, hs) = (ground arith, closer l rs hs)

-- A ratio lies in the near-miss band exactly when the collateral at the threshold covers the debt, by
-- less than a twentieth, where its value in basis points fits a word.
pub ratio_bps-near_iff :
    (collateral debt effective : ℕ) (lltv : Option ℕ)
    → 0 < debt
    → effective_of collateral lltv ≡ some effective
    → effective * 10_000 < u256_mod
    → ((near_miss_min_bps ≤ ratio_bps collateral lltv debt)
        × (ratio_bps collateral lltv debt < near_miss_max_bps))
      ↔ ((debt ≤ effective) × (effective * 10_000 < debt * 10_500))
unfolding ratio_bps
ratio_bps-near_iff collateral debt effective lltv pos at small =
    let some_debt : (debt == 0) ≡ false = ground arith in
    let exact : saturating_mul u256_mod effective 10_000 ≡ effective * 10_000 = omega arith in
    let q = effective * 10_000 / debt in
    let (low, low1) : (10_000 ≤ q) ↔ (10_000 * debt ≤ effective * 10_000) = le-div_iff_mul-le pos in
    let (high, high1) : (q < 10_500) ↔ (effective * 10_000 < 10_500 * debt) =
      div-lt_iff_lt-mul pos in
    rw (some_debt, at)
      (rw exact (elim (Bool-cases (ltb (u64_mod - 1) q)) [
        | inl capped ↦
            rw capped
              (λ (_, h). omega arith, λ (_, b). let small_q = high1 (omega arith) in ground arith)
        | inr free ↦ rw free (
          λ (a, b). let h = low a in let k = high b in (omega arith, omega arith),
          λ (a, b). (low1 (omega arith), high1 (omega arith)),
        )
      ]))
