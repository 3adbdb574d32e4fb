-- ===== src/Dex/Search/Peak.antt =====
-- What `ternary_search_max` of bot/crates/mev-bot/src/dex.rs finds.
use arrow_head.Prelude.{
  ℕ, zero, suc, ◌+◌, ◌-◌, ◌≤◌, ◌<◌, ◌≡◌, ◌⊎◌, inl, inr, refl, arith, add256, add256_lem, ltb, leb,
  Bool-cases, true, false, ◌==◌,
}
use arrow_head.Prelude.Outcome.{value}
use arrow_head.Dex.Words.{u112_mod}
use native.Mathlib.Nat.{le_trans}
use arrow_head.Dex.Search.{
  scan, scan_range, rounds, ternary_search_max, IsPeak, IsWithin, rounds-IsWithin, rounds-peak,
  reach, reach_covers,
}

-- The value of the function at a point of the range.
unfoldable pub IsFound : (ℕ → ℕ) → ℕ → ℕ → ℕ × ℕ → Type 0
IsFound f a b (x, v) = (a ≤ x) × (x ≤ b) × (v ≡ f x)

scan-IsFound :
    (f : ℕ → ℕ) (a b fuel hi x : ℕ) (best : ℕ × ℕ)
    → hi < u112_mod
    → hi ≤ b
    → a ≤ x
    → x ≤ hi + 1
    → hi + 1 < fuel + x
    → IsFound f a b best
    → (r : ℕ × ℕ) × (scan f fuel hi x best ≡ value r) × IsFound f a b r
unfolding scan
scan-IsFound f a b zero hi x best hb hle ax xle enough found = ground arith
scan-IsFound f a b (suc fuel) hi x (y, v) hb hle ax xle enough found =
    let e : add256 x 1 ≡ x + 1 = add256_lem x 1 (omega arith) in
    elim (Bool-cases (leb x hi)) [
      | inl more ↦
          rw (more, e)
            (elim (Bool-cases (ltb v (f x))) [
              | inl t ↦ rw t (
                  scan-IsFound f a b fuel hi (x + 1) (x, f x) hb hle (omega arith) (ground arith)
                    (omega arith) (unfold IsFound in (ax, ground arith, refl)))
              | inr t ↦ rw t (
                  scan-IsFound f a b fuel hi (x + 1) (y, v) hb hle (omega arith) (ground arith)
                    (omega arith) found)
            ])
      | inr done ↦ rw done ((y, v), refl, found)
    ]

-- The scan keeps a peak that it has passed.
scan-passed :
    (f : ℕ → ℕ) (a p b fuel hi x : ℕ)
    → hi < u112_mod
    → hi ≤ b
    → a ≤ x
    → a ≤ p
    → p ≤ hi
    → x ≤ hi + 1
    → hi + 1 < fuel + x
    → IsPeak f a p b
    → scan f fuel hi x (p, f p) ≡ value (p, f p)
unfolding scan IsPeak
scan-passed f a p b zero hi x hb hle ax ap ph xle enough peak = ground arith
scan-passed f a p b (suc fuel) hi x hb hle ax ap ph xle enough (rise, fall) =
    let e : add256 x 1 ≡ x + 1 = add256_lem x 1 (omega arith) in
    elim (Bool-cases (leb x hi)) [
      | inl more ↦
          let no_more : ltb (f p) (f x) ≡ false = elim (Bool-cases (ltb x p)) [
            | inl t ↦ ground (arith, rise x p)
            | inr t ↦ ground (arith, fall p x)
          ] in
          rw (more, e, no_more)
            (scan-passed f a p b fuel hi (x + 1) hb hle (omega arith) ap ph (ground arith)
              (omega arith) (rise, fall))
      | inr done ↦ rw done refl
    ]

-- The scan takes the peak when it comes to it.
scan-peak :
    (f : ℕ → ℕ) (a p b fuel hi x y v : ℕ)
    → hi < u112_mod
    → hi ≤ b
    → a ≤ x
    → x ≤ p
    → p ≤ hi
    → hi + 1 < fuel + x
    → IsPeak f a p b
    → v < f p
    → scan f fuel hi x (y, v) ≡ value (p, f p)
unfolding scan IsPeak
scan-peak f a p b zero hi x y v hb hle ax xp ph enough peak low = ground arith
scan-peak f a p b (suc fuel) hi x y v hb hle ax xp ph enough (rise, fall) low =
    let e : add256 x 1 ≡ x + 1 = add256_lem x 1 (omega arith) in
    let more : leb x hi ≡ true = ground arith in
    elim (Bool-cases (x == p)) [
      | inl here ↦
          let same : x ≡ p = ground arith in
          let higher : ltb v (f x) ≡ true = rw same (ground arith) in
          rw (more, e, higher, same)
            (scan-passed f a p b fuel hi (p + 1) hb hle (omega arith) (omega arith) ph (omega arith)
              (omega arith) (rise, fall))
      | inr ahead ↦
          let before : x < p = ground arith in
          rw (more, e)
            (elim (Bool-cases (ltb v (f x))) [
              | inl t ↦ rw t (
                  scan-peak f a p b fuel hi (x + 1) x (f x) hb hle (omega arith) (omega arith) ph
                    (omega arith) (rise, fall) (rise x p ax before (omega arith)))
              | inr t ↦ rw t (
                  scan-peak f a p b fuel hi (x + 1) y v hb hle (omega arith) (omega arith) ph
                    (omega arith) (rise, fall) low)
            ])
    ]

-- For any function and a range below 2^112 the search ends, with a point of the range and the
-- value there.
pub ternary_search_max-IsFound :
    (a b : ℕ) (f : ℕ → ℕ)
    → a ≤ b
    → b < u112_mod
    → (r : ℕ × ℕ) × (ternary_search_max a b f ≡ value r) × IsFound f a b r
unfolding ternary_search_max scan_range IsWithin
ternary_search_max-IsFound a b f le hb =
    let range = rounds f 256 (a, b) in
    let cover : u112_mod ≤ reach 256 = reach_covers in
    let ((h0, h1, h2), narrow_left) =
      rounds-IsWithin f a b 256 (a, b) hb (omega arith, le, omega arith)
        (le_trans {m = u112_mod} (omega arith) cover) in
    scan-IsFound f a b (range.1 + 2 - range.0) range.1 range.0 (range.0, f range.0) (omega arith) h2
      h0 (omega arith) (omega arith) (unfold IsFound in (h0, omega arith, refl))

at_or_before : (x p : ℕ) → x ≤ p → (x ≡ p) ⊎ (x < p)
at_or_before x p le = elim (Bool-cases (x == p)) [
  | inl e ↦ inl (ground arith)
  | inr e ↦ inr (ground arith)
]

-- For a function that rises strictly up to a point of the range and does not rise after it, with
-- the range below 2^112, the search returns that point and the value there.
pub ternary_search_max-peak :
    (a p b : ℕ) (f : ℕ → ℕ)
    → a ≤ p
    → p ≤ b
    → b < u112_mod
    → IsPeak f a p b
    → ternary_search_max a b f ≡ value (p, f p)
unfolding ternary_search_max scan_range IsWithin IsPeak
ternary_search_max-peak a p b f ap pb hb (rise, fall) =
    let range = rounds f 256 (a, b) in
    let cover : u112_mod ≤ reach 256 = reach_covers in
    let within : (a ≤ a) × (a ≤ b) × (b ≤ b) = (omega arith, omega arith, omega arith) in
    let narrow_enough : b - a ≤ reach 256 = le_trans {m = u112_mod} (omega arith) cover in
    let ((h0, h1, h2), _) = rounds-IsWithin f a b 256 (a, b) hb within narrow_enough in
    let (lp, ph) = rounds-peak f a p b 256 (a, b) hb (rise, fall) within narrow_enough ap pb in
    elim (at_or_before range.0 p lp) [
      | inl same ↦ rw same (
          scan-passed f a p b (range.1 + 2 - p) range.1 p (omega arith) h2 ap ap ph (omega arith)
            (omega arith) (rise, fall))
      | inr before ↦
          scan-peak f a p b (range.1 + 2 - range.0) range.1 range.0 range.0 (f range.0)
            (omega arith) h2 h0 lp ph (omega arith) (rise, fall)
            (rise range.0 p h0 before (omega arith))
    ]
