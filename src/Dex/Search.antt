-- ===== src/Dex/Search.antt =====
-- `ternary_search_max` of bot/crates/mev-bot/src/dex.rs: the narrowing loop, at most 256 rounds, and
-- the scan of what is left.
pub mod Peak
use arrow_head.Prelude.{
  ℕ, zero, suc, ◌+◌, ◌-◌, ◌*◌, ◌/◌, ◌%◌, ◌^◌, ◌≤◌, ◌<◌, ◌≡◌, ◌⊎◌, inl, inr, refl, sym, subst, arith,
  u256_mod, add256, add256_lem, ltb, leb, Bool-cases, true, false, if◌then◌else◌,
}
use arrow_head.Prelude.Outcome.{Outcome, value, absent, panicked, out_of_fuel}
use arrow_head.Dex.Words.{u112_mod}

-- One round: a third is cut off on the side of the smaller probe.
unfoldable narrow : (ℕ → ℕ) → ℕ → ℕ → ℕ × ℕ
narrow f lo hi =
    let span = hi - lo in
    let m1 = add256 lo (span / 3) in
    let m2 = hi - span / 3 in if ltb (f m1) (f m2) then (add256 m1 1, hi) else (lo, m2)

-- The first argument is what `guard` leaves of its 256 rounds.
unfoldable rounds : (ℕ → ℕ) → ℕ → ℕ × ℕ → ℕ × ℕ
rounds f zero range = range
rounds f (suc k) (lo, hi) = if ltb (add256 lo 2) hi then rounds f k (narrow f lo hi) else (lo, hi)

unfoldable scan : (ℕ → ℕ) → ℕ → ℕ → ℕ → ℕ × ℕ → Outcome (ℕ × ℕ)
scan f zero hi x best = out_of_fuel
scan f (suc fuel) hi x (best, best_v) =
    let rest =
      scan f fuel hi (add256 x 1) (if ltb best_v (f x) then (x, f x) else (best, best_v)) in
    if leb x hi then rest else value (best, best_v)

unfoldable scan_range : (ℕ → ℕ) → ℕ × ℕ → Outcome (ℕ × ℕ)
scan_range f (lo, hi) = scan f (hi + 2 - lo) hi lo (lo, f lo)

unfoldable pub ternary_search_max : ℕ → ℕ → (ℕ → ℕ) → Outcome (ℕ × ℕ)
unfolding scan_range rounds scan narrow
ternary_search_max lo hi f = scan_range f (rounds f 256 (lo, hi))

-- The width that so many rounds bring down to two.
abbrev reach : ℕ → ℕ
reach zero = 2
reach (suc k) = reach k + reach k / 2

reach_covers : u112_mod ≤ reach 256
reach_covers = omega arith

-- A range within bounds.
unfoldable pub IsWithin : ℕ → ℕ → ℕ × ℕ → Type 0
IsWithin a b (lo, hi) = (a ≤ lo) × (lo ≤ hi) × (hi ≤ b)

narrow-IsWithin :
    (f : ℕ → ℕ) (a b lo hi k : ℕ)
    → b < u112_mod
    → IsWithin a b (lo, hi)
    → lo + 2 < hi
    → hi - lo ≤ reach (suc k)
    → IsWithin a b (narrow f lo hi) × ((narrow f lo hi).1 - (narrow f lo hi).0 ≤ reach k)
unfolding narrow IsWithin
narrow-IsWithin f a b lo hi k hb (h0, h1, h2) wide w =
    let third = (hi - lo) / 3 in
    rw (add256_lem lo third (omega arith), add256_lem (lo + third) 1 (omega arith))
      (elim (Bool-cases (ltb (f (lo + third)) (f (hi - third)))) [
        | inl t ↦ rw t ((omega arith, omega arith, omega arith), omega arith)
        | inr t ↦ rw t ((omega arith, omega arith, omega arith), omega arith)
      ])

rounds-IsWithin :
    (f : ℕ → ℕ) (a b k : ℕ) (range : ℕ × ℕ)
    → b < u112_mod
    → IsWithin a b range
    → range.1 - range.0 ≤ reach k
    → IsWithin a b (rounds f k range) × ((rounds f k range).1 ≤ (rounds f k range).0 + 2)
unfolding rounds
rounds-IsWithin f a b zero (lo, hi) hb h w = (h, omega arith)
rounds-IsWithin f a b (suc k) (lo, hi) hb h w =
    let bounds : (a ≤ lo) × (lo ≤ hi) × (hi ≤ b) = unfold IsWithin in h in
    let e : add256 lo 2 ≡ lo + 2 = add256_lem lo 2 (omega arith) in
    elim (Bool-cases (ltb (add256 lo 2) hi)) [
      | inl t ↦
          let (inside, less) = narrow-IsWithin f a b lo hi k hb h (ground arith) w in
          rw t (rounds-IsWithin f a b k (narrow f lo hi) hb inside less)
      | inr t ↦ rw t (h, ground arith)
    ]

-- A function that rises strictly up to `p` and does not rise after it, on a range.
unfoldable pub IsPeak : (ℕ → ℕ) → ℕ → ℕ → ℕ → Type 0
IsPeak f a p b =
    ((x y : ℕ) → a ≤ x → x < y → y ≤ p → f x < f y)
    × ((x y : ℕ) → p ≤ x → x ≤ y → y ≤ b → f y ≤ f x)

-- A round keeps the peak.
narrow-peak :
    (f : ℕ → ℕ) (a p b lo hi : ℕ)
    → b < u112_mod
    → IsPeak f a p b
    → IsWithin a b (lo, hi)
    → lo + 2 < hi
    → lo ≤ p
    → p ≤ hi
    → ((narrow f lo hi).0 ≤ p) × (p ≤ (narrow f lo hi).1)
unfolding narrow IsWithin IsPeak
narrow-peak f a p b lo hi hb (rise, fall) (h0, h1, h2) wide lp ph =
    let third = (hi - lo) / 3 in
    let m1 = lo + third in
    let m2 = hi - third in
    rw (add256_lem lo third (omega arith), add256_lem (lo + third) 1 (omega arith))
      (elim (Bool-cases (ltb (f m1) (f m2))) [
        | inl t ↦ rw t (elim (Bool-cases (leb p m1)) [
          | inl over ↦ ground (arith, fall m1 m2)
          | inr under ↦ (ground arith, ph)
        ])
        | inr t ↦ rw t (elim (Bool-cases (leb m2 p)) [
          | inl over ↦ ground (arith, rise m1 m2)
          | inr under ↦ (lp, ground arith)
        ])
      ])

rounds-peak :
    (f : ℕ → ℕ) (a p b k : ℕ) (range : ℕ × ℕ)
    → b < u112_mod
    → IsPeak f a p b
    → IsWithin a b range
    → range.1 - range.0 ≤ reach k
    → range.0 ≤ p
    → p ≤ range.1
    → ((rounds f k range).0 ≤ p) × (p ≤ (rounds f k range).1)
unfolding rounds
rounds-peak f a p b zero (lo, hi) hb peak h w lp ph = (lp, ph)
rounds-peak f a p b (suc k) (lo, hi) hb peak h w lp ph =
    let bounds : (a ≤ lo) × (lo ≤ hi) × (hi ≤ b) = unfold IsWithin in h in
    let e : add256 lo 2 ≡ lo + 2 = add256_lem lo 2 (omega arith) in
    elim (Bool-cases (ltb (add256 lo 2) hi)) [
      | inl t ↦
          let wide : lo + 2 < hi = ground arith in
          let (inside, less) = narrow-IsWithin f a b lo hi k hb h wide w in
          let (left, right) = narrow-peak f a p b lo hi hb peak h wide lp ph in
          rw t (rounds-peak f a p b k (narrow f lo hi) hb peak inside less left right)
      | inr t ↦ rw t (lp, ph)
    ]
