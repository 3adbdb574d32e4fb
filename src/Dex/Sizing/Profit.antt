-- ===== src/Dex/Sizing/Profit.antt =====
-- What the sizes of bot/crates/mev-bot/src/dex.rs earn.
use arrow_head.Prelude.{
  ℕ, ◌+◌, ◌-◌, ◌≤◌, ◌<◌, ◌≡◌, min, refl, arith, some, Bool-cases, if◌then◌else◌, ◌==◌, ◌||◌, inl,
  inr, Option-cases, ==_iff, ap, ◌∙◌, add256, sub256, sub256_lem, true, false,
}
use arrow_head.Prelude.Outcome.{Outcome, value, absent, panicked, out_of_fuel}
use arrow_head.Types.{Address}
use arrow_head.Dex.{V2Pool, v2_amount_out, reserves_for, other_token, amount_out, with_swap}
use arrow_head.Dex.Words.{u112_mod}
use arrow_head.Dex.Search.Peak.{ternary_search_max-IsFound, IsFound}
use arrow_head.Dex.Sizing.{
  SandwichSizing, front_of, back_of, victim_of, sandwich_profit, sandwich_of, optimal_sandwich_in,
  arb_profit, optimal_two_leg_arb, two_leg_between,
}

-- What a profit of a sandwich rests on.
sandwich_profit-pos :
    (r_in r_out fee victim_amount_in victim_min_out x : ℕ)
    → 0 < sandwich_profit r_in r_out fee victim_amount_in victim_min_out x
    → (sandwich_profit r_in r_out fee victim_amount_in victim_min_out x
        ≡ back_of r_in r_out fee victim_amount_in x - x)
      × (victim_min_out ≤ victim_of r_in r_out fee victim_amount_in x)
      × (front_of r_in r_out fee victim_amount_in x < r_out)
      × (victim_of r_in r_out fee victim_amount_in x
          < sub256 r_out (front_of r_in r_out fee victim_amount_in x))
unfolding sandwich_profit
sandwich_profit-pos r_in r_out fee victim_amount_in victim_min_out x pos = ground arith

-- The three trades on the pool, one after the other: the front-run, the victim's, and the back-run of
-- what the front-run bought, on the pool that the first two leave.
unfoldable pub IsSandwich : V2Pool → Address → ℕ → SandwichSizing → Type 0
IsSandwich p t victim s =
    (between after : V2Pool) × (other : Address) × (other_token p t ≡ some other)
    × (with_swap p t s.amount_in ≡ some (between, s.front_out))
    × (with_swap between t victim ≡ some (after, s.victim_out))
    × (amount_out after other s.front_out ≡ some s.back_out)

-- A sandwich within the caps: the back-run returns the input and the profit, and the victim gets
-- what it asked for.
unfoldable pub IsSized : V2Pool → Address → ℕ → ℕ → ℕ → Outcome SandwichSizing → Type 0
IsSized p t victim victim_min_out max_in (value s) =
    (0 < s.amount_in)
    × (s.amount_in ≤ max_in)
    × (0 < s.gross_profit)
    × (s.back_out ≡ s.amount_in + s.gross_profit)
    × (victim_min_out ≤ s.victim_out)
    × IsSandwich p t victim s
IsSized p t victim victim_min_out max_in absent = Unit {0}
IsSized p t victim victim_min_out max_in panicked = ⊥
IsSized p t victim victim_min_out max_in out_of_fuel = ⊥

pub reserves_for-lt :
    (p : V2Pool) (t : Address) (r : ℕ × ℕ)
    → p.reserve0 < u112_mod
    → p.reserve1 < u112_mod
    → reserves_for p t ≡ some r
    → (r.0 < u112_mod) × (r.1 < u112_mod)
unfolding reserves_for
reserves_for-lt p t (a, b) h0 h1 e = ground arith

-- The trades that the sizing prices are those on the pool.
IsSandwich-legs :
    (p : V2Pool) (t : Address) (r_in r_out victim x v : ℕ)
    → (p.token0 == p.token1) ≡ false
    → r_out < u112_mod
    → reserves_for p t ≡ some (r_in, r_out)
    → front_of r_in r_out p.fee_bps victim x < r_out
    → victim_of r_in r_out p.fee_bps victim x
      < sub256 r_out (front_of r_in r_out p.fee_bps victim x)
    → IsSandwich p t victim record {
      amount_in = x;
      front_out = front_of r_in r_out p.fee_bps victim x;
      back_out = back_of r_in r_out p.fee_bps victim x;
      gross_profit = v;
      victim_out = victim_of r_in r_out p.fee_bps victim x;
    }
unfolding IsSandwich with_swap amount_out other_token reserves_for
IsSandwich-legs p t r_in r_out victim x v apart small found less more =
    let f = front_of r_in r_out p.fee_bps victim x in
    let w = victim_of r_in r_out p.fee_bps victim x in
    let sold : sub256 r_out f ≡ r_out - f = sub256_lem r_out f (omega arith) (omega arith) in
    let left : sub256 (sub256 r_out f) w ≡ sub256 r_out f - w =
      sub256_lem (sub256 r_out f) w (omega arith) (omega arith) in
    elim (Bool-cases (t == p.token0)) [
      | inl first ↦
          let same = rw first at found in
          let e0 : p.reserve0 ≡ r_in = cc in
          let e1 : p.reserve1 ≡ r_out = cc in
          let back : (p.token1 == p.token0) ≡ false = ground arith in
          let itself : (p.token1 == p.token1) ≡ true = ground arith in
          (
            record p { reserve0 = add256 r_in x; reserve1 = r_out - f },
            record p { reserve0 = add256 (add256 r_in x) victim; reserve1 = r_out - f - w },
            p.token1,
            rw first refl,
            rw (first, e0, e1) refl,
            rw (first, sold) refl,
            rw (back, itself, left) (rw sold refl),
          )
      | inr not_first ↦
          let second : (t == p.token1) ≡ true = ground arith in
          let same = rw (not_first, second) at found in
          let e0 : p.reserve1 ≡ r_in = cc in
          let e1 : p.reserve0 ≡ r_out = cc in
          let itself : (p.token0 == p.token0) ≡ true = ground arith in
          (
            record p { reserve1 = add256 r_in x; reserve0 = r_out - f },
            record p { reserve1 = add256 (add256 r_in x) victim; reserve0 = r_out - f - w },
            p.token0,
            rw (not_first, second) refl,
            rw (not_first, second) (rw (e0, e1) refl),
            rw (not_first, second, sold) refl,
            rw (itself, left) (rw sold refl),
          )
    ]

sandwich_of-IsSized :
    (p : V2Pool) (t : Address) (r_in r_out victim victim_min_out max_in : ℕ) (best : ℕ × ℕ)
    → (p.token0 == p.token1) ≡ false
    → r_out < u112_mod
    → reserves_for p t ≡ some (r_in, r_out)
    → IsFound (sandwich_profit r_in r_out p.fee_bps victim victim_min_out) 0 (min max_in r_in) best
    → IsSized p t victim victim_min_out max_in (sandwich_of r_in r_out p.fee_bps victim best)
unfolding sandwich_of IsFound IsSized
sandwich_of-IsSized p t r_in r_out victim victim_min_out max_in (x, v) apart small found
      (_, cap, e) =
    elim (Bool-cases (v == 0 || x == 0)) [
      | inl h ↦ rw h tt
      | inr h ↦
          let pos : 0 < v = ground arith in
          let (gain, kept, less, more) =
            sandwich_profit-pos r_in r_out p.fee_bps victim victim_min_out x (rw e at pos) in
          rw h (
            ground arith,
            ground arith,
            pos,
            omega arith,
            kept,
            IsSandwich-legs p t r_in r_out victim x v apart small found less more,
          )
    ]

-- On a pool of two tokens with reserves below 2^112 the sizing ends without a panic. A sandwich that
-- it gives spends no more than `max_in`; its amounts are those of the front-run, the victim's trade
-- and the back-run made on the pool one after the other; the back-run returns the input and the
-- profit it names, which is above zero, and the victim receives at least its minimum.
pub optimal_sandwich_in-IsSized :
    (p : V2Pool) (t : Address) (victim victim_min_out max_in : ℕ)
    → (p.token0 == p.token1) ≡ false
    → p.reserve0 < u112_mod
    → p.reserve1 < u112_mod
    → IsSized p t victim victim_min_out max_in
        (optimal_sandwich_in p t victim victim_min_out max_in)
unfolding optimal_sandwich_in
optimal_sandwich_in-IsSized p t victim victim_min_out max_in apart h0 h1 =
    elim (Option-cases (reserves_for p t)) [
      | inl missing ↦ rw missing (unfold IsSized in tt)
      | inr ((r_in, r_out), found) ↦
          let (in_lt, out_lt) = reserves_for-lt p t (r_in, r_out) h0 h1 found in
          let profit = sandwich_profit r_in r_out p.fee_bps victim victim_min_out in
          let (best, ends, at) =
            ternary_search_max-IsFound 0 (min max_in r_in) profit (omega arith) (omega arith) in
          rw found (elim (Bool-cases (r_in == 0 || r_out == 0 || victim == 0)) [
            | inl t1 ↦ rw t1 (unfold IsSized in tt)
            | inr t1 ↦
                rw (t1, ends)
                  (sandwich_of-IsSized p t r_in r_out victim victim_min_out max_in best apart out_lt
                    found at)
          ])
    ]

-- A round trip through both pools that returns the input and a profit.
unfoldable pub IsArb : V2Pool → V2Pool → Address → ℕ → Outcome (ℕ × ℕ) → Type 0
IsArb a b t max_in (value (x, p)) =
    (0 < x)
    × (x ≤ max_in)
    × (0 < p)
    × ((token_mid : Address) × (mid : ℕ) × (other_token a t ≡ some token_mid)
        × (other_token b token_mid ≡ some t)
        × (amount_out a t x ≡ some mid)
        × (amount_out b token_mid mid ≡ some (x + p)))
IsArb a b t max_in absent = Unit {0}
IsArb a b t max_in panicked = ⊥
IsArb a b t max_in out_of_fuel = ⊥

arb_profit-pos :
    (ar_in ar_out a_fee br_in br_out b_fee x : ℕ)
    → 0 < arb_profit ar_in ar_out a_fee br_in br_out b_fee x
    → v2_amount_out (v2_amount_out x ar_in ar_out a_fee) br_in br_out b_fee
      ≡ x + arb_profit ar_in ar_out a_fee br_in br_out b_fee x
unfolding arb_profit
arb_profit-pos ar_in ar_out a_fee br_in br_out b_fee x pos = ground arith

-- What is found is a round trip where the pools fit.
found-IsArb :
    (a b : V2Pool) (t : Address) (max_in : ℕ) (token_mid : Address) (ra rb best : ℕ × ℕ)
    → other_token a t ≡ some token_mid
    → other_token b token_mid ≡ some t
    → reserves_for a t ≡ some ra
    → reserves_for b token_mid ≡ some rb
    → IsFound (arb_profit ra.0 ra.1 a.fee_bps rb.0 rb.1 b.fee_bps) 0 (min max_in ra.0) best
    → IsArb a b t max_in (if best.1 == 0 || best.0 == 0 then absent else value best)
unfolding IsArb IsFound amount_out
found-IsArb a b t max_in token_mid ra rb (x, v) e1 e2 e3 e4 (_, cap, e) =
    elim (Bool-cases (v == 0 || x == 0)) [
      | inl r ↦ rw r tt
      | inr r ↦
          let pos : 0 < v = ground arith in
          let mid = v2_amount_out x ra.0 ra.1 a.fee_bps in
          let gain : v2_amount_out mid rb.0 rb.1 b.fee_bps ≡ x + v =
            rw e (arb_profit-pos ra.0 ra.1 a.fee_bps rb.0 rb.1 b.fee_bps x (rw e at pos)) in
          rw r (
            ground arith,
            omega arith,
            pos,
            (token_mid, mid, e1, e2, rw e3 refl, rw (e4, gain) refl),
          )
    ]

two_leg_between-IsArb :
    (a b : V2Pool) (t : Address) (max_in : ℕ) (mid : Address)
    → a.reserve0 < u112_mod
    → a.reserve1 < u112_mod
    → other_token a t ≡ some mid
    → other_token b mid ≡ some t
    → IsArb a b t max_in (two_leg_between a b t mid max_in)
unfolding two_leg_between
two_leg_between-IsArb a b t max_in mid h0 h1 e1 e2 = elim (Option-cases (reserves_for a t)) [
  | inl missing ↦ rw missing (unfold IsArb in tt)
  | inr (ra, e3) ↦ elim (Option-cases (reserves_for b mid)) [
    | inl missing ↦ rw (e3, missing) (unfold IsArb in tt)
    | inr (rb, e4) ↦
        let (r_lt, _) = reserves_for-lt a t ra h0 h1 e3 in
        let profit = arb_profit ra.0 ra.1 a.fee_bps rb.0 rb.1 b.fee_bps in
        let (best, ends, at) =
          ternary_search_max-IsFound 0 (min max_in ra.0) profit (omega arith) (omega arith) in
        rw (e3, e4)
          (elim (Bool-cases (ra.0 == 0 || ra.1 == 0 || rb.0 == 0 || rb.1 == 0)) [
            | inl z ↦ rw z (unfold IsArb in tt)
            | inr z ↦ rw (z, ends) (found-IsArb a b t max_in mid ra rb best e1 e2 e3 e4 at)
          ])
  ]
]

-- On a first pool with reserves below 2^112 the search ends without a panic, and what it gives is
-- an amount of at most `max_in` which, traded on both pools one after the other, comes back in the
-- same token with the profit it names, which is above zero.
pub optimal_two_leg_arb-IsArb :
    (a b : V2Pool) (t : Address) (max_in : ℕ)
    → a.reserve0 < u112_mod
    → a.reserve1 < u112_mod
    → IsArb a b t max_in (optimal_two_leg_arb a b t max_in)
unfolding optimal_two_leg_arb
optimal_two_leg_arb-IsArb a b t max_in h0 h1 = elim (Option-cases (other_token a t)) [
  | inl missing ↦ rw missing (unfold IsArb in tt)
  | inr (mid, e1) ↦ elim (Option-cases (other_token b mid)) [
    | inl missing ↦ rw (e1, missing) (unfold IsArb in tt)
    | inr (back, e2) ↦
        rw (e1, e2)
          (elim (Bool-cases (back == t)) [
            | inl same ↦ rw same (
                two_leg_between-IsArb a b t max_in mid h0 h1 e1
                  (e2 ∙ ap some ((==_iff back t).0 same)))
            | inr other ↦ rw other (unfold IsArb in tt)
          ])
  ]
]
