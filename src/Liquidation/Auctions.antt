-- ===== src/Liquidation/Auctions.antt =====
-- The lot that `auction_math` of bot/crates/mev-bot/src/strategies/liquidation_maker.rs sizes.
use arrow_head.Prelude.{
  true, suc, ℕ, ◌-◌, ◌*◌, ◌/◌, ◌≤◌, ◌<◌, ◌≡◌, ◌⊎◌, inl, inr, refl, min, arith, false, u256_mod,
  sub256, mul256, mul256_lem, sub256_lem, Bool-cases, ◌==◌, ◌↔◌, ltb,
}
use arrow_head.Prelude.Outcome.{value, absent}
use arrow_head.Liquidation.{
  wad, Terms, Lot, divided, room_of, dart_of, lot_of, is_empty_urn, is_safe, is_out_of_room,
  auction_math,
}
use native.Mathlib.Nat.{
  le-div_iff_mul-le, div-lt_iff_lt-mul, mul-le-mul_left, mul-le-mul_right, le_refl,
}

divided-pos : (a b : ℕ) → 0 < b → divided a b ≡ value (a / b)
unfolding divided
divided-pos a b pos = let some_b : (b == 0) ≡ false = ground arith in rw some_b refl

-- The products of an auction fit a word and nothing is divided by zero.
pub record IsWithin (a : Terms) : Type 0 where
  pub rate_pos : 0 < a.rate
  pub chop_pos : 0 < a.chop
  pub hole_word : a.hole < u256_mod
  pub ilk_hole_word : a.ilk_hole < u256_mod
  pub art_word : a.art < u256_mod
  pub room_fits : room_of a * wad < u256_mod
  pub sale_fits : a.ink * a.art < u256_mod
  pub debt_fits : a.art * a.rate < u256_mod
  pub tab_fits : a.art * a.rate * a.chop < u256_mod

-- The room of the dog and of the ilk, in exact numbers.
abbrev pub room_left : Terms → ℕ
room_left a = min (a.hole - a.dirt) (a.ilk_hole - a.ilk_dirt)

-- The greatest debt whose tab fits the room.
pub record IsCap (a : Terms) (cap : ℕ) : Type 0 where
  pub fits : cap * a.rate * a.chop ≤ room_left a * wad
  pub greatest : room_left a * wad < suc cap * a.rate * a.chop

-- The debt that is sold: all of it where that fits the room, else the greatest that does, or all of
-- it where what is left would be dust.
unfoldable pub IsSale : Terms → ℕ → Type 0
IsSale a dart =
    (cap : ℕ) × IsCap a cap
    × (((a.art ≤ cap) × (dart ≡ a.art))
        ⊎ (((cap < a.art) × (a.dust ≤ (a.art - cap) * a.rate) × (dart ≡ cap))
            ⊎ ((cap < a.art) × ((a.art - cap) * a.rate < a.dust) × (dart ≡ a.art))))

-- What the dog sells of an unsafe urn with room left.
pub record IsAuction (a : Terms) (lot : Lot) : Type 0 where
  pub unsafe : a.ink * a.spot < a.art * a.rate
  pub room : (a.dirt < a.hole) × (a.ilk_dirt < a.ilk_hole)
  pub some_debt : 0 < lot.dart
  pub some_ink : 0 < lot.dink
  pub sale : IsSale a lot.dart
  pub share : lot.dink ≡ a.ink * lot.dart / a.art
  pub tab : lot.tab ≡ lot.dart * a.rate * a.chop / wad

-- Why nothing is sold: the urn is without collateral or price, it is safe, there is no room, or the
-- sale would take no collateral.
unfoldable pub IsRefused : Terms → Type 0
IsRefused a =
    ((a.ink ≡ 0) ⊎ (a.spot ≡ 0))
    ⊎ ((a.art * a.rate ≤ a.ink * a.spot)
        ⊎ (((a.hole ≤ a.dirt) ⊎ (a.ilk_hole ≤ a.ilk_dirt))
            ⊎ ((dart : ℕ) × IsSale a dart × (a.ink * dart < a.art))))

-- The two divisions give the greatest debt whose tab fits.
divided-IsCap :
    (a : Terms) → 0 < a.rate → 0 < a.chop → IsCap a (room_left a * wad / a.rate / a.chop)
divided-IsCap a r c =
    let n = room_left a * wad in
    let q = n / a.rate in
    let cap = q / a.chop in
    let (once, _) : (cap ≤ q / a.chop) ↔ (cap * a.chop ≤ q) = le-div_iff_mul-le c in
    let (twice, _) : (cap * a.chop ≤ q) ↔ (cap * a.chop * a.rate ≤ n) = le-div_iff_mul-le r in
    let within = twice (once (le_refl cap)) in
    let (above, _) : (q / a.chop < suc cap) ↔ (q < suc cap * a.chop) = div-lt_iff_lt-mul c in
    let (beyond, _) : (n / a.rate < suc cap * a.chop) ↔ (n < suc cap * a.chop * a.rate) =
      div-lt_iff_lt-mul r in
    let next = beyond (above (omega arith)) in
    let swap : cap * a.rate * a.chop ≡ cap * a.chop * a.rate = grind arith in
    let swap1 : suc cap * a.rate * a.chop ≡ suc cap * a.chop * a.rate = grind arith in
    record { fits = omega (arith, within, swap); greatest = omega (arith, next, swap1) }

-- A lot takes its dart, some of the collateral for it, and the tab of the dart.
record IsLotOf (a : Terms) (dart : ℕ) (lot : Lot) : Type 0 where
  takes : lot.dart ≡ dart
  some_dart : 0 < dart
  some_dink : 0 < lot.dink
  dink_of : lot.dink ≡ a.ink * dart / a.art
  tab_of : lot.tab ≡ dart * a.rate * a.chop / wad

lot_of-IsLotOf :
    (a : Terms) (dart : ℕ)
    → IsWithin a
    → 0 < a.art
    → dart ≤ a.art
    → ((lot_of a dart ≡ absent) × (a.ink * dart < a.art))
      ⊎ ((lot : Lot) × (lot_of a dart ≡ value lot) × IsLotOf a dart lot)
unfolding lot_of
lot_of-IsLotOf a dart w pos part =
    let sale : a.ink * dart ≤ a.ink * a.art = mul-le-mul_left a.ink part in
    let debt : dart * a.rate ≤ a.art * a.rate = mul-le-mul_right a.rate part in
    let tab : dart * a.rate * a.chop ≤ a.art * a.rate * a.chop = mul-le-mul_right a.chop debt in
    let s : mul256 a.ink dart ≡ a.ink * dart =
      mul256_lem a.ink dart (omega (arith, sale, w.sale_fits)) in
    let d : mul256 dart a.rate ≡ dart * a.rate =
      mul256_lem dart a.rate (omega (arith, debt, w.debt_fits)) in
    let t : mul256 (dart * a.rate) a.chop ≡ dart * a.rate * a.chop =
      mul256_lem (dart * a.rate) a.chop (omega (arith, tab, w.tab_fits)) in
    let q = a.ink * dart / a.art in
    rw (s, divided-pos (a.ink * dart) a.art pos)
      (rw d (
        rw t (elim (Bool-cases (dart == 0)) [
          | inl nothing ↦
              let (below, _) : (q < 1) ↔ (a.ink * dart < 1 * a.art) = div-lt_iff_lt-mul pos in
              let few = below (ground arith) in rw nothing (inl (refl, omega (arith, few)))
          | inr some_dart ↦ rw some_dart (elim (Bool-cases (q == 0)) [
            | inl nothing ↦
                let (below, _) : (q < 1) ↔ (a.ink * dart < 1 * a.art) = div-lt_iff_lt-mul pos in
                let few = below (ground arith) in rw nothing (inl (refl, omega (arith, few)))
            | inr some_dink ↦ rw some_dink (
                inr (
                  record { dink = q; dart = dart; tab = dart * a.rate * a.chop / wad },
                  refl,
                  record {
                    takes = refl;
                    some_dart = ground arith;
                    some_dink = ground arith;
                    dink_of = refl;
                    tab_of = refl;
                  },
                ))
          ])
        ])))

-- The debt that the code takes of an urn is what is to be sold.
dart_of-IsSale :
    (a : Terms) (cap : ℕ)
    → IsWithin a
    → IsCap a cap
    → (dart_of a cap ≤ a.art) × IsSale a (dart_of a cap)
unfolding IsSale
dart_of-IsSale a cap w greatest =
    let dart = min a.art cap in
    let d : sub256 a.art dart ≡ a.art - dart = sub256_lem a.art dart w.art_word (omega arith) in
    let less : a.art - dart ≤ a.art = omega arith in
    let debt : (a.art - dart) * a.rate ≤ a.art * a.rate = mul-le-mul_right a.rate less in
    let m : mul256 (a.art - dart) a.rate ≡ (a.art - dart) * a.rate =
      mul256_lem (a.art - dart) a.rate (omega (arith, debt, w.debt_fits)) in
    rw d (
      rw m (elim (Bool-cases (ltb dart a.art)) [
        | inl partial ↦
            let capped : dart ≡ cap = ground arith in
            let more : cap < a.art = ground arith in
            rw partial (elim (Bool-cases (ltb ((a.art - dart) * a.rate) a.dust)) [
              | inl dusty ↦
                  let h : (a.art - dart) * a.rate < a.dust = ground arith in
                  rw dusty (omega arith, (cap, greatest, inr (inr (more, rw capped at h, refl))))
              | inr clean ↦
                  let h : a.dust ≤ (a.art - dart) * a.rate = ground arith in
                  rw clean (omega arith, (cap, greatest, inr (inl (more, rw capped at h, capped))))
            ])
        | inr whole ↦
            let e : dart ≡ a.art = ground arith in
            rw whole (omega arith, (cap, greatest, inl (omega (arith, e), e)))
      ]))

empty-IsRefused : (a : Terms) → is_empty_urn a ≡ true → IsRefused a
unfolding IsRefused
empty-IsRefused a empty = elim (Bool-cases (a.art == 0)) [
  | inl no_debt ↦
      let z : a.art ≡ 0 = ground arith in
      let none_owed : a.art * a.rate ≡ 0 = rw z (omega arith) in
      inr (inl (omega (arith, none_owed)))
  | inr some_debt ↦ elim (Bool-cases (a.spot == 0)) [
    | inl free ↦ inl (inr (ground arith))
    | inr priced ↦ inl (inl (ground arith))
  ]
]

is_safe-le : (a : Terms) → IsWithin a → is_safe a ≡ true → a.art * a.rate ≤ a.ink * a.spot
is_safe-le a w safe = ground (arith, w.debt_fits)

is_safe-lt : (a : Terms) → IsWithin a → is_safe a ≡ false → a.ink * a.spot < a.art * a.rate
is_safe-lt a w not_safe = ground (arith, w.debt_fits)

is_out_of_room-le :
    (a : Terms) → is_out_of_room a ≡ true → (a.hole ≤ a.dirt) ⊎ (a.ilk_hole ≤ a.ilk_dirt)
is_out_of_room-le a full = ground arith

room_of-room_left :
    (a : Terms)
    → IsWithin a
    → is_out_of_room a ≡ false
    → (room_of a ≡ room_left a) × (a.dirt < a.hole) × (a.ilk_dirt < a.ilk_hole)
room_of-room_left a w has_room =
    let hole : a.dirt < a.hole = ground arith in
    let ilk : a.ilk_dirt < a.ilk_hole = ground arith in
    (
      rw
          (
            sub256_lem a.hole a.dirt w.hole_word (omega arith),
            sub256_lem a.ilk_hole a.ilk_dirt w.ilk_hole_word (omega arith),
          )
          refl,
      hole,
      ilk,
    )

-- Where the products of an auction fit a word and its rate and its chop are above zero, the sizing
-- does not panic. It gives a lot of an unsafe urn within both limits, or nothing where the urn has no
-- collateral or no price, is safe, there is no room, or the sale would take no collateral. The debt
-- that is sold is all of the urn's where its tab fits the room of the dog and of the ilk, else the
-- greatest whose tab fits, unless what is left of it would be dust: then it is all. The collateral is
-- the share of that debt.
pub auction_math-IsAuction :
    (a : Terms)
    → IsWithin a
    → ((auction_math a ≡ absent) × IsRefused a)
      ⊎ ((lot : Lot) × (auction_math a ≡ value lot) × IsAuction a lot)
unfolding auction_math IsRefused
auction_math-IsAuction a w = elim (Bool-cases (is_empty_urn a)) [
  | inl empty ↦ rw empty (inl (refl, empty-IsRefused a empty))
  | inr filled ↦ rw filled (elim (Bool-cases (is_safe a)) [
    | inl safe ↦ rw safe (inl (refl, inr (inl (is_safe-le a w safe))))
    | inr not_safe ↦ rw not_safe (elim (Bool-cases (is_out_of_room a)) [
      | inl full ↦ rw full (inl (refl, inr (inr (inl (is_out_of_room-le a full)))))
      | inr has_room ↦
          let (r, hole, ilk) = room_of-room_left a w has_room in
          let cap = room_left a * wad / a.rate / a.chop in
          let pos : 0 < a.art = ground arith in
          let fits : room_left a * wad < u256_mod = rw r at w.room_fits in
          let (part, sale) = dart_of-IsSale a cap w (divided-IsCap a w.rate_pos w.chop_pos) in
          rw
            (
              has_room,
              r,
              mul256_lem (room_left a) wad fits,
              divided-pos (room_left a * wad) a.rate w.rate_pos,
              divided-pos (room_left a * wad / a.rate) a.chop w.chop_pos,
            )
            (elim (lot_of-IsLotOf a (dart_of a cap) w pos part) [
              | inl (nothing, none_sold) ↦
                  inl (nothing, inr (inr (inr (dart_of a cap, sale, none_sold))))
              | inr (lot, e, l) ↦ inr (
                lot,
                e,
                record {
                  unsafe = is_safe-lt a w not_safe;
                  room = (hole, ilk);
                  some_debt = rw l.takes l.some_dart;
                  some_ink = l.some_dink;
                  sale = rw l.takes sale;
                  share = rw l.takes l.dink_of;
                  tab = rw l.takes l.tab_of;
                },
              )
            ])
    ])
  ])
]
