-- ===== src/CowAuction/Scores.antt =====
-- The batches that bot/crates/mev-bot/src/cow_auction.rs accepts.
use arrow_head.Prelude.{
  ◌+◌, ◌-◌, ◌*◌, ◌/◌, ◌<◌, some, Option-cases, u256_mod, add256_lem, mul256, mul256_lem, ℕ, ◌≤◌,
  ◌≡◌, ◌≢◌, ◌↔◌, refl, sym, ◌∙◌, arith, Bool, true, false, List, [], ◌∷◌, ◌++◌, length, is_empty,
  ltb, ◌==◌, if◌then◌else◌, All, Bool-cases, inl, inr,
}
use mathlib.Core.List.{append_assoc, append-nil}
use arrow_head.Prelude.Results.{Result, ok, err, ◌>>=◌}
use arrow_head.Prelude.Sets.{contains, Distinct, Distinct-before, Distinct-snoc, ==_sym}
use arrow_head.Types.{Address, B256}
use arrow_head.Types.Pending.{Text}
use arrow_head.CowAuction.{
  CowAuction, CowFillCandidate, CowError, CowShadowScore, Tally, no_tally, Stage, tallied, unfair,
  add_candidate, is_below, is_blank, score_each, verdict_on, score_shadow_solution,
  expected_revert_loss, pair_key, reference_of,
}
use native.Mathlib.Nat.{mul-le-mul_left}

abbrev pub uids_of : List CowFillCandidate → List B256
uids_of [] = []
uids_of (c ∷ cs) = c.order_uid ∷ uids_of cs

unfoldable pub sum_of : List CowFillCandidate → Tally → Tally
sum_of [] t = t
sum_of (c ∷ cs) t = sum_of cs (add_candidate c t)

-- What a fill brings in after its gas and the expected loss of a revert, in exact numbers; nothing
-- where these are more than its surplus.
abbrev pub net_of : CowFillCandidate → ℕ
net_of c = c.surplus_wei - c.gas_cost_wei - c.surplus_wei * c.revert_risk_bps / 10_000

abbrev pub total_net : List CowFillCandidate → ℕ
total_net [] = 0
total_net (c ∷ cs) = net_of c + total_net cs

abbrev pub total_surplus : List CowFillCandidate → ℕ
total_surplus [] = 0
total_surplus (c ∷ cs) = c.surplus_wei + total_surplus cs

-- The score of a candidate that the risk and the size of its surplus allow.
add_candidate-score :
    (c : CowFillCandidate) (t : Tally)
    → c.revert_risk_bps ≤ 10_000
    → (t.score + c.surplus_wei) * 10_000 < u256_mod
    → (add_candidate c t).score ≡ t.score + net_of c
unfolding add_candidate expected_revert_loss
add_candidate-score c t risk small =
    let le : c.surplus_wei * c.revert_risk_bps ≤ c.surplus_wei * 10_000 =
      mul-le-mul_left c.surplus_wei risk in
    let product : mul256 c.surplus_wei c.revert_risk_bps ≡ c.surplus_wei * c.revert_risk_bps =
      mul256_lem c.surplus_wei c.revert_risk_bps (omega (arith, le, small)) in
    rw product (add256_lem t.score (net_of c) (omega (arith, small)))

abbrev DistinctOrders : List B256 → Type 0
DistinctOrders uids = Distinct (λ a b. a == b) uids

abbrev pub is_accepted : Result CowError CowShadowScore → Bool
is_accepted (ok r) = r.accepted
is_accepted (err e) = false

abbrev accepts : Result CowError Stage → Bool
accepts (ok (tallied t)) = if t.score == 0 then false else true
accepts (ok (unfair t key)) = false
accepts (err e) = false

module _ (debug : Address → Text) where
  -- Where the auction has a reference for the pair, the candidate's score reaches it.
  abbrev pub IsFair : CowAuction → CowFillCandidate → Type 0
  IsFair auction c =
      (reference : ℕ)
      → reference_of (pair_key debug c.sell_token c.buy_token) auction.pair_references
        ≡ some reference
      → reference ≤ c.pair_score_wei

  -- Two tokens, a risk of at most one, and no less than the reference of the pair, if there is one.
  unfoldable pub IsProper : CowAuction → CowFillCandidate → Type 0
  IsProper auction c =
      (c.sell_token ≢ c.buy_token) × (c.revert_risk_bps ≤ 10_000) × IsFair auction c

  is_below-IsFair :
      (auction : CowAuction) (c : CowFillCandidate)
      → (is_below debug auction c ≡ false) ↔ IsFair auction c
  unfolding is_below
  is_below-IsFair auction c =
      elim (Option-cases
        (reference_of (pair_key debug c.sell_token c.buy_token) auction.pair_references)) [
          | inl missing ↦ rw missing (λ _ r e. cc, λ _. refl)
          | inr (reference, found) ↦ rw found (
            λ fair r e. let same : reference ≡ r = cc in ground arith,
            λ fair. let le = fair reference refl in ground arith,
          )
        ]

  -- The sum of the scores is that of the nets.
  sum_of-score :
      (auction : CowAuction) (cs : List CowFillCandidate) (t : Tally)
      → All (IsProper auction) cs
      → (t.score + total_surplus cs) * 10_000 < u256_mod
      → (sum_of cs t).score ≡ t.score + total_net cs
  unfolding sum_of IsProper
  sum_of-score auction [] t ps small = omega arith
  sum_of-score auction (c ∷ cs) t ((_, risk, _), ps) small =
      let one : (add_candidate c t).score ≡ t.score + net_of c =
        add_candidate-score c t risk (omega (arith, small)) in
      let rest = sum_of-score auction cs (add_candidate c t) ps (omega (arith, small, one)) in
      omega (arith, rest, one)

  -- The loop adds up a batch of proper candidates whose orders are new.
  score_each-proper :
      (auction : CowAuction) (seen : List B256) (t : Tally) (cs : List CowFillCandidate)
      → All (IsProper auction) cs
      → DistinctOrders (seen ++ uids_of cs)
      → score_each debug auction seen t cs ≡ ok (tallied (sum_of cs t))
  unfolding score_each sum_of IsProper
  score_each-proper auction seen t [] ps d = refl
  score_each-proper auction seen t (c ∷ cs) ((pair, risk, fair), ps) d =
      let new : contains (λ a b. a == b) c.order_uid seen ≡ false =
        Distinct-before (λ a b. a == b) ==_sym seen (uids_of cs) c.order_uid d in
      let low : ltb 10_000 c.revert_risk_bps ≡ false = ground arith in
      let two : (c.sell_token == c.buy_token) ≡ false = ground arith in
      let above : is_below debug auction c ≡ false = (is_below-IsFair auction c).1 fair in
      rw (new, two, low, above)
        (score_each-proper auction (seen ++ (c.order_uid ∷ [])) (add_candidate c t) cs ps
          (rw (append_assoc seen (c.order_uid ∷ []) (uids_of cs)) d))

  -- What the loop adds up is such a batch.
  score_each-tallied :
      (auction : CowAuction) (seen : List B256) (t u : Tally) (cs : List CowFillCandidate)
      → DistinctOrders seen
      → score_each debug auction seen t cs ≡ ok (tallied u)
      → All (IsProper auction) cs × DistinctOrders (seen ++ uids_of cs)
  unfolding score_each IsProper
  score_each-tallied auction seen t u [] d h = (tt, rw (append-nil seen) d)
  score_each-tallied auction seen t u (c ∷ cs) d h =
      elim (Bool-cases (contains (λ a b. a == b) c.order_uid seen)) [
        | inl old ↦ let bad = rw old at h in cc
        | inr new ↦ elim (Bool-cases (c.sell_token == c.buy_token)) [
          | inl pair ↦ let bad = rw (new, pair) at h in cc
          | inr two ↦ elim (Bool-cases (ltb 10_000 c.revert_risk_bps)) [
            | inl high ↦ let bad = rw (new, two, high) at h in cc
            | inr low ↦ elim (Bool-cases (is_below debug auction c)) [
              | inl below ↦ let bad = rw (new, two, low, below) at h in cc
              | inr fair ↦
                  let (ps, all) =
                    score_each-tallied auction (seen ++ (c.order_uid ∷ [])) (add_candidate c t) u cs
                      (Distinct-snoc (λ a b. a == b) ==_sym seen c.order_uid d new)
                      (rw (new, two, low, fair) at h) in
                  (
                    ((ground arith, ground arith, (is_below-IsFair auction c).0 fair), ps),
                    rw (append_assoc seen (c.order_uid ∷ []) (uids_of cs)) at all,
                  )
            ]
          ]
        ]
      ]

  accepts_iff :
      (auction : CowAuction) (cs : List CowFillCandidate)
      → (accepts (score_each debug auction [] no_tally cs) ≡ true) ↔ (
          All (IsProper auction) cs
          × DistinctOrders (uids_of cs)
          × ((sum_of cs no_tally).score ≢ 0))
  accepts_iff auction cs = (forth (score_each debug auction [] no_tally cs) refl, back)
    where
      forth :
          (o : Result CowError Stage)
          → score_each debug auction [] no_tally cs ≡ o
          → accepts o ≡ true
          → All (IsProper auction) cs
            × DistinctOrders (uids_of cs)
            × ((sum_of cs no_tally).score ≢ 0)
      forth (err e) at h = cc
      forth (ok (unfair t key)) at h = cc
      forth (ok (tallied u)) at h =
          let (ps, d) = score_each-tallied auction [] no_tally u cs tt at in
          let same : ok (tallied (sum_of cs no_tally)) ≡ ok (tallied u) =
            sym (score_each-proper auction [] no_tally cs ps d) ∙ at in
          let sums : sum_of cs no_tally ≡ u = cc in (ps, d, rw sums (λ zero. ground arith))

      back :
          All (IsProper auction) cs × DistinctOrders (uids_of cs) × ((sum_of cs no_tally).score ≢ 0)
          → accepts (score_each debug auction [] no_tally cs) ≡ true
      back (ps, d, some_of) =
          let positive : ((sum_of cs no_tally).score == 0) ≡ false = ground arith in
          rw (score_each-proper auction [] no_tally cs ps d) (rw positive refl)

  verdict_on-accepts :
      (auction : CowAuction) (count : ℕ) (o : Result CowError Stage)
      → is_accepted (o >>= λ stage. ok (verdict_on debug auction count stage)) ≡ accepts o
  unfolding verdict_on
  verdict_on-accepts auction count (err e) = refl
  verdict_on-accepts auction count (ok (unfair t key)) = refl
  verdict_on-accepts auction count (ok (tallied t)) = elim (Bool-cases (t.score == 0)) [
    | inl z ↦ rw z refl
    | inr z ↦ rw z refl
  ]

  -- Where the surpluses of a batch are together below 2^256 / 10,000, it is accepted exactly when it
  -- has fills, the auction has a name, every fill is between two tokens, with a risk of at most 10,000
  -- basis points and no less than the reference of its pair, no order is filled twice, and something
  -- is left of some fill's surplus after its gas and its expected loss of a revert.
  pub score_shadow_solution-accepted :
      (auction : CowAuction) (cs : List CowFillCandidate)
      → total_surplus cs * 10_000 < u256_mod
      → (is_accepted (score_shadow_solution debug auction cs) ≡ true) ↔ (
          (is_empty cs ≡ false)
          × (is_blank auction.id ≡ false)
          × All (IsProper auction) cs
          × DistinctOrders (uids_of cs)
          × (0 < total_net cs))
  unfolding score_shadow_solution
  score_shadow_solution-accepted auction cs small =
      let (forth, back) = accepts_iff auction cs in
      let score : All (IsProper auction) cs → (sum_of cs no_tally).score ≡ total_net cs = λ ps.
        let e = sum_of-score auction cs no_tally ps (omega (arith, small)) in omega (arith, e) in
      elim (Bool-cases (is_empty cs)) [
        | inl none_of ↦ rw none_of (λ h. cc, λ (bad, _, _, _, _). cc)
        | inr filled ↦ elim (Bool-cases (is_blank auction.id)) [
          | inl blank ↦ rw (filled, blank) (λ h. cc, λ (_, bad, _, _, _). cc)
          | inr named ↦
              rw
                (
                  filled,
                  named,
                  verdict_on-accepts auction (length cs) (score_each debug auction [] no_tally cs),
                )
                (
                  λ h.
                      let (ps, d, n) = forth h in
                      let sum = score ps in
                      let pos : 0 < total_net cs = ground (arith, sum, n) in
                      (refl, refl, ps, d, pos),
                  λ (_, _, ps, d, n).
                      let sum = score ps in
                      let some_of : (sum_of cs no_tally).score ≢ 0 =
                        λ z. omega (arith, sum, z, n) in
                      back (ps, d, some_of),
                )
        ]
      ]
