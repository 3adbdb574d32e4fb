-- ===== src/CowAuction.antt =====
-- The scoring of a batch of bot/crates/mev-bot/src/cow_auction.rs. A text is the list of its
-- characters' codes; `debug`, alloy's writing of an address, is a parameter.
pub mod Scores
mod Tests
use arrow_head.Prelude.{
  ℕ, suc, ◌+◌, ◌-◌, ◌*◌, ◌/◌, Bool, true, false, Option, none, some, List, [], ◌∷◌, ◌++◌, length,
  is_empty, ltb, leb, ◌==◌, not, ◌&&◌, ◌||◌, if◌then◌else◌, add256, mul256,
}
use arrow_head.Prelude.Results.{Result, ok, err, ◌>>=◌, ◌>>◌, fail_if}
use arrow_head.Prelude.Sets.{contains, eq_list}
use arrow_head.Types.{Address, B256}
use arrow_head.Types.Pending.{Text}

pub record CowAuctionOrder : Type 0 where
  pub uid : B256
  pub owner : Address
  pub sell_token : Address
  pub buy_token : Address
  pub remaining_sell_amount : ℕ
  pub minimum_buy_amount : ℕ
  pub partially_fillable : Bool
  pub canonical_uid : Option Text

pub record CowAuction : Type 0 where
  pub id : Text
  pub deadline_ms : ℕ
  pub pair_references : List (Text × ℕ)
  pub orders : List CowAuctionOrder

pub record CowFillCandidate : Type 0 where
  pub order_uid : B256
  pub sell_token : Address
  pub buy_token : Address
  pub surplus_wei : ℕ
  pub gas_cost_wei : ℕ
  pub revert_risk_bps : ℕ
  pub pair_score_wei : ℕ

pub data CowReason : Type 0 where
  below_reference : Text → CowReason
  not_positive : CowReason

pub record CowShadowScore : Type 0 where
  pub auction_id : Text
  pub accepted : Bool
  pub fairness_self_rejected : Bool
  pub order_count : ℕ
  pub gross_surplus_wei : ℕ
  pub gas_cost_wei : ℕ
  pub expected_revert_loss_wei : ℕ
  pub cost_adjusted_score_wei : ℕ
  pub reason : Option CowReason

pub data CowError : Type 0 where
  no_fills empty_id repeated_order self_pair excessive_risk : CowError

-- The four sums of the loop.
pub record Tally : Type 0 where
  pub gross : ℕ
  pub gas : ℕ
  pub revert_loss : ℕ
  pub score : ℕ

abbrev pub no_tally : Tally
no_tally = record { gross = 0; gas = 0; revert_loss = 0; score = 0 }

unfoldable pub expected_revert_loss : ℕ → ℕ → ℕ
expected_revert_loss surplus risk_bps = mul256 surplus risk_bps / 10_000

-- `to_lowercase` on the letters of an address.
abbrev lower : ℕ → ℕ
lower c = if leb 65 c && leb c 90 then c + 32 else c

abbrev pub to_lowercase : Text → Text
to_lowercase [] = []
to_lowercase (c ∷ cs) = lower c ∷ to_lowercase cs

-- `char::is_whitespace`
abbrev is_whitespace : ℕ → Bool
is_whitespace c =
    (leb 9 c && leb c 13)
    || ((c == 32)
        || ((c == 133)
            || ((c == 160)
                || ((c == 5_760)
                    || ((leb 8_192 c && leb c 8_202)
                        || ((c == 8_232)
                            || ((c == 8_233)
                                || ((c == 8_239) || ((c == 8_287) || (c == 12_288))))))))))

-- `id.trim().is_empty()`
unfoldable pub is_blank : Text → Bool
is_blank [] = true
is_blank (c ∷ cs) = is_whitespace c && is_blank cs

-- `pair_references.get(&key)`
unfoldable pub reference_of : Text → List (Text × ℕ) → Option ℕ
reference_of key [] = none
reference_of key ((k, reference) ∷ refs) =
    let rest = reference_of key refs in if eq_list k key then some reference else rest

abbrev below : ℕ → Option ℕ → Bool
below score none = false
below score (some reference) = ltb score reference

-- What the loop ends with: the sums, or a pair below its reference.
pub data Stage : Type 0 where
  tallied : Tally → Stage
  unfair : Tally → Text → Stage

unfoldable pub add_candidate : CowFillCandidate → Tally → Tally
add_candidate c t =
    let loss = expected_revert_loss c.surplus_wei c.revert_risk_bps in
    record {
      gross = add256 t.gross c.surplus_wei;
      gas = add256 t.gas c.gas_cost_wei;
      revert_loss = add256 t.revert_loss loss;
      score = add256 t.score (c.surplus_wei - c.gas_cost_wei - loss);
    }

module _ (debug : Address → Text) where
  -- `pair_key`, whose arrow has the codes 45 and 62.
  unfoldable pub pair_key : Address → Address → Text
  pair_key sell_token buy_token = to_lowercase (debug sell_token ++ (45 ∷ (62 ∷ debug buy_token)))

  unfoldable pub is_below : CowAuction → CowFillCandidate → Bool
  is_below auction c =
      below c.pair_score_wei
        (reference_of (pair_key c.sell_token c.buy_token) auction.pair_references)

  -- The loop of `score_shadow_solution`.
  unfoldable pub score_each :
      CowAuction → List B256 → Tally → List CowFillCandidate → Result CowError Stage
  score_each auction seen t [] = ok (tallied t)
  score_each auction seen t (c ∷ candidates) =
      let rest = score_each auction (seen ++ (c.order_uid ∷ [])) (add_candidate c t) candidates in
      if contains (λ a b. a == b) c.order_uid seen
      then err CowError.repeated_order
      else if c.sell_token == c.buy_token
      then err CowError.self_pair
      else if ltb 10_000 c.revert_risk_bps
      then err CowError.excessive_risk
      else if is_below auction c
      then ok (unfair t (pair_key c.sell_token c.buy_token))
      else rest

  abbrev scored : CowAuction → ℕ → Bool → Bool → Option CowReason → Tally → CowShadowScore
  scored auction count accepted self_rejected reason t = record {
    auction_id = auction.id;
    accepted = accepted;
    fairness_self_rejected = self_rejected;
    order_count = count;
    gross_surplus_wei = t.gross;
    gas_cost_wei = t.gas;
    expected_revert_loss_wei = t.revert_loss;
    cost_adjusted_score_wei = t.score;
    reason = reason;
  }

  unfoldable pub verdict_on : CowAuction → ℕ → Stage → CowShadowScore
  verdict_on auction count (unfair t key) =
      scored auction count false true (some (CowReason.below_reference key)) t
  verdict_on auction count (tallied t) =
      if t.score == 0
      then scored auction count false false (some CowReason.not_positive) t
      else scored auction count true false none t

  unfoldable pub score_shadow_solution :
      CowAuction → List CowFillCandidate → Result CowError CowShadowScore
  score_shadow_solution auction candidates = do
    fail_if (is_empty candidates) CowError.no_fills
    fail_if (is_blank auction.id) CowError.empty_id
    stage ← score_each auction [] no_tally candidates
    ok (verdict_on auction (length candidates) stage)
