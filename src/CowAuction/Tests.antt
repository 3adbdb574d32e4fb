-- ===== src/CowAuction/Tests.antt =====
-- Runs of bot/crates/mev-bot/src/cow_auction.rs on two fills.
use arrow_head.Prelude.{
  ◌<◌, arith, ℕ, ◌+◌, ◌≡◌, ◌↔◌, refl, true, false, List, [], ◌∷◌, ◌==◌, is_empty, All, add256,
  mul256,
}
use arrow_head.Prelude.Sets.{Distinct}
use arrow_head.Types.{Address}
use arrow_head.Types.Pending.{Text}
use arrow_head.CowAuction.{
  CowAuction, CowFillCandidate, score_shadow_solution, score_each, verdict_on, is_below, pair_key,
  reference_of, is_blank, add_candidate, expected_revert_loss,
}
use arrow_head.CowAuction.Scores.{
  is_accepted, IsProper, uids_of, total_net, score_shadow_solution-accepted,
}

-- An address as one character.
abbrev debug : Address → Text
debug a = (64 + a) ∷ []

abbrev auction : CowAuction
auction = record {
  id = 55 ∷ [];
  deadline_ms = 1;
  pair_references = (97 ∷ (45 ∷ (62 ∷ (98 ∷ []))), 40) ∷ [];
  orders = [];
}

abbrev fill : ℕ → ℕ → ℕ → ℕ → CowFillCandidate
fill uid surplus gas score = record {
  order_uid = uid;
  sell_token = 1;
  buy_token = 2;
  surplus_wei = surplus;
  gas_cost_wei = gas;
  revert_risk_bps = 1_000;
  pair_score_wei = score;
}

-- The second fill costs more gas than both bring in, and the batch is accepted.
abbrev fills : List CowFillCandidate
fills = fill 1 100 10 50 ∷ (fill 2 1 1_000 50 ∷ [])

fills_accepted : is_accepted (score_shadow_solution debug auction fills) ≡ true
unfolding score_shadow_solution score_each verdict_on is_below pair_key reference_of is_blank
    add_candidate expected_revert_loss add256 mul256
fills_accepted = refl

-- A fill below the reference of its pair is not.
below_rejected : is_accepted (score_shadow_solution debug auction (fill 1 100 10 39 ∷ [])) ≡ false
unfolding score_shadow_solution score_each verdict_on is_below pair_key reference_of is_blank
    add_candidate expected_revert_loss add256 mul256
below_rejected = refl

score_shadow_solution-accepted_example :
    (is_accepted (score_shadow_solution debug auction fills) ≡ true) ↔ (
      (is_empty fills ≡ false)
      × (is_blank auction.id ≡ false)
      × All (IsProper debug auction) fills
      × Distinct (λ a b. a == b) (uids_of fills)
      × (0 < total_net fills))
score_shadow_solution-accepted_example =
    score_shadow_solution-accepted debug auction fills (omega arith)
