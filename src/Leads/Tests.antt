-- ===== src/Leads/Tests.antt =====
-- Runs of bot/crates/mev-bot/src/strategies/leads.rs on a small registry.
use arrow_head.Prelude.{ℕ, ◌≤◌, ◌≡◌, refl, [], ◌∷◌, length, All, List, ◌⊎◌}
use arrow_head.Prelude.Sort.{IsSorted}
use arrow_head.Leads.{
  Protocol, Lead, LeadAction, Slots, publish, near_misses_for, filter_near, all_leads, is_near_miss,
  is_riskier,
}
use arrow_head.Leads.Members.{IsIn}
use arrow_head.Leads.Registry.{IsLead, near_misses_for-publish}

abbrev lead : ℕ → ℕ → Lead
lead account ratio = record {
  account = account;
  collateral = 9;
  debt_asset = 8;
  ratio_bps = ratio;
  debt_wei = 100;
  action = LeadAction.on_aave account;
}

abbrev slots : Slots
slots =
    (Protocol.aave_v3, lead 1 10_100 ∷ [])
    ∷ ((Protocol.maker, lead 2 10_400 ∷ (lead 3 10_600 ∷ [])) ∷ [])

-- The new batch takes the place of the old, and the safe position is left out.
riskiest_first :
    near_misses_for 9 4 (publish Protocol.aave_v3 (lead 4 10_450 ∷ []) slots)
    ≡ lead 2 10_400 ∷ (lead 4 10_450 ∷ [])
unfolding near_misses_for publish filter_near all_leads is_near_miss is_riskier
riskiest_first = refl

abbrev found : List Lead
found = near_misses_for 9 4 (publish Protocol.aave_v3 (lead 4 10_450 ∷ []) slots)

near_misses_for-publish_example :
    (length found ≤ 4)
    × IsSorted is_riskier found
    × All (IsLead 9 Protocol.aave_v3 (lead 4 10_450 ∷ []) slots) found
    × ((l : Lead)
        → IsLead 9 Protocol.aave_v3 (lead 4 10_450 ∷ []) slots l
        → IsIn l found ⊎ ((length found ≡ 4) × All (λ r. r.ratio_bps ≤ l.ratio_bps) found))
near_misses_for-publish_example =
    near_misses_for-publish 9 4 Protocol.aave_v3 (lead 4 10_450 ∷ []) slots ((refl, tt), (tt, tt))
