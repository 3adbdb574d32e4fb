-- ===== src/Leads.antt =====
-- The registry of near-miss positions of bot/crates/mev-bot/src/strategies/leads.rs. The map of slots
-- is the list of its entries; their order, which the source leaves open, is that of the first
-- publication, and leads of one ratio keep it. Each method returns the registry it leaves.
pub mod Members
pub mod Registry
mod Tests
use arrow_head.Prelude.{
  ℕ, suc, ◌+◌, ◌-◌, ◌*◌, ◌/◌, ◌%◌, ◌^◌, min, Bool, true, false, Option, none, some, List, [], ◌∷◌,
  ◌++◌, length, take, ltb, leb, ◌==◌, ◌&&◌, if◌then◌else◌, u64_mod, u256_mod, saturating_mul, ◌>>=◌,
}
use arrow_head.Prelude.Sort.{sort_by}
use arrow_head.Types.{Address, B256}

pub data Protocol : Type 0 where
  aave_v3 morpho_blue maker : Protocol

abbrev pub protocol_code : Protocol → ℕ
protocol_code Protocol.aave_v3 = 0
protocol_code Protocol.morpho_blue = 1
protocol_code Protocol.maker = 2

-- `LeadAction`
pub data LeadAction : Type 0 where
  on_aave : (user : Address) → LeadAction
  on_morpho :
      (market_id : B256) (loan_token collateral_token oracle irm : Address) (lltv : ℕ)
      (borrower : Address) (borrow_shares total_borrow_assets total_borrow_shares : ℕ)
      → LeadAction
  on_maker : (ilk : B256) (urn : Address) → LeadAction

-- `LeadAction::protocol`
unfoldable pub protocol_of : LeadAction → Protocol
protocol_of (on_aave _) = Protocol.aave_v3
protocol_of (on_morpho _ _ _ _ _ _ _ _ _ _) = Protocol.morpho_blue
protocol_of (on_maker _ _) = Protocol.maker

pub record Lead : Type 0 where
  pub account : Address
  pub collateral : Address
  pub debt_asset : Address
  pub ratio_bps : ℕ
  pub debt_wei : ℕ
  pub action : LeadAction

abbrev pub near_miss_min_bps : ℕ
near_miss_min_bps = 10_000

abbrev pub near_miss_max_bps : ℕ
near_miss_max_bps = 10_500

-- `LiquidationLeads`: a slot for each protocol.
abbrev pub Slots : Type 0
Slots = List (Protocol × List Lead)

abbrev pub is_protocol : Protocol → Protocol → Bool
is_protocol p q = protocol_code p == protocol_code q

-- `publish`
unfoldable pub publish : Protocol → List Lead → Slots → Slots
publish protocol batch [] = (protocol, batch) ∷ []
publish protocol batch ((p, leads) ∷ slots) =
    let rest = publish protocol batch slots in
    if is_protocol p protocol then (p, batch) ∷ slots else (p, leads) ∷ rest

unfoldable pub is_near_miss : Address → Lead → Bool
is_near_miss asset l =
    (l.collateral == asset)
    && (leb near_miss_min_bps l.ratio_bps && ltb l.ratio_bps near_miss_max_bps)

unfoldable pub filter_near : Address → List Lead → List Lead
filter_near asset [] = []
filter_near asset (l ∷ leads) =
    let rest = filter_near asset leads in if is_near_miss asset l then l ∷ rest else rest

-- `values().flatten()`
unfoldable pub all_leads : Slots → List Lead
all_leads [] = []
all_leads ((_, leads) ∷ slots) = leads ++ all_leads slots

-- Whether the first may stand before the second.
unfoldable pub is_riskier : Lead → Lead → Bool
is_riskier a b = leb a.ratio_bps b.ratio_bps

unfoldable pub near_misses_for : Address → ℕ → Slots → List Lead
near_misses_for asset bound slots =
    take bound (sort_by is_riskier (filter_near asset (all_leads slots)))

-- `len`, whose sum wraps.
unfoldable pub registry_len : Slots → ℕ
registry_len [] = 0
registry_len ((_, leads) ∷ slots) = (length leads + registry_len slots) % u64_mod

-- `checked_mul`
abbrev checked_mul : ℕ → ℕ → Option ℕ
checked_mul a b = if ltb (a * b) u256_mod then some (a * b) else none

-- The collateral's value at the threshold.
unfoldable pub effective_of : ℕ → Option ℕ → Option ℕ
effective_of collateral_scaled none = some collateral_scaled
effective_of collateral_scaled (some lltv) = do
  v ← checked_mul collateral_scaled lltv
  some (v / 10 ^ 18)

abbrev bps_of : ℕ → Option ℕ → ℕ
bps_of debt none = u64_mod - 1
bps_of debt (some effective) =
    let bps = saturating_mul u256_mod effective 10_000 / debt in
    if ltb (u64_mod - 1) bps then u64_mod - 1 else bps

unfoldable pub ratio_bps : ℕ → Option ℕ → ℕ → ℕ
ratio_bps collateral_scaled lltv_wad debt =
    if debt == 0 then u64_mod - 1 else bps_of debt (effective_of collateral_scaled lltv_wad)
