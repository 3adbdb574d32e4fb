-- ===== src/Inventory/Funds.antt =====
-- When the inventory lets a broadcast or a trade through.
use arrow_head.Prelude.{
  ℕ, ◌<◌, ◌≡◌, ◌↔◌, ◌⊎◌, true, false, Option, none, some, List, [], ◌∷◌, arith, All, is_empty,
}
use arrow_head.Types.{Opportunity}
use arrow_head.Inventory.{Inventory, block_broadcast_until, broadcast_available, refresh, can_fund}

-- `block_broadcast_until` for each height in turn.
unfoldable pub block_each : List ℕ → Inventory → Inventory
block_each [] v = v
block_each (b ∷ bs) v = block_each bs (block_broadcast_until v b)

-- After any sequence of recoveries that block the broadcast, a head is let through exactly when it
-- was let through before and lies above every height that they named.
pub broadcast_available-block_each :
    (bs : List ℕ) (v : Inventory) (head : ℕ)
    → (broadcast_available (block_each bs v) head ≡ true)
      ↔ (broadcast_available v head ≡ true) × All (λ b. b < head) bs
unfolding block_each broadcast_available block_broadcast_until
broadcast_available-block_each [] v head = (λ h. (h, tt), λ h. h.0)
broadcast_available-block_each (b ∷ bs) v head = (
  λ h. ground (arith, (broadcast_available-block_each bs (block_broadcast_until v b) head).0 h),
  λ h.
      (broadcast_available-block_each bs (block_broadcast_until v b) head).1
        (ground (arith, h.0, h.1.0), h.1.1),
)

-- After a refresh that knows no executor, whatever the node answered, a gated inventory funds an
-- opportunity only if it is flash-funded or needs no principal.
pub can_fund-refresh_no_executor :
    (count balance : Option ℕ) (v : Inventory) (opp : Opportunity)
    → v.gate ≡ true
    → can_fund (refresh count balance none v) opp ≡ true
    → (is_empty opp.flash_tokens ≡ false) ⊎ (opp.notional_wei ≡ 0)
unfolding refresh can_fund
can_fund-refresh_no_executor none balance v opp gated h = ground arith
can_fund-refresh_no_executor (some n) balance v opp gated h = ground arith
