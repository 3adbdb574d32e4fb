-- ===== src/Inventory.antt =====
-- The nonce and balance ledger of bot/crates/mev-bot/src/inventory.rs. The atomics and locks are
-- the fields of a record, and a method that stores returns the record that it leaves. What the
-- node answers to `refresh` is an argument: `none` is a failed call.
pub mod Nonces
pub mod Funds
mod Tests
use arrow_head.Prelude.{
  ℕ, ◌+◌, ◌%◌, max, Bool, true, false, Option, none, some, ltb, leb, ◌==◌, if◌then◌else◌, is_empty,
  u64_mod, u256_mod, saturating_add, not,
}
use arrow_head.Types.{Opportunity}

pub record Inventory : Type 0 where
  pub nonce : ℕ
  pub blocked_until_block : ℕ
  pub eth_wei : ℕ
  pub weth_wei : ℕ
  pub gate : Bool

-- `Inventory::new`
unfoldable pub new : Bool → Inventory
new gate = record { nonce = 0; blocked_until_block = 0; eth_wei = 0; weth_wei = 0; gate = gate }

unfoldable pub set_nonce : Inventory → ℕ → Inventory
set_nonce i n = record i { nonce = n }

unfoldable pub advance_chain_nonce : Inventory → ℕ → Inventory
advance_chain_nonce i n = record i { nonce = max i.nonce n }

-- `fetch_add` wraps, and returns the nonce from before.
unfoldable pub reserve_nonces : Inventory → ℕ → ℕ × Inventory
reserve_nonces i count = (i.nonce, record i { nonce = (i.nonce + count) % u64_mod })

-- The compare-exchange stores `start` only over `start + count`.
unfoldable pub release_nonces : Inventory → ℕ → ℕ → Bool × Inventory
release_nonces i start count =
    if i.nonce == saturating_add u64_mod start count
    then (true, record i { nonce = start })
    else (false, i)

unfoldable pub block_broadcast_until : Inventory → ℕ → Inventory
block_broadcast_until i block = record i { blocked_until_block = max i.blocked_until_block block }

unfoldable pub broadcast_available : Inventory → ℕ → Bool
broadcast_available i head = ltb i.blocked_until_block head

unfoldable pub available : Inventory → ℕ
available i = saturating_add u256_mod i.eth_wei i.weth_wei

-- `Inventory::legs`
unfoldable pub legs : Opportunity → ℕ
legs opp = (if is_empty opp.front_calls then 0 else 1) + (if is_empty opp.back_calls then 0 else 1)

unfoldable pub nonce_for : Inventory → Opportunity → ℕ
nonce_for i opp = i.nonce

unfoldable pub can_fund : Inventory → Opportunity → Bool
can_fund i opp =
    if not i.gate
    then true
    else if i.eth_wei == 0
    then false
    else if not (is_empty opp.flash_tokens)
    then true
    else leb opp.notional_wei i.weth_wei

abbrev or_keep : Option ℕ → ℕ → ℕ
or_keep none old = old
or_keep (some v) old = v

abbrev chain_nonce : Option ℕ → Inventory → Inventory
chain_nonce none i = i
chain_nonce (some n) i = record i { nonce = max i.nonce n }

-- `executor` is `none` without an executor, and holds the answer to `balanceOf` otherwise.
abbrev executor_weth : Option (Option ℕ) → ℕ → ℕ
executor_weth none old = 0
executor_weth (some answer) old = or_keep answer old

unfoldable pub refresh : Option ℕ → Option ℕ → Option (Option ℕ) → Inventory → Inventory
refresh count balance executor i =
    let j = chain_nonce count i in
    record j { eth_wei = or_keep balance j.eth_wei; weth_wei = executor_weth executor j.weth_wei }
