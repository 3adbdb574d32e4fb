-- ===== src/Inventory/Tests.antt =====
-- Runs of the nonce ledger, and the theorems at them.
use arrow_head.Prelude.{◌+◌, ◌≤◌, ◌≡◌, refl, true, none, some, [], ◌∷◌, arith}
use arrow_head.Types.{Opportunity, Call, Strategy}
use arrow_head.Inventory.{Inventory, reserve_nonces, release_nonces, can_fund, refresh, legs}
use arrow_head.Inventory.Nonces.{World, Reservation, Step, Reach, IsValid, Reach-disjoint}

abbrev ledger : Inventory
ledger = record { nonce = 7; blocked_until_block = 100; eth_wei = 5; weth_wei = 9; gate = true }

abbrev start : World
start = record { inventory = ledger; held = [] }

abbrev first : Reservation
first = record { start = 7; count = 2 }

abbrev second : Reservation
second = record { start = 9; count = 1 }

abbrev two_held : World
two_held = record { inventory = record ledger { nonce = 10 }; held = second ∷ first ∷ [] }

start-IsValid : IsValid start
start-IsValid = record { stacked = tt; word = omega arith }

two_held-IsValid : IsValid two_held
two_held-IsValid = record {
  stacked = (omega arith, omega arith, (omega arith, omega arith, tt));
  word = omega arith;
}

start-Reach : Reach start two_held
unfolding reserve_nonces
start-Reach =
    Reach.next (Reach.next Reach.here (Step.reserve start 2 (omega arith) (omega arith))) (
      Step.reserve (record { inventory = record ledger { nonce = 9 }; held = first ∷ [] }) 1
        (omega arith) (omega arith))

Reach-disjoint_example : (7 + 2 ≤ 9) × (9 + 1 ≤ 10)
Reach-disjoint_example =
    Reach-disjoint {w = start} {u = two_held} 0 1 second first start-IsValid start-Reach
      (omega arith) refl refl

abbrev call : Call
call = record { target = 1; value = 0; payload = [] }

abbrev flash_trade : Opportunity
flash_trade = record {
  id = "op";
  strategy = Strategy.atomic_arb;
  victim_hashes = [];
  front_calls = call ∷ [];
  back_calls = [];
  flash_tokens = 3 ∷ [];
  flash_amounts = 1_000 ∷ [];
  profit_token = 3;
  expected_profit_wei = 10;
  notional_wei = 1_000;
  target_block = 101;
  created_at_ms = 0;
  notes = "";
}

flash_funded : can_fund (refresh (some 8) (some 50) none ledger) flash_trade ≡ true
unfolding can_fund refresh
flash_funded = refl

-- A reservation and its release leave the nonce as it was.
release_nonces-reserve_nonces : release_nonces (reserve_nonces ledger 2).1 7 2 ≡ (true, ledger)
unfolding release_nonces reserve_nonces
release_nonces-reserve_nonces = refl

legs_one_side : legs flash_trade ≡ 1
unfolding legs
legs_one_side = refl
