-- ===== src/Valuation/Tests.antt =====
-- Valuations of a concrete token, and the theorems at them.
use arrow_head.Prelude.{
  ℕ, ◌-◌, ◌*◌, ◌/◌, ◌≡◌, refl, ◌≤◌, ◌^◌, min, some, none, List, [], ◌∷◌, map, arith,
}
use arrow_head.Types.{Address}
use arrow_head.Valuation.{Answers, Addresses, apply_haircut}
use arrow_head.Valuation.Haircut.{apply_haircut_lem}
use arrow_head.Valuation.Cached.{Request, values, uncached, values-uncached}

-- A token of 6 decimals, of which a unit is worth its block's number of gwei.
abbrev node : Address → ℕ → Answers
node token block = record {
  decimals = some 6;
  quoter = some (λ fee. some (block * 10 ^ 9));
  pool = none;
}

abbrev requests : List Request
requests =
    record { token = 5; amount = 2_000_000; block = 100; haircut_bps = 200 }
    ∷ record { token = 5; amount = 3_000_000; block = 100; haircut_bps = 200 }
    ∷ record { token = 5; amount = 3_000_000; block = 101; haircut_bps = 200 }
    ∷ record { token = 5; amount = 1_000_000; block = 99; haircut_bps = 200 }
    ∷ []

abbrev addresses : Addresses
addresses = record { usdc = 5; usdt = none; wbtc = some 6; dai = none; wsteth = none }

values-uncached_example :
    values 7 addresses node
      (λ token b c. refl)
      (record { entries = []; newest_block = 0 })
      []
      requests
    ≡ map (uncached 7 addresses node (λ token b c. refl)) requests
values-uncached_example = values-uncached 7 addresses node (λ token b c. refl) 0 requests

apply_haircut_lem_example :
    (apply_haircut 1_000_001 200 ≡ 1_000_001 * (10_000 - min 200 10_000) / 10_000)
    × (apply_haircut 1_000_001 200 ≤ 1_000_001)
apply_haircut_lem_example = apply_haircut_lem 1_000_001 200 (omega arith)
