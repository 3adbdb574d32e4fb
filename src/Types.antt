-- ===== src/Types.antt =====
-- The domain types of bot/crates/mev-bot/src/types.rs that the modelled parts share. An `Address`
-- and a 256-bit hash are the numbers that their bytes spell.
pub mod Pending
use arrow_head.Prelude.{ℕ, Bool, true, false, Option, none, some, List, [], ◌∷◌, ◌==◌}
use arrow_head.Prelude.Int.{ℤ}
use Prim.Native.String.{String}

abbrev pub Address : Type 0
Address = ℕ

abbrev pub B256 : Type 0
B256 = ℕ

-- A byte string: numbers below 256.
abbrev pub Bytes : Type 0
Bytes = List ℕ

pub record Call : Type 0 where
  pub target : Address
  pub value : ℕ
  pub payload : Bytes

pub data Strategy : Type 0 where
  sandwich sandwich_v3 jit atomic_arb liquidation liquidation_compound : Strategy
  liquidation_morpho liquidation_maker oracle_frontrun : Strategy

-- `Strategy::as_str`
unfoldable pub as_str : Strategy → String
as_str Strategy.sandwich = "sandwich"
as_str Strategy.sandwich_v3 = "sandwich_v3"
as_str Strategy.jit = "jit"
as_str Strategy.atomic_arb = "atomic_arb"
as_str Strategy.liquidation = "liquidation"
as_str Strategy.liquidation_compound = "liquidation_compound"
as_str Strategy.liquidation_morpho = "liquidation_morpho"
as_str Strategy.liquidation_maker = "liquidation_maker"
as_str Strategy.oracle_frontrun = "oracle_frontrun"

-- `Strategy::live_candidate`
unfoldable pub live_candidate : Strategy → Bool
live_candidate Strategy.jit = false
live_candidate Strategy.oracle_frontrun = false
live_candidate _ = true

-- `Strategy::shadow_only_reason`, without the wording.
pub data ShadowReason : Type 0 where
  not_unwound : ShadowReason
  needs_ordering : ShadowReason

unfoldable pub shadow_only_reason : Strategy → Option ShadowReason
shadow_only_reason Strategy.jit = some ShadowReason.not_unwound
shadow_only_reason Strategy.oracle_frontrun = some ShadowReason.needs_ordering
shadow_only_reason _ = none

-- `Strategy::all`
abbrev pub all : List Strategy
all =
    Strategy.sandwich ∷ Strategy.sandwich_v3 ∷ Strategy.jit ∷ Strategy.atomic_arb
    ∷ Strategy.liquidation ∷ Strategy.liquidation_compound ∷ Strategy.liquidation_morpho
    ∷ Strategy.liquidation_maker ∷ Strategy.oracle_frontrun ∷ []

-- The derived `PartialEq` compares the variants' places.
abbrev pub discriminant : Strategy → ℕ
discriminant Strategy.sandwich = 0
discriminant Strategy.sandwich_v3 = 1
discriminant Strategy.jit = 2
discriminant Strategy.atomic_arb = 3
discriminant Strategy.liquidation = 4
discriminant Strategy.liquidation_compound = 5
discriminant Strategy.liquidation_morpho = 6
discriminant Strategy.liquidation_maker = 7
discriminant Strategy.oracle_frontrun = 8

abbrev pub strategy_eq : Strategy → Strategy → Bool
strategy_eq a b = discriminant a == discriminant b

pub record Opportunity : Type 0 where
  pub id : String
  pub strategy : Strategy
  pub victim_hashes : List B256
  pub front_calls : List Call
  pub back_calls : List Call
  pub flash_tokens : List Address
  pub flash_amounts : List ℕ
  pub profit_token : Address
  pub expected_profit_wei : ℕ
  pub notional_wei : ℕ
  pub target_block : ℕ
  pub created_at_ms : ℕ
  pub notes : String

-- The fields of `SimulationResult` that a decision reads.
pub record SimulationResult : Type 0 where
  pub opportunity_id : String
  pub strategy : Strategy
  pub success : Bool
  pub gross_profit_wei : ℕ
  pub gas_used : ℕ
  pub gas_price_wei : ℕ
  pub gas_cost_wei : ℕ
  pub bribe_wei : ℕ
  pub net_profit_wei : ℤ
  pub target_block : ℕ

pub record BundleTx : Type 0 where
  pub hash : Option B256
  pub raw : Bytes
  pub can_revert : Bool
  pub foreign : Bool

pub record BundleRecord : Type 0 where
  pub id : String
  pub opportunity_id : String
  pub strategy : Strategy
  pub target_block : ℕ
  pub txs : List BundleTx
  pub submitted : Bool
  pub included : Option Bool
  pub created_at_ms : ℕ
