-- ===== src/RuntimeRisk/Limits.antt =====
-- The limits after the checks of a patch: what each step does, and all of them together.
use arrow_head.Prelude.{ℕ, ◌≤◌, ◌<◌, ◌≡◌, refl, Option, none, some, arith}
use arrow_head.Prelude.Results.{ok, >>=-eq-ok}
use arrow_head.RuntimeRisk.{
  RiskConfig, RiskPatch, max_tx_gas_ceiling, parse_wei, patch_min_net_profit, patch_max_position,
  patch_max_base_fee, patch_max_drawdown, patch_bribe, patch_max_gas, patch_max_inflight,
  patch_limits, new,
}
use Prim.Native.String.{String}

-- The limits that the checks of a patch keep.
pub record IsInRange (r : RiskConfig) : Type 0 where
  pub position : 0 < r.max_position_wei
  pub base_fee : 0 < r.max_base_fee_wei
  pub bribe : r.bribe_bps ≤ 10_000
  pub gas_low : 21_000 ≤ r.max_gas_per_bundle
  pub gas_high : r.max_gas_per_bundle ≤ max_tx_gas_ceiling
  pub inflight_low : 1 ≤ r.max_inflight_per_strategy
  pub inflight_high : r.max_inflight_per_strategy ≤ 256

-- A limit after a patch: the amount that its text spells, or the old one.
abbrev pub Parsed : (String → Option ℕ) → Option String → ℕ → ℕ → Type 0
Parsed parse none old new = new ≡ old
Parsed parse (some raw) old new = parse raw ≡ some new

abbrev pub Given : Option ℕ → ℕ → ℕ → Type 0
Given none old new = new ≡ old
Given (some v) old new = new ≡ v

pub record IsPatched (parse : String → Option ℕ) (p : RiskPatch) (r r' : RiskConfig) : Type 0 where
  pub min_net_profit : Parsed parse p.min_net_profit_wei r.min_net_profit_wei r'.min_net_profit_wei
  pub position : Parsed parse p.max_position_wei r.max_position_wei r'.max_position_wei
  pub base_fee : Parsed parse p.max_base_fee_wei r.max_base_fee_wei r'.max_base_fee_wei
  pub drawdown : Parsed parse p.max_drawdown_wei r.max_drawdown_wei r'.max_drawdown_wei
  pub bribe : Given p.bribe_bps r.bribe_bps r'.bribe_bps
  pub gas : Given p.max_gas_per_bundle r.max_gas_per_bundle r'.max_gas_per_bundle
  pub inflight :
      Given p.max_inflight_per_strategy r.max_inflight_per_strategy r'.max_inflight_per_strategy

-- What each step of `patch_limits` does to its limit, and that it keeps the limit in range.
module _ (parse : String → Option ℕ) (o : Option String) (r r' : RiskConfig) where
  abbrev MinNetProfitStep : Type 0
  MinNetProfitStep =
      (v : ℕ) × (r' ≡ record r { min_net_profit_wei = v }) × Parsed parse o r.min_net_profit_wei v

  abbrev PositionStep : Type 0
  PositionStep =
      (v : ℕ) × (r' ≡ record r { max_position_wei = v })
      × Parsed parse o r.max_position_wei v
      × (0 < r.max_position_wei → 0 < v)

  abbrev BaseFeeStep : Type 0
  BaseFeeStep =
      (v : ℕ) × (r' ≡ record r { max_base_fee_wei = v })
      × Parsed parse o r.max_base_fee_wei v
      × (0 < r.max_base_fee_wei → 0 < v)

  abbrev DrawdownStep : Type 0
  DrawdownStep =
      (v : ℕ) × (r' ≡ record r { max_drawdown_wei = v }) × Parsed parse o r.max_drawdown_wei v

module _ (o : Option ℕ) (r r' : RiskConfig) where
  abbrev BribeStep : Type 0
  BribeStep =
      (v : ℕ) × (r' ≡ record r { bribe_bps = v })
      × Given o r.bribe_bps v
      × (r.bribe_bps ≤ 10_000 → v ≤ 10_000)

  abbrev GasStep : Type 0
  GasStep =
      (v : ℕ) × (r' ≡ record r { max_gas_per_bundle = v })
      × Given o r.max_gas_per_bundle v
      × (21_000 ≤ r.max_gas_per_bundle → 21_000 ≤ v)
      × (r.max_gas_per_bundle ≤ max_tx_gas_ceiling → v ≤ max_tx_gas_ceiling)

  abbrev InflightStep : Type 0
  InflightStep =
      (v : ℕ) × (r' ≡ record r { max_inflight_per_strategy = v })
      × Given o r.max_inflight_per_strategy v
      × (1 ≤ r.max_inflight_per_strategy → 1 ≤ v)
      × (r.max_inflight_per_strategy ≤ 256 → v ≤ 256)

module _ (parse : String → Option ℕ) where
  parse_wei-ok : (raw : String) (v : ℕ) → parse_wei parse raw ≡ ok v → parse raw ≡ some v
  unfolding parse_wei
  parse_wei-ok raw v e = ground arith

  min_net_profit_step :
      (o : Option String) (r r' : RiskConfig)
      → patch_min_net_profit parse o r ≡ ok r'
      → MinNetProfitStep parse o r r'
  unfolding patch_min_net_profit parse_wei
  min_net_profit_step none r r' e = (r.min_net_profit_wei, cc, refl)
  min_net_profit_step (some raw) r r' e = (r'.min_net_profit_wei, ground arith, ground arith)

  position_step :
      (o : Option String) (r r' : RiskConfig)
      → patch_max_position parse o r ≡ ok r'
      → PositionStep parse o r r'
  unfolding patch_max_position parse_wei
  position_step none r r' e = (r.max_position_wei, cc, refl, λ h. h)
  position_step (some raw) r r' e =
      (r'.max_position_wei, ground arith, ground arith, λ _. ground arith)

  base_fee_step :
      (o : Option String) (r r' : RiskConfig)
      → patch_max_base_fee parse o r ≡ ok r'
      → BaseFeeStep parse o r r'
  unfolding patch_max_base_fee parse_wei
  base_fee_step none r r' e = (r.max_base_fee_wei, cc, refl, λ h. h)
  base_fee_step (some raw) r r' e =
      (r'.max_base_fee_wei, ground arith, ground arith, λ _. ground arith)

  drawdown_step :
      (o : Option String) (r r' : RiskConfig)
      → patch_max_drawdown parse o r ≡ ok r'
      → DrawdownStep parse o r r'
  unfolding patch_max_drawdown parse_wei
  drawdown_step none r r' e = (r.max_drawdown_wei, cc, refl)
  drawdown_step (some raw) r r' e = (r'.max_drawdown_wei, ground arith, ground arith)

bribe_step : (o : Option ℕ) (r r' : RiskConfig) → patch_bribe o r ≡ ok r' → BribeStep o r r'
unfolding patch_bribe
bribe_step none r r' e = (r.bribe_bps, cc, refl, λ h. h)
bribe_step (some w) r r' e = (w, ground arith, refl, λ _. ground arith)

gas_step : (o : Option ℕ) (r r' : RiskConfig) → patch_max_gas o r ≡ ok r' → GasStep o r r'
unfolding patch_max_gas
gas_step none r r' e = (r.max_gas_per_bundle, cc, refl, λ h. h, λ h. h)
gas_step (some w) r r' e = (w, ground arith, refl, λ _. ground arith, λ _. ground arith)

inflight_step :
    (o : Option ℕ) (r r' : RiskConfig) → patch_max_inflight o r ≡ ok r' → InflightStep o r r'
unfolding patch_max_inflight
inflight_step none r r' e = (r.max_inflight_per_strategy, cc, refl, λ h. h, λ h. h)
inflight_step (some w) r r' e = (w, ground arith, refl, λ _. ground arith, λ _. ground arith)

module _ (parse : String → Option ℕ) (p : RiskPatch) (r r1 r2 r3 r4 r5 r6 r' : RiskConfig)
    (s1 : MinNetProfitStep parse p.min_net_profit_wei r r1)
    (s2 : PositionStep parse p.max_position_wei r1 r2)
    (s3 : BaseFeeStep parse p.max_base_fee_wei r2 r3)
    (s4 : DrawdownStep parse p.max_drawdown_wei r3 r4) (s5 : BribeStep p.bribe_bps r4 r5)
    (s6 : GasStep p.max_gas_per_bundle r5 r6)
    (s7 : InflightStep p.max_inflight_per_strategy r6 r') where
  steps_limits : r' ≡ record {
    min_net_profit_wei = s1.0;
    max_position_wei = s2.0;
    max_base_fee_wei = s3.0;
    bribe_bps = s5.0;
    max_gas_per_bundle = s6.0;
    max_drawdown_wei = s4.0;
    max_inflight_per_strategy = s7.0;
  }
  steps_limits = rw (s7.1, s6.1, s5.1, s4.1, s3.1, s2.1, s1.1)

  -- The limits that a step reads are still those from before the first.
  steps_unread :
      (r1.max_position_wei ≡ r.max_position_wei)
      × (r2.max_base_fee_wei ≡ r.max_base_fee_wei)
      × (r3.max_drawdown_wei ≡ r.max_drawdown_wei)
      × (r4.bribe_bps ≡ r.bribe_bps)
      × (r5.max_gas_per_bundle ≡ r.max_gas_per_bundle)
      × (r6.max_inflight_per_strategy ≡ r.max_inflight_per_strategy)
  steps_unread = ground (arith, s1.1, s2.1, s3.1, s4.1, s5.1, s6.1)

  steps-IsPatched : IsPatched parse p r r'
  steps-IsPatched =
      let (u2, u3, u4, u5, u6, u7) = steps_unread in
      rw steps_limits (record {
        min_net_profit = s1.2;
        position = rw u2 at s2.2;
        base_fee = rw u3 at s3.2;
        drawdown = rw u4 at s4.2;
        bribe = rw u5 at s5.2;
        gas = rw u6 at s6.2;
        inflight = rw u7 at s7.2;
      })

  steps-IsInRange : IsInRange r → IsInRange r'
  steps-IsInRange h =
      let (u2, u3, u4, u5, u6, u7) = steps_unread in
      rw steps_limits (record {
        position = s2.3 (omega (arith, u2, h.position));
        base_fee = s3.3 (omega (arith, u3, h.base_fee));
        bribe = s5.3 (omega (arith, u5, h.bribe));
        gas_low = s6.3 (omega (arith, u6, h.gas_low));
        gas_high = s6.4 (omega (arith, u6, h.gas_high));
        inflight_low = s7.3 (omega (arith, u7, h.inflight_low));
        inflight_high = s7.4 (omega (arith, u7, h.inflight_high));
      })

pub patch_limits-ok :
    (parse : String → Option ℕ) (p : RiskPatch) (r r' : RiskConfig)
    → patch_limits parse p r ≡ ok r'
    → IsPatched parse p r r' × (IsInRange r → IsInRange r')
unfolding patch_limits
patch_limits-ok parse p r r' e =
    let (r1, e1, k1) = >>=-eq-ok (patch_min_net_profit parse p.min_net_profit_wei r) _ r' e in
    let (r2, e2, k2) = >>=-eq-ok (patch_max_position parse p.max_position_wei r1) _ r' k1 in
    let (r3, e3, k3) = >>=-eq-ok (patch_max_base_fee parse p.max_base_fee_wei r2) _ r' k2 in
    let (r4, e4, k4) = >>=-eq-ok (patch_max_drawdown parse p.max_drawdown_wei r3) _ r' k3 in
    let (r5, e5, k5) = >>=-eq-ok (patch_bribe p.bribe_bps r4) _ r' k4 in
    let (r6, e6, e7) = >>=-eq-ok (patch_max_gas p.max_gas_per_bundle r5) _ r' k5 in
    let s1 = min_net_profit_step parse p.min_net_profit_wei r r1 e1 in
    let s2 = position_step parse p.max_position_wei r1 r2 e2 in
    let s3 = base_fee_step parse p.max_base_fee_wei r2 r3 e3 in
    let s4 = drawdown_step parse p.max_drawdown_wei r3 r4 e4 in
    let s5 = bribe_step p.bribe_bps r4 r5 e5 in
    let s6 = gas_step p.max_gas_per_bundle r5 r6 e6 in
    let s7 = inflight_step p.max_inflight_per_strategy r6 r' e7 in
    (
      steps-IsPatched parse p r r1 r2 r3 r4 r5 r6 r' s1 s2 s3 s4 s5 s6 s7,
      steps-IsInRange parse p r r1 r2 r3 r4 r5 r6 r' s1 s2 s3 s4 s5 s6 s7,
    )
