-- ===== src/Dex.antt =====
-- The pools and the pricing of bot/crates/mev-bot/src/dex.rs. Amounts are `U256`, whose operators
-- wrap. A division by zero, which panics, is not reached: each is behind a test.
pub mod Words
pub mod Quotes
pub mod Swaps
pub mod Search
pub mod Sizing
mod Tests
use arrow_head.Prelude.{
  ℕ, zero, suc, ◌+◌, ◌-◌, ◌*◌, ◌/◌, ◌%◌, ◌^◌, min, Bool, true, false, Option, none, some, ltb, leb,
  ◌==◌, not, ◌&&◌, ◌||◌, if◌then◌else◌, u32_mod, u256_mod, add256, sub256, mul256, ◌>>=◌,
}
use arrow_head.Types.{Address}

pub data Venue : Type 0 where
  uni_v2 sushi_v2 uni_v3 aero_volatile : Venue

pub record AeroPool : Type 0 where
  pub address : Address
  pub token0 : Address
  pub token1 : Address
  pub reserve0 : ℕ
  pub reserve1 : ℕ
  pub fee_bps : ℕ
  pub stable : Bool
  pub block : ℕ

pub record V2Pool : Type 0 where
  pub address : Address
  pub token0 : Address
  pub token1 : Address
  pub reserve0 : ℕ
  pub reserve1 : ℕ
  pub fee_bps : ℕ
  pub venue : Venue
  pub block : ℕ

-- `10_000u32 - fee_bps`
unfoldable pub fee_num : ℕ → ℕ
fee_num fee_bps = (10_000 + u32_mod - fee_bps) % u32_mod

unfoldable pub v2_amount_out : ℕ → ℕ → ℕ → ℕ → ℕ
v2_amount_out amount_in reserve_in reserve_out fee_bps =
    let amount_in_with_fee = mul256 amount_in (fee_num fee_bps) in
    let numerator = mul256 amount_in_with_fee reserve_out in
    let denominator = add256 (mul256 reserve_in 10_000) amount_in_with_fee in
    if amount_in == 0 || reserve_in == 0 || reserve_out == 0
    then 0
    else if denominator == 0
    then 0
    else numerator / denominator

unfoldable pub v2_amount_in : ℕ → ℕ → ℕ → ℕ → ℕ
v2_amount_in amount_out reserve_in reserve_out fee_bps =
    let numerator = mul256 (mul256 reserve_in amount_out) 10_000 in
    let denominator = mul256 (sub256 reserve_out amount_out) (fee_num fee_bps) in
    if amount_out == 0 || leb reserve_out amount_out
    then u256_mod - 1
    else if denominator == 0
    then u256_mod - 1
    else add256 (numerator / denominator) 1

unfoldable pub aero_volatile_amount_out : ℕ → ℕ → ℕ → ℕ → ℕ
aero_volatile_amount_out amount_in reserve_in reserve_out fee_bps =
    let fee = mul256 amount_in fee_bps / 10_000 in
    let xin = amount_in - fee in
    let denominator = add256 reserve_in xin in
    if amount_in == 0 || reserve_in == 0 || reserve_out == 0
    then 0
    else if xin == 0
    then 0
    else if denominator == 0
    then 0
    else mul256 xin reserve_out / denominator

-- `AeroPool::reserves_for`
unfoldable pub aero_reserves_for : AeroPool → Address → Option (ℕ × ℕ)
aero_reserves_for p token_in =
    if token_in == p.token0
    then some (p.reserve0, p.reserve1)
    else if token_in == p.token1
    then some (p.reserve1, p.reserve0)
    else none

unfoldable pub aero_other_token : AeroPool → Address → Option Address
aero_other_token p token =
    if token == p.token0 then some p.token1 else if token == p.token1 then some p.token0 else none

-- `AeroPool::amount_out`
unfoldable pub aero_amount_out : AeroPool → Address → ℕ → Option ℕ
unfolding aero_reserves_for
aero_amount_out p token_in amount_in = if p.stable then none else (do
  (r_in, r_out) ← aero_reserves_for p token_in
  let out = aero_volatile_amount_out amount_in r_in r_out p.fee_bps
  if out == 0 then none else some out)

-- `AeroPool::with_swap`
unfoldable pub aero_with_swap : AeroPool → Address → ℕ → Option (AeroPool × ℕ)
unfolding aero_amount_out
aero_with_swap p token_in amount_in = do
  out ← aero_amount_out p token_in amount_in
  some (
    if token_in == p.token0
        then record p { reserve0 = add256 p.reserve0 amount_in; reserve1 = p.reserve1 - out }
        else record p { reserve0 = p.reserve0 - out; reserve1 = add256 p.reserve1 amount_in },
    out,
  )

-- `V2Pool::reserves_for`
unfoldable pub reserves_for : V2Pool → Address → Option (ℕ × ℕ)
reserves_for p token_in =
    if token_in == p.token0
    then some (p.reserve0, p.reserve1)
    else if token_in == p.token1
    then some (p.reserve1, p.reserve0)
    else none

-- `V2Pool::other_token`
unfoldable pub other_token : V2Pool → Address → Option Address
other_token p token =
    if token == p.token0 then some p.token1 else if token == p.token1 then some p.token0 else none

-- `V2Pool::amount_out`
unfoldable pub amount_out : V2Pool → Address → ℕ → Option ℕ
unfolding reserves_for
amount_out p token_in amount_in = do
  (r_in, r_out) ← reserves_for p token_in
  some (v2_amount_out amount_in r_in r_out p.fee_bps)

-- `V2Pool::with_swap`
unfoldable pub with_swap : V2Pool → Address → ℕ → Option (V2Pool × ℕ)
unfolding amount_out
with_swap p token_in amount_in = do
  out ← amount_out p token_in amount_in
  some (
    if token_in == p.token0
        then record p { reserve0 = add256 p.reserve0 amount_in; reserve1 = p.reserve1 - out }
        else record p { reserve0 = p.reserve0 - out; reserve1 = add256 p.reserve1 amount_in },
    out,
  )

-- `V2Pool::price_1e18`
unfoldable pub price_1e18 : V2Pool → Address → Option ℕ
unfolding reserves_for
price_1e18 p token = do
  (r_in, r_out) ← reserves_for p token
  if r_in == 0 then none else some (mul256 r_out (10 ^ 18) / r_in)
