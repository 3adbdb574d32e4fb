-- ===== src/Valuation.antt =====
-- The pricing of a profit in the native token: bot/crates/mev-bot/src/valuation.rs. What the node
-- answers is an argument: the decimals of the token, what the quoter gives for a fee tier (none
-- without a quoter), and the pool of the fallback. The map of the cache is a list of entries.
pub mod Haircut
pub mod Cached
mod Tests
use arrow_head.Prelude.{
  ℕ, zero, suc, ◌+◌, ◌-◌, ◌*◌, ◌/◌, ◌%◌, ◌^◌, min, Bool, true, false, Option, none, some, List, [],
  ◌∷◌, ltb, leb, ◌==◌, not, ◌&&◌, ◌||◌, if◌then◌else◌, u256_mod, saturating_add, saturating_mul,
  mul256, ◌>>=◌,
}
use arrow_head.Types.{Address}
use arrow_head.Dex.{V2Pool, v2_amount_out}

pub data Route : Type 0 where
  native : Route
  uni_v3 : ℕ → Route
  v2_reserves : Route

pub record Valuation : Type 0 where
  pub wei : ℕ
  pub block : ℕ
  pub route : Route

unfoldable pub apply_haircut : ℕ → ℕ → ℕ
apply_haircut v haircut_bps =
    let keep = 10_000 - min haircut_bps 10_000 in
    let q = v / 10_000 in
    let r = v % 10_000 in
    saturating_add u256_mod (saturating_mul u256_mod q keep) (mul256 r keep / 10_000)

-- An entry: the token, the block and what was quoted.
pub record Entry : Type 0 where
  pub token : Address
  pub at : ℕ
  pub quoted : Option Valuation

pub record ValuationCache : Type 0 where
  pub entries : List Entry
  pub newest_block : ℕ

unfoldable pub is_key : Address → ℕ → Entry → Bool
is_key token block e = e.token == token && e.at == block

unfoldable pub find_entry : Address → ℕ → List Entry → Option (Option Valuation)
find_entry token block [] = none
find_entry token block (e ∷ es) =
    if is_key token block e then some e.quoted else find_entry token block es

unfoldable pub get : ValuationCache → Address → ℕ → Option (Option Valuation)
get cache token block = find_entry token block cache.entries

-- `retain(|(_, b), _| *b >= block)`
unfoldable pub retain_from : ℕ → List Entry → List Entry
retain_from block [] = []
retain_from block (e ∷ es) =
    let rest = retain_from block es in if leb block e.at then e ∷ rest else rest

-- `insert`: the entry hides an older one of its key.
unfoldable pub put : ValuationCache → Address → ℕ → Option Valuation → ValuationCache
put cache token block v =
    let newer = ltb cache.newest_block block in
    record {
      entries =
          record { token = token; at = block; quoted = v }
          ∷ (if newer then retain_from block cache.entries else cache.entries);
      newest_block = if newer then block else cache.newest_block;
    }

unfoldable pub pow10 : ℕ → Option ℕ
pow10 decimals = if ltb 36 decimals then none else some (10 ^ decimals)

-- `a.checked_mul(b)` on `U256`
abbrev pub checked_mul : ℕ → ℕ → Option ℕ
checked_mul a b = if leb u256_mod (a * b) then none else some (a * b)

abbrev pub fee_tiers : List ℕ
fee_tiers = 100 ∷ 500 ∷ 3_000 ∷ 10_000 ∷ []

-- `filter(|v| !v.is_zero())`, and the better of two quotes.
abbrev better : Option ℕ → ℕ → Option (ℕ × ℕ) → Option (ℕ × ℕ)
better none fee best = best
better (some v) fee none = if v == 0 then none else some (v, fee)
better (some v) fee (some (b, f)) = if not (v == 0) && ltb b v then some (v, fee) else some (b, f)

unfoldable pub best_quote : (ℕ → Option ℕ) → List ℕ → Option (ℕ × ℕ) → Option (ℕ × ℕ)
best_quote quote [] best = best
best_quote quote (fee ∷ fees) best = best_quote quote fees (better (quote fee) fee best)

abbrev priced : ℕ → ℕ → Route → Option Valuation
priced wei block route =
    if wei == 0 then none else some (record { wei = wei; block = block; route = route })

-- The price of a unit from the output of a probe, where it is not zero.
unfoldable pub per_unit : ℕ → ℕ → ℕ → ℕ → Route → Option (Option Valuation)
per_unit out one probe block route = do
  product ← checked_mul out one
  some (priced (product / probe) block route)

abbrev v3_quote : Option (ℕ → Option ℕ) → Option (ℕ × ℕ)
v3_quote none = none
v3_quote (some quote) = best_quote quote fee_tiers none

-- The inner option: a quote that fails for good is `none`, one that is not found `some none`.
abbrev v3_unit : Option (ℕ × ℕ) → ℕ → ℕ → ℕ → Option (Option Valuation)
v3_unit none one probe block = some none
v3_unit (some (out, fee)) one probe block = per_unit out one probe block (Route.uni_v3 fee)

unfoldable pub v2_unit : Option V2Pool → Address → ℕ → ℕ → ℕ → Option (Option Valuation)
v2_unit none token one probe block = some none
v2_unit (some pool) token one probe block =
    let rin = if pool.token0 == token then pool.reserve0 else pool.reserve1 in
    let rout = if pool.token0 == token then pool.reserve1 else pool.reserve0 in
    if rin == 0 || rout == 0
    then some none
    else per_unit (v2_amount_out probe rin rout pool.fee_bps) one probe block Route.v2_reserves

abbrev or_else : Option Valuation → Option (Option Valuation) → Option (Option Valuation)
or_else (some v) fallback = some (some v)
or_else none fallback = fallback

abbrev join : Option (Option Valuation) → Option Valuation
join none = none
join (some v) = v

unfoldable pub quote_unit :
    Option ℕ → Option (ℕ → Option ℕ) → Option V2Pool → Address → ℕ → Option Valuation
quote_unit decimals quoter pool token block = join (do
  d ← decimals
  one ← pow10 d
  first ← v3_unit (v3_quote quoter) one one block
  or_else first (v2_unit pool token one one block))

-- What the node answers in one run of `value_in_native`; of the decimals, the last byte of a word.
pub record Answers : Type 0 where
  pub decimals : Option ℕ
  pub quoter : Option (ℕ → Option ℕ)
  pub pool : Option V2Pool

unfoldable pub scaled : ℕ → ℕ → ℕ → ℕ
scaled amount unit_wei one =
    if leb u256_mod (amount * unit_wei)
    then saturating_mul u256_mod (amount / one) unit_wei
    else amount * unit_wei / one

-- The value of the amount from that of a unit.
unfoldable pub value_of : Option ℕ → ℕ → ℕ → ℕ → Option Valuation → Option Valuation
value_of decimals amount block haircut_bps unit = do
  u ← unit
  d ← decimals
  one ← pow10 d
  some (record {
    wei = apply_haircut (scaled amount u.wei one) haircut_bps;
    block = block;
    route = u.route;
  })

-- The addresses of the configuration whose decimals are known.
pub record Addresses : Type 0 where
  pub usdc : Address
  pub usdt : Option Address
  pub wbtc : Option Address
  pub dai : Option Address
  pub wsteth : Option Address

-- `Some(token) == configured`
abbrev is_configured : Option Address → Address → Bool
is_configured none token = false
is_configured (some a) token = token == a

unfoldable pub known_decimals : Addresses → Address → Option ℕ
known_decimals a token =
    if token == a.usdc || is_configured a.usdt token
    then some 6
    else if is_configured a.wbtc token
    then some 8
    else if is_configured a.dai token || is_configured a.wsteth token
    then some 18
    else none

-- The memo of the process.
abbrev pub Memo : Type 0
Memo = List (Address × ℕ)

unfoldable pub memo_get : Address → Memo → Option ℕ
memo_get token [] = none
memo_get token ((t, d) ∷ memo) =
    let rest = memo_get token memo in if t == token then some d else rest

abbrev first_of_two : Option ℕ → Option ℕ → Option ℕ
first_of_two none answer = answer
first_of_two (some d) answer = some d

abbrev up_to_36 : Option ℕ → Option ℕ
up_to_36 none = none
up_to_36 (some d) = if ltb 36 d then none else some d

-- The decimals without the memo, from what the node answers.
unfoldable pub read_decimals : Addresses → Address → Option ℕ → Option ℕ
read_decimals a token answer = first_of_two (known_decimals a token) (up_to_36 answer)

abbrev pub remembered : Address → Memo → Option ℕ → Option ℕ × Memo
remembered token memo none = (none, memo)
remembered token memo (some d) = (some d, (token, d) ∷ memo)

abbrev pub recalled : Option ℕ → Addresses → Memo → Address → Option ℕ → Option ℕ × Memo
recalled (some d) a memo token answer = (some d, memo)
recalled none a memo token answer = remembered token memo (read_decimals a token answer)

unfoldable pub token_decimals : Addresses → Memo → Address → Option ℕ → Option ℕ × Memo
token_decimals a memo token answer = recalled (memo_get token memo) a memo token answer

-- A hit, or a fresh quote that is put in the cache.
unfoldable pub unit_of :
    Option (Option Valuation)
    → Addresses
    → Answers
    → ValuationCache
    → Memo
    → Address
    → ℕ
    → Option Valuation × (ValuationCache × Memo)
unit_of (some hit) a n cache memo token block = (hit, (cache, memo))
unit_of none a n cache memo token block =
    let (decimals, later) = token_decimals a memo token n.decimals in
    let fresh = quote_unit decimals n.quoter n.pool token block in
    (fresh, (put cache token block fresh, later))

-- The value of an amount from that of a unit, where there is one; the decimals are asked for again.
unfoldable pub amount_of :
    Option Valuation → Addresses → Answers → Memo → Address → ℕ → ℕ → ℕ → Option Valuation × Memo
amount_of none a n memo token amount block haircut_bps = (none, memo)
amount_of (some unit) a n memo token amount block haircut_bps =
    let (decimals, later) = token_decimals a memo token n.decimals in
    (value_of decimals amount block haircut_bps (some unit), later)

-- The result, the cache and the memo that a call leaves.
unfoldable pub value_in_native :
    Address
    → Addresses
    → Answers
    → ValuationCache
    → Memo
    → Address
    → ℕ
    → ℕ
    → ℕ
    → Option Valuation × (ValuationCache × Memo)
value_in_native weth a n cache memo token amount block haircut_bps =
    let (unit, (kept, later)) = unit_of (get cache token block) a n cache memo token block in
    let (v, last) = amount_of unit a n later token amount block haircut_bps in
    if amount == 0
    then (some (record { wei = 0; block = block; route = Route.native }), (cache, memo))
    else if token == 0 || token == weth
    then (some (record { wei = amount; block = block; route = Route.native }), (cache, memo))
    else (v, (kept, last))
