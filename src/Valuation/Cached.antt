-- ===== src/Valuation/Cached.antt =====
-- Valuations with the cache of a process (bot/crates/mev-bot/src/valuation.rs) and without one.
use arrow_head.Prelude.{
  ℕ, ◌≡◌, refl, sym, ap, ◌∙◌, Option, none, some, List, [], ◌∷◌, map, ltb, leb, ◌==◌, ◌&&◌, ◌||◌,
  if◌then◌else◌, arith, All, Bool-cases, Option-cases, inl, inr,
}
use arrow_head.Types.{Address}
use arrow_head.Valuation.{
  Route, Valuation, Entry, ValuationCache, Answers, find_entry, is_key, get, put, retain_from,
  Addresses, Memo, memo_get, read_decimals, remembered, token_decimals, amount_of, quote_unit,
  unit_of, value_of, value_in_native,
}

-- One call of `value_in_native`.
pub record Request : Type 0 where
  pub token : Address
  pub amount : ℕ
  pub block : ℕ
  pub haircut_bps : ℕ

-- The node answers the same for a token at a block whenever it is asked, and for its decimals the
-- same at every block.
module _ (weth : Address) (a : Addresses) (node : Address → ℕ → Answers)
    (immutable : (token : Address) (b c : ℕ)
      → (node token b).decimals ≡ (node token c).decimals) where
  abbrev pub decimals_of : Address → ℕ → Option ℕ
  decimals_of token block = read_decimals a token (node token block).decimals

  abbrev pub fresh : Address → ℕ → Option Valuation
  fresh token block =
      quote_unit (decimals_of token block) (node token block).quoter (node token block).pool token
        block

  -- The valuation without a cache.
  unfoldable pub uncached : Request → Option Valuation
  uncached r =
      if r.amount == 0
      then some (record { wei = 0; block = r.block; route = Route.native })
      else if r.token == 0 || r.token == weth
      then some (record { wei = r.amount; block = r.block; route = Route.native })
      else value_of (decimals_of r.token r.block) r.amount r.block r.haircut_bps
          (fresh r.token r.block)

  -- The calls of a process one after the other, on the cache and the memo that the one before has
  -- left.
  unfoldable pub values : ValuationCache → Memo → List Request → List (Option Valuation)
  values cache memo [] = []
  values cache memo (r ∷ rs) =
      let (v, (kept, later)) =
        value_in_native weth a (node r.token r.block) cache memo r.token r.amount r.block
          r.haircut_bps in
      v ∷ values kept later rs

  -- Each entry is what the node answers for its key.
  abbrev IsFresh : Entry → Type 0
  IsFresh e = e.quoted ≡ fresh e.token e.at

  abbrev IsCoherent : List Entry → Type 0
  IsCoherent es = All IsFresh es

  find_entry-fresh :
      (token : Address) (block : ℕ) (es : List Entry) (hit : Option Valuation)
      → IsCoherent es
      → find_entry token block es ≡ some hit
      → hit ≡ fresh token block
  unfolding find_entry is_key
  find_entry-fresh token block [] hit h e = cc
  find_entry-fresh token block (x ∷ es) hit (hx, h) e =
      elim (Bool-cases (x.token == token && x.at == block)) [
        | inl t ↦
            let same_token : x.token ≡ token = ground arith in
            let same_block : x.at ≡ block = ground arith in
            let found : x.quoted ≡ hit = cc (rw t at e) in
            sym found ∙ hx ∙ ap (λ k. fresh k x.at) same_token ∙ ap (fresh token) same_block
        | inr t ↦ find_entry-fresh token block es hit h (rw t at e)
      ]

  retain_from-IsCoherent :
      (block : ℕ) (es : List Entry) → IsCoherent es → IsCoherent (retain_from block es)
  unfolding retain_from
  retain_from-IsCoherent block [] h = tt
  retain_from-IsCoherent block (e ∷ es) (he, h) = elim (Bool-cases (leb block e.at)) [
    | inl t ↦ rw t (he, retain_from-IsCoherent block es h)
    | inr t ↦ rw t (retain_from-IsCoherent block es h)
  ]

  -- Each remembered number is what the node answers.
  abbrev IsRemembered : Memo → Type 0
  IsRemembered memo = All (λ e. some e.1 ≡ decimals_of e.0 0) memo

  decimals-same : (token : Address) (block : ℕ) → decimals_of token 0 ≡ decimals_of token block
  decimals-same token block = ap (read_decimals a token) (immutable token 0 block)

  memo_get-decimals :
      (token : Address) (block d : ℕ) (memo : Memo)
      → IsRemembered memo
      → memo_get token memo ≡ some d
      → some d ≡ decimals_of token block
  unfolding memo_get
  memo_get-decimals token block d [] h e = cc
  memo_get-decimals token block d ((t, k) ∷ memo) (hk, h) e = elim (Bool-cases (t == token)) [
    | inl same ↦
        let is : t ≡ token = ground arith in
        let found : some k ≡ some d = rw same at e in
        sym found ∙ hk ∙ ap (λ x. decimals_of x 0) is ∙ decimals-same token block
    | inr other ↦ memo_get-decimals token block d memo h (rw other at e)
  ]

  remembered-decimals :
      (token : Address) (block : ℕ) (memo : Memo) (o : Option ℕ)
      → decimals_of token block ≡ o
      → IsRemembered memo
      → ((remembered token memo o).0 ≡ decimals_of token block)
        × IsRemembered (remembered token memo o).1
  remembered-decimals token block memo none e h = (sym e, h)
  remembered-decimals token block memo (some d) e h =
      (sym e, (sym e ∙ sym (decimals-same token block), h))

  token_decimals-decimals :
      (token : Address) (block : ℕ) (memo : Memo)
      → IsRemembered memo
      → ((token_decimals a memo token (node token block).decimals).0 ≡ decimals_of token block)
        × IsRemembered (token_decimals a memo token (node token block).decimals).1
  unfolding token_decimals
  token_decimals-decimals token block memo h = elim (Option-cases (memo_get token memo)) [
    | inl missing ↦
        rw missing (remembered-decimals token block memo (decimals_of token block) refl h)
    | inr (d, found) ↦ rw found (memo_get-decimals token block d memo h found, h)
  ]

  unit_of-fresh :
      (o : Option (Option Valuation)) (cache : ValuationCache) (memo : Memo) (token : Address)
      (block : ℕ)
      → get cache token block ≡ o
      → IsCoherent cache.entries
      → IsRemembered memo
      → let r = unit_of o a (node token block) cache memo token block in
        (r.0 ≡ fresh token block) × IsCoherent r.1.0.entries × IsRemembered r.1.1
  unfolding unit_of get
  unit_of-fresh (some hit) cache memo token block e h m =
      (find_entry-fresh token block cache.entries hit h e, h, m)
  unit_of-fresh none cache memo token block e h m =
      let (same, later) = token_decimals-decimals token block memo m in
      let quoted =
        ap (λ d. quote_unit d (node token block).quoter (node token block).pool token block) same in
      unfold put in
      elim (Bool-cases (ltb cache.newest_block block)) [
        | inl t ↦ rw t (quoted, (quoted, retain_from-IsCoherent block cache.entries h), later)
        | inr t ↦ rw t (quoted, (quoted, h), later)
      ]

  amount_of-value :
      (o : Option Valuation) (memo : Memo) (r : Request)
      → IsRemembered memo
      → let v = amount_of o a (node r.token r.block) memo r.token r.amount r.block r.haircut_bps in
        (v.0 ≡ value_of (decimals_of r.token r.block) r.amount r.block r.haircut_bps o)
        × IsRemembered v.1
  unfolding amount_of value_of
  amount_of-value none memo r m = (refl, m)
  amount_of-value (some unit) memo r m =
      let (same, later) = token_decimals-decimals r.token r.block memo m in
      (ap (λ d. value_of d r.amount r.block r.haircut_bps (some unit)) same, later)

  value_in_native-uncached :
      (cache : ValuationCache) (memo : Memo) (r : Request)
      → IsCoherent cache.entries
      → IsRemembered memo
      → let v =
          value_in_native weth a
            (node r.token r.block)
            cache
            memo
            r.token
            r.amount
            r.block
            r.haircut_bps in
        (v.0 ≡ uncached r) × IsCoherent v.1.0.entries × IsRemembered v.1.1
  unfolding value_in_native uncached
  value_in_native-uncached cache memo r h m =
      let o = get cache r.token r.block in
      let unit = unit_of o a (node r.token r.block) cache memo r.token r.block in
      let (same, kept, later) = unit_of-fresh o cache memo r.token r.block refl h m in
      let (worth, last) = amount_of-value unit.0 unit.1.1 r later in
      elim (Bool-cases (r.amount == 0)) [
        | inl nothing ↦ rw nothing (refl, h, m)
        | inr something ↦ elim (Bool-cases (r.token == 0 || r.token == weth)) [
          | inl wrapped ↦ rw (something, wrapped) (refl, h, m)
          | inr token ↦
              rw (something, token)
                (
                  worth
                      ∙ ap (value_of (decimals_of r.token r.block) r.amount r.block r.haircut_bps)
                          same,
                  kept,
                  last,
                )
        ]
      ]

  values-coherent :
      (cache : ValuationCache) (memo : Memo) (rs : List Request)
      → IsCoherent cache.entries
      → IsRemembered memo
      → values cache memo rs ≡ map uncached rs
  unfolding values
  values-coherent cache memo [] h m = refl
  values-coherent cache memo (r ∷ rs) h m =
      let (same, kept, later) = value_in_native-uncached cache memo r h m in
      let next =
        (value_in_native weth a (node r.token r.block) cache memo r.token r.amount r.block
          r.haircut_bps).1 in
      ap (λ v. v ∷ values next.0 next.1 rs) same
      ∙ ap (λ vs. uncached r ∷ vs) (values-coherent next.0 next.1 rs kept later)

  -- Where the node answers the same for a token at a block whenever it is asked, and for a token's
  -- decimals the same at every block, any sequence of calls on a cache and a memo of decimals that
  -- start empty, whatever the tokens and the order of the blocks, gives the valuations that calls
  -- without a cache and a memo give.
  pub values-uncached :
      (newest : ℕ) (rs : List Request)
      → values (record { entries = []; newest_block = newest }) [] rs ≡ map uncached rs
  values-uncached newest rs =
      values-coherent (record { entries = []; newest_block = newest }) [] rs tt tt
