-- ===== src/Dex/Swaps.antt =====
-- The pool after a swap: `V2Pool::with_swap` and `AeroPool::with_swap` of
-- bot/crates/mev-bot/src/dex.rs.
use arrow_head.Prelude.{
  ℕ, ◌+◌, ◌-◌, ◌*◌, ◌≤◌, ◌<◌, ◌≡◌, inl, inr, refl, subst, arith, some, Bool-cases, add256,
  add256_lem, ◌==◌,
}
use arrow_head.Types.{Address}
use arrow_head.Dex.{V2Pool, v2_amount_out, with_swap, amount_out, reserves_for}
use arrow_head.Dex.Words.{u112_mod}
use arrow_head.Dex.Quotes.{IsPriced, v2_amount_out-product}
use native.Mathlib.Nat.{mul_comm}

-- The swapped pool keeps the product of the reserves and leaves none of them empty.
unfoldable pub IsKept : V2Pool → V2Pool → Type 0
IsKept p q =
    (p.reserve0 * p.reserve1 ≤ q.reserve0 * q.reserve1)
    × (0 < q.reserve0)
    × (0 < q.reserve1)
    × (q.fee_bps ≡ p.fee_bps)

-- A swap on a pool with reserves and an amount below 2^112 and a fee of at most 10000 basis points
-- gives a pool whose reserves are not empty and whose product is no less than before.
pub with_swap-IsKept :
    (p q : V2Pool) (t : Address) (x out : ℕ)
    → IsPriced p.reserve0 p.reserve1 p.fee_bps
    → x < u112_mod
    → with_swap p t x ≡ some (q, out)
    → IsKept p q
unfolding with_swap amount_out reserves_for IsPriced IsKept
with_swap-IsKept p q t x out (pa, ha, pb, hb, hf) hx e =
    let a = p.reserve0 in
    let b = p.reserve1 in
    let (less0, kept0) = v2_amount_out-product x a b p.fee_bps (pa, ha, pb, hb, hf) hx in
    let (less1, kept1) = v2_amount_out-product x b a p.fee_bps (pb, hb, pa, ha, hf) hx in
    elim (Bool-cases (t == p.token0)) [
      | inl t0 ↦
          let sold = rw t0 at e in
          let is : record p { reserve0 = add256 a x; reserve1 = b - v2_amount_out x a b p.fee_bps }
              ≡ q =
            cc in
          subst (λ z. IsKept p z) is
            (rw (add256_lem a x (omega arith)) (kept0, omega arith, omega arith, refl))
      | inr t0 ↦ elim (Bool-cases (t == p.token1)) [
        | inl t1 ↦
            let sold = rw (t0, t1) at e in
            let is : record p {
              reserve0 = a - v2_amount_out x b a p.fee_bps;
              reserve1 = add256 b x;
            }
                ≡ q =
              cc in
            let flipped : a * b ≤ (a - v2_amount_out x b a p.fee_bps) * (b + x) =
              rw (mul_comm a b, mul_comm (a - v2_amount_out x b a p.fee_bps) (b + x)) kept1 in
            subst (λ z. IsKept p z) is
              (rw (add256_lem b x (omega arith)) (flipped, omega arith, omega arith, refl))
        | inr t1 ↦ let sold = rw (t0, t1) at e in cc
      ]
    ]
