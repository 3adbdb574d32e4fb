-- ===== src/Dex/Quotes.antt =====
-- What a trade does to a constant product pool.
use arrow_head.Prelude.{ℕ, ◌+◌, ◌-◌, ◌*◌, ◌/◌, ◌≤◌, ◌<◌, ◌≡◌, refl, sym, subst, arith}
use arrow_head.Dex.{v2_amount_out, v2_amount_in}
use arrow_head.Dex.Words.{u112_mod, v2_amount_out_lem, v2_amount_in_lem}
use native.Mathlib.Nat.{
  mul-le-mul_left, mul-le-mul_right, le-div_iff_mul-le, div-mul-le_self, mul_comm,
  div-lt_iff_lt-mul, add-mul, mul-add,
}

-- What is taken out of one side is no more than what is put in on the other allows.
sides_kept :
    (x u a q c : ℕ)
    → u ≤ x * 10_000
    → q * (a * 10_000 + u) ≤ u * (q + c)
    → a * (q + c) ≤ (a + x) * c
sides_kept x u a q c le h =
    let h1 : q * (a * 10_000) + q * u ≤ u * q + u * c =
      rw (sym (mul-add q (a * 10_000) u), sym (mul-add u q c)) h in
    let h2 : u * c ≤ x * 10_000 * c = mul-le-mul_right c le in
    let e1 : q * (a * 10_000) ≡ a * q * 10_000 = grind arith in
    let e2 : x * 10_000 * c ≡ x * c * 10_000 = grind arith in
    let e3 : q * u ≡ u * q = mul_comm q u in
    let flow : a * q ≤ x * c = omega arith in rw (mul-add a q c, add-mul a x c) (omega arith)

-- A quotient taken from one side keeps the product.
pub product_kept :
    (x a b f : ℕ)
    → f ≤ 10_000
    → 0 < a
    → 0 < b
    → (x * f * b / (a * 10_000 + x * f) < b)
      × (a * b ≤ (a + x) * (b - x * f * b / (a * 10_000 + x * f)))
product_kept x a b f hf pa pb =
    let d = a * 10_000 + x * f in
    let q = x * f * b / d in
    let pd : 0 < d = omega arith in
    let below : q * d ≤ x * f * b = div-mul-le_self (x * f * b) d in
    let e1 : b * d ≡ b * (a * 10_000) + x * f * b =
      rw (mul-add b (a * 10_000) (x * f), mul_comm b (x * f)) refl in
    let p1 : 0 < b * (a * 10_000) = grind arith in
    let small : q < b = (div-lt_iff_lt-mul pd).1 (omega arith) in
    let split : q + (b - q) ≡ b = omega arith in
    let le : x * f ≤ x * 10_000 = mul-le-mul_left x hf in
    let kept : a * (q + (b - q)) ≤ (a + x) * (b - q) =
      sides_kept x (x * f) a q (b - q) le (rw split below) in
    (small, subst (λ m. a * m ≤ (a + x) * (b - q)) split kept)

-- The reserves of a pair and a fee the formulas are used with.
unfoldable pub IsPriced : ℕ → ℕ → ℕ → Type 0
IsPriced a b fee = (0 < a) × (a < u112_mod) × (0 < b) × (b < u112_mod) × (fee ≤ 10_000)

-- An exact-in quote pays out less than the pool holds, and the product of the reserves after the
-- trade is no less than before it, for reserves above zero, reserves and amounts below 2^112 and a
-- fee of at most 10000 basis points.
pub v2_amount_out-product :
    (x a b fee : ℕ)
    → IsPriced a b fee
    → x < u112_mod
    → (v2_amount_out x a b fee < b) × (a * b ≤ (a + x) * (b - v2_amount_out x a b fee))
unfolding IsPriced
v2_amount_out-product x a b fee (pa, ha, pb, hb, hf) hx =
    rw (v2_amount_out_lem x a b fee hx ha hb hf pa)
      (product_kept x a b (10_000 - fee) (omega arith) pa pb)

-- One more than the quotient covers what is asked for.
asked_covered :
    (o a c f n : ℕ)
    → 0 < c * f
    → a * o * 10_000 < n * (c * f)
    → 0 < a
    → o ≤ n * f * (o + c) / (a * 10_000 + n * f)
asked_covered o a c f n pos h pa =
    let e1 : n * (c * f) ≡ n * f * c = grind arith in
    let e2 : a * o * 10_000 ≡ o * (a * 10_000) = grind arith in
    let e3 : o * (n * f) ≡ n * f * o = mul_comm o (n * f) in
    (le-div_iff_mul-le (omega arith)).1
      (rw (mul-add o (a * 10_000) (n * f), mul-add (n * f) o c) (omega arith))

-- On reserves above zero and below 2^112 with a fee below 10000 basis points, the input that
-- `v2_amount_in` asks for, where it is below 2^112, buys at least the wanted output, for a wanted
-- output above zero and below the reserve.
pub v2_amount_out-v2_amount_in :
    (o a b fee : ℕ)
    → IsPriced a b fee
    → fee < 10_000
    → 0 < o
    → o < b
    → v2_amount_in o a b fee < u112_mod
    → o ≤ v2_amount_out (v2_amount_in o a b fee) a b fee
unfolding IsPriced
v2_amount_out-v2_amount_in o a b fee (pa, ha, pb, hb, hf) lf po ho hx =
    let f = 10_000 - fee in
    let c = b - o in
    let n = a * o * 10_000 / (c * f) + 1 in
    let pos : 0 < c * f = grind arith in
    let less : a * o * 10_000 < n * (c * f) = (div-lt_iff_lt-mul pos).0 (omega arith) in
    let split : o + c ≡ b = omega arith in
    let covered : o ≤ n * f * (o + c) / (a * 10_000 + n * f) =
      asked_covered o a c f n pos less pa in
    let e : v2_amount_in o a b fee ≡ n = v2_amount_in_lem o a b fee po ho ha hb lf in
    rw (v2_amount_out_lem (v2_amount_in o a b fee) a b fee hx ha hb hf pa, e)
      (subst (λ m. o ≤ n * f * m / (a * 10_000 + n * f)) split covered)
