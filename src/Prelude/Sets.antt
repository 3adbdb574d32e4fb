-- ===== src/Prelude/Sets.antt =====
-- A hash set as the list of its members in the order of their insertion, which no operation here
-- shows, for any test of equality.
use Prim.Native.Nat.{ℕ}
use mathlib.Core.Path.{◌≡◌, refl, ap}
use mathlib.Core.Bool.{Bool, true, false, ◌||◌, ◌&&◌}
use mathlib.Core.List.{List, [], ◌∷◌, ◌++◌}
use mathlib.Core.Logic.{inl, inr}
use native.Mathlib.Omega.{arith}
use arrow_head.Prelude.Tests.{◌==◌, if◌then◌else◌, Bool-cases}

module _ {ℓ} {A : Type ℓ} (eq : A → A → Bool) where
  abbrev pub contains : A → List A → Bool
  contains x [] = false
  contains x (y ∷ ys) = eq x y || contains x ys

  -- `HashSet::insert`
  abbrev pub insert : A → List A → List A
  insert x s = if contains x s then s else s ++ (x ∷ [])

  -- `HashSet::remove`
  abbrev pub remove : A → List A → List A
  remove x [] = []
  remove x (y ∷ ys) = if eq x y then remove x ys else y ∷ remove x ys

  abbrev pub Distinct : List A → Type 0
  Distinct [] = Unit {0}
  Distinct (x ∷ xs) = (contains x xs ≡ false) × Distinct xs

  pub contains-append :
      (x : A) (xs ys : List A) → contains x (xs ++ ys) ≡ contains x xs || contains x ys
  contains-append x [] ys = refl
  contains-append x (y ∷ xs) ys = elim (Bool-cases (eq x y)) [
    | inl t ↦ rw t refl
    | inr t ↦ rw t (contains-append x xs ys)
  ]

  pub remove-fresh : (x : A) (xs : List A) → contains x xs ≡ false → remove x xs ≡ xs
  remove-fresh x [] h = refl
  remove-fresh x (y ∷ xs) h = elim (Bool-cases (eq x y)) [
    | inl t ↦ cc
    | inr t ↦ rw t (ap (λ zs. y ∷ zs) (remove-fresh x xs (rw t at h)))
  ]

  -- What was inserted last is removed without a trace.
  pub remove-insert :
      (x : A) (xs : List A) → eq x x ≡ true → contains x xs ≡ false → remove x (insert x xs) ≡ xs
  remove-insert x xs same h = rw h (dropped xs h)
    where
      dropped : (ys : List A) → contains x ys ≡ false → remove x (ys ++ (x ∷ [])) ≡ ys
      dropped [] k = rw same refl
      dropped (y ∷ ys) k = elim (Bool-cases (eq x y)) [
        | inl t ↦ cc
        | inr t ↦ rw t (ap (λ zs. y ∷ zs) (dropped ys (rw t at k)))
      ]

  module _ (eq-sym : (a b : A) → eq a b ≡ false → eq b a ≡ false) where
    pub Distinct-snoc :
        (xs : List A) (x : A) → Distinct xs → contains x xs ≡ false → Distinct (xs ++ (x ∷ []))
    Distinct-snoc [] x d h = (refl, tt)
    Distinct-snoc (y ∷ xs) x (fresh, d) h =
        let apart : eq x y ≡ false = ground arith in
        let back : eq y x ≡ false = eq-sym x y apart in
        let later : contains x xs ≡ false = rw apart at h in
        (rw (contains-append y xs (x ∷ []), fresh, back) refl, Distinct-snoc xs x d later)

    -- A member is none of those before it.
    pub Distinct-before :
        (xs ys : List A) (x : A) → Distinct (xs ++ (x ∷ ys)) → contains x xs ≡ false
    Distinct-before [] ys x d = refl
    Distinct-before (y ∷ xs) ys x (fresh, d) =
        let h : contains y xs || (eq y x || contains y ys) ≡ false =
          rw (contains-append y xs (x ∷ ys)) at fresh in
        let apart : eq y x ≡ false = ground arith in
        let back : eq x y ≡ false = eq-sym y x apart in rw back (Distinct-before xs ys x d)

  pub Distinct-after : (xs ys : List A) → Distinct (xs ++ ys) → Distinct ys
  Distinct-after [] ys d = d
  Distinct-after (x ∷ xs) ys (_, d) = Distinct-after xs ys d

pub ==_sym : (a b : ℕ) → (a == b) ≡ false → (b == a) ≡ false
==_sym a b h = ground arith

pub ==_refl : (a : ℕ) → (a == a) ≡ true
==_refl a = ground arith

-- The equality of two vectors of numbers.
abbrev pub eq_list : List ℕ → List ℕ → Bool
eq_list [] [] = true
eq_list [] (y ∷ ys) = false
eq_list (x ∷ xs) [] = false
eq_list (x ∷ xs) (y ∷ ys) = (x == y) && eq_list xs ys

pub eq_list_refl : (xs : List ℕ) → eq_list xs xs ≡ true
eq_list_refl [] = refl
eq_list_refl (x ∷ xs) = rw (==_refl x) (eq_list_refl xs)

pub eq_list_sym : (xs ys : List ℕ) → eq_list xs ys ≡ false → eq_list ys xs ≡ false
eq_list_sym [] [] h = h
eq_list_sym [] (y ∷ ys) h = refl
eq_list_sym (x ∷ xs) [] h = refl
eq_list_sym (x ∷ xs) (y ∷ ys) h = elim (Bool-cases (x == y)) [
  | inl t ↦
      let e : x ≡ y = ground arith in
      let back : (y == x) ≡ true = ground arith in rw back (eq_list_sym xs ys (rw t at h))
  | inr t ↦ rw (==_sym x y t) refl
]
