-- ===== src/Prelude/Sort.antt =====
-- The stable sort of the standard library, by a test that says which element may come first.
use Prim.Native.Nat.{ℕ, zero, suc}
use mathlib.Core.Path.{◌≡◌, refl, ap, ◌∙◌}
use mathlib.Core.Bool.{Bool, true, false}
use mathlib.Core.List.{List, [], ◌∷◌}
use mathlib.Core.Logic.{inl, inr}
use arrow_head.Prelude.Tests.{if◌then◌else◌, Bool-cases}
use arrow_head.Prelude.Lists.{All, length, take, All-take}

module _ {ℓ} {A : Type ℓ} (le : A → A → Bool) where
  abbrev pub insert_sorted : A → List A → List A
  insert_sorted x [] = x ∷ []
  insert_sorted x (y ∷ ys) = if le x y then x ∷ (y ∷ ys) else y ∷ insert_sorted x ys

  abbrev pub sort_by : List A → List A
  sort_by [] = []
  sort_by (x ∷ xs) = insert_sorted x (sort_by xs)

  -- No element is before one that it may not come before.
  abbrev pub IsSorted : List A → Type 0
  IsSorted [] = Unit {0}
  IsSorted (x ∷ xs) = All (λ y. le x y ≡ true) xs × IsSorted xs

  pub All-insert_sorted {κ} :
      (P : A → Type κ) (x : A) (xs : List A) → P x → All P xs → All P (insert_sorted x xs)
  All-insert_sorted P x [] p ps = (p, ps)
  All-insert_sorted P x (y ∷ xs) p (q, ps) = elim (Bool-cases (le x y)) [
    | inl t ↦ rw t (p, (q, ps))
    | inr t ↦ rw t (q, All-insert_sorted P x xs p ps)
  ]

  pub All-sort_by {κ} : (P : A → Type κ) (xs : List A) → All P xs → All P (sort_by xs)
  All-sort_by P [] ps = ps
  All-sort_by P (x ∷ xs) (p, ps) = All-insert_sorted P x (sort_by xs) p (All-sort_by P xs ps)

  pub length-insert_sorted : (x : A) (xs : List A) → length (insert_sorted x xs) ≡ suc (length xs)
  length-insert_sorted x [] = refl
  length-insert_sorted x (y ∷ xs) = elim (Bool-cases (le x y)) [
    | inl t ↦ rw t refl
    | inr t ↦ rw t (ap suc (length-insert_sorted x xs))
  ]

  pub length-sort_by : (xs : List A) → length (sort_by xs) ≡ length xs
  length-sort_by [] = refl
  length-sort_by (x ∷ xs) = length-insert_sorted x (sort_by xs) ∙ ap suc (length-sort_by xs)

  pub take-IsSorted : (n : ℕ) (xs : List A) → IsSorted xs → IsSorted (take n xs)
  take-IsSorted zero xs s = tt
  take-IsSorted (suc n) [] s = tt
  take-IsSorted (suc n) (x ∷ xs) (ps, s) =
      (All-take (λ y. le x y ≡ true) n xs ps, take-IsSorted n xs s)

  module _ (le-total : (a b : A) → le a b ≡ false → le b a ≡ true)
      (le-trans : (a b c : A) → le a b ≡ true → le b c ≡ true → le a c ≡ true) where
    All-le :
        (x y : A) (xs : List A)
        → le x y ≡ true
        → All (λ z. le y z ≡ true) xs
        → All (λ z. le x z ≡ true) xs
    All-le x y [] h ps = ps
    All-le x y (z ∷ xs) h (p, ps) = (le-trans x y z h p, All-le x y xs h ps)

    insert_sorted-IsSorted : (x : A) (xs : List A) → IsSorted xs → IsSorted (insert_sorted x xs)
    insert_sorted-IsSorted x [] s = (tt, tt)
    insert_sorted-IsSorted x (y ∷ xs) (ps, s) = elim (Bool-cases (le x y)) [
      | inl t ↦ rw t ((t, All-le x y xs t ps), (ps, s))
      | inr t ↦ rw t (
        All-insert_sorted (λ z. le y z ≡ true) x xs (le-total x y t) ps,
        insert_sorted-IsSorted x xs s,
      )
    ]

    pub sort_by-IsSorted : (xs : List A) → IsSorted (sort_by xs)
    sort_by-IsSorted [] = tt
    sort_by-IsSorted (x ∷ xs) = insert_sorted-IsSorted x (sort_by xs) (sort_by-IsSorted xs)
