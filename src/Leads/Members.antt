-- ===== src/Leads/Members.antt =====
-- The members of a list of leads, sorted or cut, for bot/crates/mev-bot/src/strategies/leads.rs.
use arrow_head.Prelude.{
  ℕ, zero, suc, ap, Bool, [], ◌≡◌, ◌⊎◌, inl, inr, refl, true, List, ◌∷◌, ◌++◌, length, take, All,
  Bool-cases,
}
use arrow_head.Prelude.Sort.{sort_by, IsSorted, insert_sorted}
use arrow_head.Leads.{Lead}

abbrev pub IsIn : Lead → List Lead → Type 0
IsIn l [] = ⊥
IsIn l (x ∷ xs) = (l ≡ x) ⊎ IsIn l xs

pub IsIn-append : (l : Lead) (xs ys : List Lead) → IsIn l (xs ++ ys) → IsIn l xs ⊎ IsIn l ys
IsIn-append l [] ys h = inr h
IsIn-append l (x ∷ xs) ys (inl e) = inl (inl e)
IsIn-append l (x ∷ xs) ys (inr h) = elim (IsIn-append l xs ys h) [
  | inl a ↦ inl (inr a)
  | inr b ↦ inr b
]

pub IsIn-left : (l : Lead) (xs ys : List Lead) → IsIn l xs → IsIn l (xs ++ ys)
IsIn-left l [] ys h = elim h [ ]
IsIn-left l (x ∷ xs) ys (inl e) = inl e
IsIn-left l (x ∷ xs) ys (inr h) = inr (IsIn-left l xs ys h)

pub IsIn-right : (l : Lead) (xs ys : List Lead) → IsIn l ys → IsIn l (xs ++ ys)
IsIn-right l [] ys h = h
IsIn-right l (x ∷ xs) ys h = inr (IsIn-right l xs ys h)

IsIn-insert_sorted :
    (le : Lead → Lead → Bool) (l x : Lead) (xs : List Lead)
    → (l ≡ x) ⊎ IsIn l xs
    → IsIn l (insert_sorted le x xs)
IsIn-insert_sorted le l x [] h = h
IsIn-insert_sorted le l x (y ∷ ys) h = elim (Bool-cases (le x y)) [
  | inl first ↦ rw first h
  | inr later ↦ rw later (elim h [
    | inl e ↦ inr (IsIn-insert_sorted le l x ys (inl e))
    | inr old ↦ elim old [
      | inl e ↦ inl e
      | inr there ↦ inr (IsIn-insert_sorted le l x ys (inr there))
    ]
  ])
]

pub IsIn-sort_by :
    (le : Lead → Lead → Bool) (l : Lead) (xs : List Lead) → IsIn l xs → IsIn l (sort_by le xs)
IsIn-sort_by le l [] h = elim h [ ]
IsIn-sort_by le l (x ∷ xs) (inl e) = IsIn-insert_sorted le l x (sort_by le xs) (inl e)
IsIn-sort_by le l (x ∷ xs) (inr h) =
    IsIn-insert_sorted le l x (sort_by le xs) (inr (IsIn-sort_by le l xs h))

All-IsIn : (P : Lead → Type 0) (l : Lead) (xs : List Lead) → All P xs → IsIn l xs → P l
All-IsIn P l [] ps h = elim h [ ]
All-IsIn P l (x ∷ xs) (p, ps) (inl e) = rw e p
All-IsIn P l (x ∷ xs) (p, ps) (inr h) = All-IsIn P l xs ps h

-- A lead is among the first ones of a sorted list, or these are as many as wanted and none of them
-- has to come behind it.
pub IsIn-take :
    (le : Lead → Lead → Bool) (n : ℕ) (l : Lead) (xs : List Lead)
    → IsSorted le xs
    → IsIn l xs
    → IsIn l (take n xs) ⊎ ((length (take n xs) ≡ n) × All (λ r. le r l ≡ true) (take n xs))
IsIn-take le zero l xs s h = inr (refl, tt)
IsIn-take le (suc n) l [] s h = elim h [ ]
IsIn-take le (suc n) l (x ∷ xs) s (inl e) = inl (inl e)
IsIn-take le (suc n) l (x ∷ xs) (first, s) (inr h) = elim (IsIn-take le n l xs s h) [
  | inl here ↦ inl (inr here)
  | inr (full, all) ↦ inr (ap suc full, (All-IsIn (λ y. le x y ≡ true) l xs first h, all))
]
