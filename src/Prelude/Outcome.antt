-- ===== src/Prelude/Outcome.antt =====
-- What a decoder returns: a value or `None`, or that it panics. `out_of_fuel` is no Rust value.
use mathlib.Core.Path.{◌≡◌, refl}
use mathlib.Core.Bool.{Bool, true, false}
use mathlib.Core.Logic.{◌≢◌}

pub data Outcome (A : Type 0) : Type 0 where
  value : A → Outcome A
  absent : Outcome A
  panicked : Outcome A
  out_of_fuel : Outcome A

infixl 5 ◌>>=◌ ◌>>◌
abbrev pub ◌>>=◌ : {A B : Type 0} → Outcome A → (A → Outcome B) → Outcome B
value a >>= f = f a
absent >>= f = absent
panicked >>= f = panicked
out_of_fuel >>= f = out_of_fuel

abbrev pub ◌>>◌ : {B : Type 0} → Outcome (Unit {0}) → Outcome B → Outcome B
m >> k = m >>= λ _. k

-- `if failed { return None }`
abbrev pub absent_if : Bool → Outcome (Unit {0})
absent_if true = absent
absent_if false = value tt

-- What a bind that returns a value has gone through.
pub >>=-eq-value :
    {A B : Type 0} (m : Outcome A) (f : A → Outcome B) (b : B)
    → (m >>= f) ≡ value b
    → (a : A) × (m ≡ value a) × (f a ≡ value b)
>>=-eq-value (value a) f b h = (a, refl, h)
>>=-eq-value absent f b h = cc
>>=-eq-value panicked f b h = cc
>>=-eq-value out_of_fuel f b h = cc

-- A bind runs out of fuel only where one of its parts does.
pub >>=-ne-out_of_fuel :
    {A B : Type 0} (m : Outcome A) (f : A → Outcome B)
    → m ≢ out_of_fuel
    → ((a : A) → f a ≢ out_of_fuel)
    → (m >>= f) ≢ out_of_fuel
>>=-ne-out_of_fuel (value a) f h k = k a
>>=-ne-out_of_fuel absent f h k = λ e. cc
>>=-ne-out_of_fuel panicked f h k = λ e. cc
>>=-ne-out_of_fuel out_of_fuel f h k = λ e. h refl

pub absent_if-ne-out_of_fuel : (b : Bool) → absent_if b ≢ out_of_fuel
absent_if-ne-out_of_fuel true = λ e. cc
absent_if-ne-out_of_fuel false = λ e. cc
