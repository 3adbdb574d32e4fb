-- ===== src/Executor/Tests.antt =====
-- The calls of concrete opportunities at the executor.
use arrow_head.Prelude.{ℕ, ◌≡◌, true, false, [], ◌∷◌, some, none, refl, inl}
use arrow_head.Prelude.Results.{err}
use arrow_head.Types.{Opportunity}
use arrow_head.Bundle.{executor_call}
use arrow_head.Bundle.Samples.{sandwich, limits, tag_of}
use arrow_head.Executor.{Revert, Block, Effects, enter}
use arrow_head.Executor.Phases.{enter-back_only}

abbrev block : Block
block = record { number = 101; base_fee = 10 }

-- The same calls without a back leg, flash funded.
abbrev one_leg : Opportunity
one_leg = record sandwich { back_calls = []; flash_tokens = 3 ∷ []; flash_amounts = 1_000 ∷ [] }

-- A back-run: the same calls without a front leg.
abbrev back_run : Opportunity
back_run = record one_leg { front_calls = []; back_calls = sandwich.back_calls }

-- A leg that takes the balance from one amount to another.
abbrev moves : ℕ → ℕ → Effects
moves before after = record {
  weth = 7;
  before = before;
  after = some after;
  bribe_taken = true;
  leaks = false;
  lent = true;
}

enter-back_only_example :
    (r : Revert) × (enter block
        (moves 50 60)
        none
        (executor_call tag_of back_run back_run.back_calls false limits)
      ≡ err r)
enter-back_only_example =
    enter-back_only tag_of block (moves 50 60) none back_run limits refl (inl refl)
