-- ===== src/Flashblocks.antt =====
-- The preconfirmed feed of bot/crates/mev-bot/src/flashblocks.rs: the frames as the JSON accessors
-- answer them, the test of their sequence, and the parts below.

pub mod Parser
pub mod Intake
pub mod Window
pub mod Taken
pub mod Emitted
pub mod Held
pub mod Redelivered
mod Tests
pub mod Tracker
pub mod Pins
pub mod Seals
pub mod Blocks
pub mod Grades
use arrow_head.Prelude.{
  ℕ, suc, ◌+◌, ◌-◌, ◌*◌, ◌%◌, Bool, true, false, Option, none, some, List, [], ◌∷◌, ◌++◌, ltb, leb,
  ◌==◌, not, ◌&&◌, ◌||◌, if◌then◌else◌, u64_mod, ◌>>=◌,
}
use arrow_head.Types.{B256, Bytes}
use arrow_head.Types.Pending.{Text}

-- An entry of `transactions`: not a text, or what `hex::decode` gives.
pub data Item : Type 0 where
  object : Item
  text : Option Bytes → Item

pub record Diff : Type 0 where
  pub block_hash : Option B256
  pub transactions : List Item

pub record Base : Type 0 where
  pub block_number : Option ℕ
  pub parent_hash : Option B256

-- A notification: each field is what the accessors of serde_json give for it.
pub record Frame : Type 0 where
  pub index : Option ℕ
  pub diff : Option Diff
  pub payload_id : Option Text
  pub meta_block_number : Option ℕ
  pub prev_flashblock_id : Option Text
  pub base : Option Base

-- `s.rsplit_once('-')`, whose dash has the code 45.
unfoldable pub rsplit_dash : Text → Option (Text × Text)
rsplit_dash [] = none
rsplit_dash (c ∷ cs) = prepend (rsplit_dash cs)
  where
    prepend : Option (Text × Text) → Option (Text × Text)
    prepend (some (a, b)) = some (c ∷ a, b)
    prepend none = if c == 45 then some ([], cs) else none

-- The value of a digit's code.
abbrev digit_of : ℕ → Option ℕ
digit_of c = if leb 48 c && leb c 57 then some (c - 48) else none

-- The digits of `str::parse::<u64>`, behind the value `n`.
unfoldable pub parse_digits : ℕ → Text → Option ℕ
parse_digits n [] = some n
parse_digits n (c ∷ cs) = do
  d ← digit_of c
  let rest = parse_digits (n * 10 + d) cs
  if leb u64_mod (n * 10 + d) then none else rest

-- `str::parse::<u64>`, which takes a plus sign.
unfoldable pub parse_number : Text → Option ℕ
parse_number [] = none
parse_number (c ∷ []) = parse_digits 0 (c ∷ [])
parse_number (c ∷ (d ∷ cs)) =
    if c == 43 then parse_digits 0 (d ∷ cs) else parse_digits 0 (c ∷ (d ∷ cs))

-- The block and the index that a link names.
unfoldable pub link_of : Option Text → Option (ℕ × ℕ)
link_of prev = do
  s ← prev
  (b, i) ← rsplit_dash s
  block ← parse_number b
  index ← parse_number i
  some (block, index)

-- Whether a link, where there is one, differs from what is wanted.
abbrev is_broken : (ℕ → ℕ → Bool) → Option (ℕ × ℕ) → Bool
is_broken wanted none = false
is_broken wanted (some (pb, pi)) = not (wanted pb pi)

unfoldable pub sequence_gap : ℕ → ℕ → Option Text → ℕ → ℕ → Bool
sequence_gap block index prev_frame_id last_block last_index =
    let link = link_of prev_frame_id in
    if block == last_block
    then (if leb index last_index
        then false
        else (if not (index == (last_index + 1) % u64_mod)
            then true
            else is_broken (λ pb pi. (pb == block) && ((pi + 1) % u64_mod == index)) link))
    else if block == (last_block + 1) % u64_mod
    then (if not (index == 0)
        then true
        else is_broken (λ pb pi. (pb == last_block) && (pi == last_index)) link)
    else ltb ((last_block + 1) % u64_mod) block || ltb block last_block
