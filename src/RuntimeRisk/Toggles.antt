-- ===== src/RuntimeRisk/Toggles.antt =====
-- The loop over the wanted toggles in `RuntimeRisk::apply` of bot/crates/mev-bot/src/risk.rs.
use arrow_head.Prelude.{
  ◌≡◌, refl, sym, ap, ◌∙◌, Bool, true, false, Option, none, some, List, [], ◌∷◌, arith, ◌&&◌, not,
  if◌then◌else◌, Bool-cases, Option-cases, inl, inr,
}
use arrow_head.Prelude.Results.{ok}
use arrow_head.Types.{Strategy, as_str, all, strategy_eq}
use arrow_head.RuntimeRisk.{StrategyToggles, toggle, set_toggle, find_strategy, apply_toggles}
use Prim.Native.String.{String}
use text.Mathlib.Text.{◌==◌ as str_eq}
use text.Mathlib.TextEquality.{eq_iff}

pub toggle-set_toggle :
    (t : StrategyToggles) (s s' : Strategy) (on : Bool)
    → toggle (set_toggle t s on) s' ≡ (if strategy_eq s s' then on else toggle t s')
unfolding toggle set_toggle
toggle-set_toggle t Strategy.sandwich s' on = ground arith
toggle-set_toggle t _ s' on = ground arith

find_strategy-as_str : (s : Strategy) → find_strategy (as_str s) all ≡ some s
unfolding find_strategy
find_strategy-as_str Strategy.sandwich = refl
find_strategy-as_str _ = refl

strategy_eq→eq : (s s' : Strategy) → strategy_eq s s' ≡ true → s ≡ s'
strategy_eq→eq Strategy.sandwich s' e = ground arith
strategy_eq→eq _ s' e = ground arith

strategy_eq_refl : (s : Strategy) → strategy_eq s s ≡ true
strategy_eq_refl Strategy.sandwich = refl
strategy_eq_refl _ = refl

-- A name that is found is the found strategy's own.
find_strategy-some :
    (name : String) (ss : List Strategy) (s : Strategy)
    → find_strategy name ss ≡ some s
    → as_str s ≡ name
unfolding find_strategy
find_strategy-some name [] s e = cc
find_strategy-some name (x ∷ ss) s e =
    ground (arith, eq_iff (as_str x) name, find_strategy-some name ss s)

-- The entry of a name in a map.
abbrev pub entry : String → List (String × Bool) → Option Bool
entry k [] = none
entry k ((j, on) ∷ m) = if str_eq j k then some on else entry k m

-- No name has two entries, as in a HashMap.
abbrev pub Distinct : List (String × Bool) → Type 0
Distinct [] = Unit {0}
Distinct ((k, on) ∷ m) = (entry k m ≡ none) × Distinct m

abbrev pub or_else : Option Bool → Bool → Bool
or_else none b = b
or_else (some a) b = a

-- One round of the loop: what a successful first entry has named and switched.
apply_toggles-inversion :
    (boot : StrategyToggles) (name : String) (on : Bool) (rest : List (String × Bool))
    (t t' : StrategyToggles)
    → apply_toggles boot ((name, on) ∷ rest) t ≡ ok t'
    → (s : Strategy) × (find_strategy name all ≡ some s)
      × ((on && not (toggle boot s)) ≡ false)
      × (apply_toggles boot rest (set_toggle t s on) ≡ ok t')
unfolding apply_toggles
apply_toggles-inversion boot name on rest t t' e = elim (Option-cases (find_strategy name all)) [
  | inl unknown ↦ cc (rw unknown at e)
  | inr (s, found) ↦
      let e' = rw found at e in
      elim (Bool-cases (on && not (toggle boot s))) [
        | inl refused ↦ cc (rw refused at e')
        | inr passed ↦ (s, found, passed, rw passed at e')
      ]
]

apply_toggles-nil : (boot t t' : StrategyToggles) → apply_toggles boot [] t ≡ ok t' → t ≡ t'
unfolding apply_toggles
apply_toggles-nil boot t t' e = cc

-- A name that is not the strategy's own stands for another strategy.
strategy_eq_of_name :
    (name : String) (s s' : Strategy)
    → find_strategy name all ≡ some s'
    → str_eq name (as_str s) ≡ strategy_eq s' s
strategy_eq_of_name name s s' found = elim (Bool-cases (strategy_eq s' s)) [
  | inl same ↦
      let e : s' ≡ s = strategy_eq→eq s' s same in
      let named : as_str s ≡ name = rw e at (find_strategy-some name all s' found) in
      rw (same, (eq_iff name (as_str s)).1 (sym named))
  | inr other ↦ elim (Bool-cases (str_eq name (as_str s))) [
    | inl hit ↦
        let e : name ≡ as_str s = (eq_iff name (as_str s)).0 hit in
        let found' : find_strategy (as_str s) all ≡ some s' = rw e at found in
        let e' : s' ≡ s = cc (found', find_strategy-as_str s) in
        let same : strategy_eq s s ≡ false = rw e' at other in cc (same, strategy_eq_refl s)
    | inr miss ↦ rw (other, miss)
  ]
]

-- The switch of one entry, read at the strategy `s`.
entry_switch :
    (name : String) (on b : Bool) (m : List (String × Bool)) (s s' : Strategy)
    → find_strategy name all ≡ some s'
    → entry name m ≡ none
    → or_else (entry (as_str s) m) (if strategy_eq s' s then on else b)
      ≡ or_else (entry (as_str s) ((name, on) ∷ m)) b
entry_switch name on b m s s' found fresh = elim (Bool-cases (strategy_eq s' s)) [
  | inl same ↦
      let hit : str_eq name (as_str s) ≡ true = strategy_eq_of_name name s s' found ∙ same in
      let e : name ≡ as_str s = (eq_iff name (as_str s)).0 hit in
      let none_left : entry (as_str s) m ≡ none = rw e at fresh in rw (same, hit, none_left)
  | inr other ↦ rw (other, strategy_eq_of_name name s s' found ∙ other)
]

-- When a map of wanted toggles is accepted, each strategy ends at the value of its own entry, or
-- keeps its toggle when it has none. So the order in which the HashMap is walked does not matter.
pub toggle-apply_toggles :
    (boot : StrategyToggles) (m : List (String × Bool)) (t t' : StrategyToggles) (s : Strategy)
    → Distinct m
    → apply_toggles boot m t ≡ ok t'
    → toggle t' s ≡ or_else (entry (as_str s) m) (toggle t s)
toggle-apply_toggles boot [] t t' s d e = ap (λ u. toggle u s) (sym (apply_toggles-nil boot t t' e))
toggle-apply_toggles boot ((name, on) ∷ m) t t' s d e =
    let (s', found, passed, next) = apply_toggles-inversion boot name on m t t' e in
    toggle-apply_toggles boot m (set_toggle t s' on) t' s d.1 next
    ∙ ap (or_else (entry (as_str s) m)) (toggle-set_toggle t s' s on)
    ∙ entry_switch name on (toggle t s) m s s' found d.0

-- No toggle is on that was off at boot.
abbrev pub IsNarrow : StrategyToggles → StrategyToggles → Type 0
IsNarrow boot t = (s : Strategy) → toggle t s ≡ true → toggle boot s ≡ true

pub apply_toggles-IsNarrow :
    (boot : StrategyToggles) (m : List (String × Bool)) (t t' : StrategyToggles)
    → IsNarrow boot t
    → apply_toggles boot m t ≡ ok t'
    → IsNarrow boot t'
apply_toggles-IsNarrow boot [] t t' h e = rw (apply_toggles-nil boot t t' e) at h
apply_toggles-IsNarrow boot ((name, on) ∷ m) t t' h e =
    let (s', found, passed, next) = apply_toggles-inversion boot name on m t t' e in
    apply_toggles-IsNarrow boot m (set_toggle t s' on) t' (narrow s' passed) next
  where
    narrow :
        (s' : Strategy) → (on && not (toggle boot s')) ≡ false → IsNarrow boot (set_toggle t s' on)
    narrow s' passed s on_now = elim (Bool-cases (strategy_eq s' s)) [
      | inl same ↦
          let e : s' ≡ s = strategy_eq→eq s' s same in
          ground (arith, toggle-set_toggle t s' s on, e)
      | inr other ↦ ground (arith, toggle-set_toggle t s' s on, h s)
    ]
