-- ===== src/RuntimeRisk/Patches.antt =====
-- `RuntimeRisk::apply` of bot/crates/mev-bot/src/risk.rs as a whole.
use arrow_head.Prelude.{
  ℕ, ◌≡◌, refl, ◌∙◌, ◌⊎◌, Bool, true, false, Option, none, some, List, [], ◌∷◌, arith,
}
use arrow_head.Prelude.Results.{Result, ok, err, >>=-eq-ok}
use arrow_head.Types.{Strategy, as_str}
use arrow_head.RuntimeRisk.{
  RiskConfig, StrategyToggles, RuntimeRisk, RiskPatch, PatchError, toggle, enabled, wanted_toggles,
  patch_limits, apply, validated, commit, new,
}
use arrow_head.RuntimeRisk.Toggles.{
  IsNarrow, apply_toggles-IsNarrow, entry, Distinct, or_else, toggle-apply_toggles,
}
use arrow_head.RuntimeRisk.Limits.{IsInRange, IsPatched, patch_limits-ok}
use Prim.Native.String.{String}

pub record IsValid (r : RuntimeRisk) : Type 0 where
  pub limits : IsInRange r.risk
  pub narrow : IsNarrow r.boot r.strategies

wanted_toggles-IsNarrow :
    (o : Option (List (String × Bool))) (boot t t' : StrategyToggles)
    → IsNarrow boot t
    → wanted_toggles o boot t ≡ ok t'
    → IsNarrow boot t'
unfolding wanted_toggles
wanted_toggles-IsNarrow none boot t t' h e = let same : t ≡ t' = cc in rw same at h
wanted_toggles-IsNarrow (some m) boot t t' h e = apply_toggles-IsNarrow boot m t t' h e

-- What a patch's map, where it has one, says of a name.
abbrev pub listed : String → Option (List (String × Bool)) → Option Bool
listed k none = none
listed k (some m) = entry k m

-- The map of a patch has no name twice.
abbrev pub HasMap : Option (List (String × Bool)) → Type 0
HasMap none = Unit {0}
HasMap (some m) = Distinct m

toggle-wanted_toggles :
    (o : Option (List (String × Bool))) (boot t t' : StrategyToggles) (s : Strategy)
    → HasMap o
    → wanted_toggles o boot t ≡ ok t'
    → toggle t' s ≡ or_else (listed (as_str s) o) (toggle t s)
unfolding wanted_toggles
toggle-wanted_toggles none boot t t' s d e = let same : t ≡ t' = cc in rw same refl
toggle-wanted_toggles (some m) boot t t' s d e = toggle-apply_toggles boot m t t' s d e

-- What one call of `apply` has done, by its answer.
abbrev pub Applies :
    (String → Option ℕ)
    → RiskPatch
    → RuntimeRisk
    → Result PatchError (Unit {0}) × RuntimeRisk
    → Type 0
Applies parse p r (err e, r') = r' ≡ r
Applies parse p r (ok _, r') =
    IsPatched parse p r.risk r'.risk
    × ((s : Strategy)
        → toggle r'.strategies s ≡ or_else (listed (as_str s) p.strategies) (toggle r.strategies s))
    × (r'.boot ≡ r.boot)

validated-ok :
    (parse : String → Option ℕ) (r : RuntimeRisk) (p : RiskPatch) (risk : RiskConfig)
    (t : StrategyToggles)
    → validated parse r p ≡ ok (risk, t)
    → (patch_limits parse p r.risk ≡ ok risk)
      × (wanted_toggles p.strategies r.boot r.strategies ≡ ok t)
unfolding validated
validated-ok parse r p risk t e =
    let (risk', q, k) = >>=-eq-ok (patch_limits parse p r.risk) _ (risk, t) e in
    let (t', q', done) =
      >>=-eq-ok (wanted_toggles p.strategies r.boot r.strategies) _ (risk, t) k in
    (cc (q, done), cc (q', done))

commit-Applies :
    (parse : String → Option ℕ) (r : RuntimeRisk) (p : RiskPatch)
    (checked : Result PatchError (RiskConfig × StrategyToggles))
    → HasMap p.strategies
    → validated parse r p ≡ checked
    → Applies parse p r (commit r checked)
commit-Applies parse r p (err e) d q = refl
commit-Applies parse r p (ok (risk, t)) d q =
    let (limits, toggles) = validated-ok parse r p risk t q in
    (
      (patch_limits-ok parse p r.risk risk limits).0,
      λ s. toggle-wanted_toggles p.strategies r.boot r.strategies t s d toggles,
      refl,
    )

-- A patch is applied as a whole or not at all: when it is refused the state is the one before, and
-- when it is accepted every limit that it lists holds the listed value, every other limit its old
-- one, the toggle of each strategy is the entry of its name in the map, or as before without an
-- entry, and the boot toggles are untouched. The map has no name twice.
pub apply-Applies :
    (parse : String → Option ℕ) (r : RuntimeRisk) (p : RiskPatch)
    → HasMap p.strategies
    → Applies parse p r (apply parse r p)
unfolding apply
apply-Applies parse r p d = commit-Applies parse r p (validated parse r p) d refl

commit-IsValid :
    (parse : String → Option ℕ) (r : RuntimeRisk) (p : RiskPatch)
    (checked : Result PatchError (RiskConfig × StrategyToggles))
    → validated parse r p ≡ checked
    → IsValid r
    → IsValid (commit r checked).1
commit-IsValid parse r p (err e) q v = v
commit-IsValid parse r p (ok (risk, t)) q v =
    let (limits, toggles) = validated-ok parse r p risk t q in
    record {
      limits = (patch_limits-ok parse p r.risk risk limits).1 v.limits;
      narrow = wanted_toggles-IsNarrow p.strategies r.boot r.strategies t v.narrow toggles;
    }

-- No patch, accepted or refused, takes a limit out of its range or turns on a strategy that was
-- off at boot.
pub apply-IsValid :
    (parse : String → Option ℕ) (r : RuntimeRisk) (p : RiskPatch)
    → IsValid r
    → IsValid (apply parse r p).1
unfolding apply
apply-IsValid parse r p v = commit-IsValid parse r p (validated parse r p) refl v

-- The patches of a session, each applied to what the one before has left.
unfoldable pub apply_each : (String → Option ℕ) → RuntimeRisk → List RiskPatch → RuntimeRisk
apply_each parse r [] = r
apply_each parse r (p ∷ ps) = apply_each parse (apply parse r p).1 ps

apply_each-IsValid :
    (parse : String → Option ℕ) (ps : List RiskPatch) (r : RuntimeRisk)
    → IsValid r
    → IsValid (apply_each parse r ps)
unfolding apply_each
apply_each-IsValid parse [] r v = v
apply_each-IsValid parse (p ∷ ps) r v =
    apply_each-IsValid parse ps (apply parse r p).1 (apply-IsValid parse r p v)

apply-boot :
    (parse : String → Option ℕ) (r : RuntimeRisk) (p : RiskPatch)
    → (apply parse r p).1.boot ≡ r.boot
unfolding apply
apply-boot parse r p = kept (validated parse r p)
  where
    kept : (c : Result PatchError (RiskConfig × StrategyToggles)) → (commit r c).1.boot ≡ r.boot
    kept (err e) = refl
    kept (ok (risk, t)) = refl

apply_each-boot :
    (parse : String → Option ℕ) (ps : List RiskPatch) (r : RuntimeRisk)
    → (apply_each parse r ps).boot ≡ r.boot
unfolding apply_each
apply_each-boot parse [] r = refl
apply_each-boot parse (p ∷ ps) r =
    apply_each-boot parse ps (apply parse r p).1 ∙ apply-boot parse r p

-- From limits in range, after any patches of the boot values, the runtime toggle of a strategy is
-- on exactly when the strategy is enabled, and a strategy that was off at boot is disabled.
pub enabled-apply_each :
    (parse : String → Option ℕ) (risk : RiskConfig) (boot : StrategyToggles) (ps : List RiskPatch)
    (s : Strategy)
    → IsInRange risk
    → let r = apply_each parse (new risk boot) ps in
      (enabled r s ≡ toggle r.strategies s) × ((enabled r s ≡ false) ⊎ (toggle boot s ≡ true))
unfolding enabled new
enabled-apply_each parse risk boot ps s range =
    let v =
      apply_each-IsValid parse ps (new risk boot) (record { limits = range; narrow = λ s h. h }) in
    let same = apply_each-boot parse ps (new risk boot) in
    narrowed (apply_each parse (new risk boot) ps) v.narrow same
  where
    narrowed :
        (r : RuntimeRisk)
        → IsNarrow r.boot r.strategies
        → r.boot ≡ boot
        → (enabled r s ≡ toggle r.strategies s) × ((enabled r s ≡ false) ⊎ (toggle boot s ≡ true))
    narrowed r narrow same = rw (← same) (ground (arith, narrow s))
