-- ===== src/Intelligence/Confidence.antt =====
-- The confidence engine, aimos/intelligence/confidence.py, and the final labels,
-- aimos/intelligence/finalize.py. An empty distribution and an unknown label raise, which is `none`.
use aimos.Prelude.{ℕ, String, Option, none, some, [], ◌∷◌, ◌==◌, str_eq, if◌then◌else◌}
use aimos.Prelude.Floats.{Floats, ◌⊖◌, ◌⊗◌, ◌⊘◌, ◌<?◌, nat, clamp01}
use aimos.Schemas.{
  Regime, trending_up, trending_down, ranging, breakout, crash, recovery, Behavior, accumulation,
  distribution, continuation, manipulation, capitulation, panic, euphoria, unclear,
}
use aimos.Intelligence.{Dist}

-- `Regime(label)` and `Behavior(label)`
unfoldable pub regime_named : String → Option Regime
regime_named label =
    if str_eq label "trending_up"
    then some trending_up
    else if str_eq label "trending_down"
    then some trending_down
    else if str_eq label "ranging"
    then some ranging
    else if str_eq label "breakout"
    then some breakout
    else if str_eq label "crash"
    then some crash
    else if str_eq label "recovery"
    then some recovery
    else none

unfoldable pub behavior_named : String → Option Behavior
behavior_named label =
    if str_eq label "accumulation"
    then some accumulation
    else if str_eq label "distribution"
    then some distribution
    else if str_eq label "continuation"
    then some continuation
    else if str_eq label "manipulation"
    then some manipulation
    else if str_eq label "capitulation"
    then some capitulation
    else if str_eq label "panic"
    then some panic
    else if str_eq label "euphoria"
    then some euphoria
    else if str_eq label "unclear"
    then some unclear
    else none

module _ {F : Type 0} ⦃fl : Floats F⦄ where
  unfoldable pub evidence_coverage : ℕ → ℕ → F
  evidence_coverage reporting coverage =
      if coverage == 0 then nat 0 else clamp01 (nat reporting ⊘ nat coverage)

  unfoldable pub compute_confidence : F → F → F → F → F
  compute_confidence disagreement coverage regime_certainty penalty_mult =
      clamp01 ((((nat 1 ⊖ disagreement) ⊗ coverage) ⊗ regime_certainty) ⊗ penalty_mult)

  -- `max(dist, key=...)` keeps the first of equal ones.
  abbrev pub higher : String × F → String × F → String × F
  higher best x = if best.1 <? x.1 then x else best

  abbrev pub highest_from : String × F → Dist F → String × F
  highest_from best [] = best
  highest_from best (x ∷ xs) = highest_from (higher best x) xs

  -- `_argmax`
  unfoldable pub argmax : Dist F → Option (String × F)
  argmax [] = none
  argmax (x ∷ xs) = some (highest_from x xs)

  abbrev with_prob : {L : Type 0} → F → Option L → Option (L × F)
  with_prob prob none = none
  with_prob prob (some l) = some (l, prob)

  abbrev pub labelled : {L : Type 0} → (String → Option L) → Option (String × F) → Option (L × F)
  labelled named none = none
  labelled named (some x) = with_prob x.1 (named x.0)

  unfoldable pub finalize_regime : Dist F → Option (Regime × F)
  unfolding argmax regime_named
  finalize_regime probs = labelled regime_named (argmax probs)

  unfoldable pub finalize_behavior : Dist F → Option (Behavior × F)
  unfolding argmax behavior_named
  finalize_behavior probs = labelled behavior_named (argmax probs)
