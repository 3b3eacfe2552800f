-- ===== src/Intelligence.antt =====
-- The intelligence layer's shared helpers, aimos/intelligence/base.py, and the evidence that it reads,
-- Evidence of aimos/core/schemas.py with the entries of `meta` that this layer reads.
pub mod Rules
pub mod Fusion
pub mod Confidence
pub mod Scores
pub mod Understand
pub mod Bounds
mod Tests
use aimos.Prelude.{
  ℕ, String, Bool, true, false, not, Option, none, some, List, [], ◌∷◌, keep, any_of, str_eq,
  or_else, if◌then◌else◌,
}
use aimos.Prelude.Dict.{Dict, lookup, insert}
use aimos.Prelude.Int.{ℤ, pos, negsuc}
use aimos.Prelude.Floats.{Floats, ◌⊕◌, ◌⊗◌, nat}
use aimos.Schemas.{Direction, bullish, bearish, neutral}

pub record Evidence (F : Type 0) : Type 0 where
  pub source : String
  pub timeframe : String
  pub name : String
  pub value : F
  pub direction : Direction
  pub strength : F
  pub reliability : F
  pub spoof_suspect : Bool
  pub bar_direction : Option String

-- A distribution: the probability of each label.
abbrev pub Dist : Type 0 → Type 0
Dist F = Dict F

pub record EngineOpinion (F : Type 0) : Type 0 where
  pub engine : String
  pub p_up : F
  pub regime_probs : Dist F
  pub behavior_probs : Dist F
  pub confidence : F

abbrev pub is_neutral : Direction → Bool
is_neutral neutral = true
is_neutral _ = false

abbrev pub sign : Direction → ℤ
sign bullish = pos 1
sign bearish = negsuc 0
sign neutral = pos 0

module _ {F : Type 0} where
  unfoldable pub has_name : List (Evidence F) → String → Bool
  has_name evidences name = any_of (λ e. str_eq e.name name) evidences

  unfoldable pub first_named : List (Evidence F) → String → Option (Evidence F)
  first_named [] name = none
  first_named (e ∷ es) name =
      let rest = first_named es name in if str_eq e.name name then some e else rest

  abbrev pub named : List (Evidence F) → String → List (Evidence F)
  named evidences name = keep (λ e. str_eq e.name name) evidences

  abbrev pub directional : List (Evidence F) → List (Evidence F)
  directional evidences = keep (λ e. not (is_neutral e.direction)) evidences

  module _ ⦃fl : Floats F⦄ where
    abbrev pub tf_multiplier : String → Dict F → F
    tf_multiplier timeframe tf_weights = or_else (lookup timeframe tf_weights) (nat 1)

    unfoldable pub effective_reliability : Evidence F → Dict F → F
    effective_reliability e tf_weights = e.reliability ⊗ tf_multiplier e.timeframe tf_weights

    -- `sum(d.values())`, with the sum so far
    abbrev pub sum_values : F → Dict F → F
    sum_values total [] = total
    sum_values total ((_, v) ∷ d) = sum_values (total ⊕ v) d
