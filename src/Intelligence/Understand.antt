-- ===== src/Intelligence/Understand.antt =====
-- From evidence to understanding: IntelligenceLayer.understand of aimos/intelligence/understand.py. The
-- opinions of the Bayesian engine, which is numpy, and of the trained model are arguments, as functions
-- of what they are given; so are the merged key levels. The reasons are left out.
use aimos.Prelude.{
  ℕ, String, Bool, not, ◌&&◌, Option, none, some, List, [], ◌∷◌, or_else, if◌then◌else◌,
}
use aimos.Prelude.Floats.{Floats, ◌⊗◌, ◌⊘◌, ◌<?◌, nat}
use aimos.Schemas.{Regime, KeyLevels, MarketUnderstanding, Behavior}
use aimos.Intelligence.{Evidence, EngineOpinion, first_named}
use aimos.Intelligence.Rules.{RuleCfg, rule_opine}
use aimos.Intelligence.Fusion.{FusionCfg, FusionResult, fuse}
use aimos.Intelligence.Confidence.{
  evidence_coverage, compute_confidence, finalize_regime, finalize_behavior,
}
use aimos.Intelligence.Scores.{
  ScoreContext, ScoreWeights, ScoresCfg, coin_health, risk_score, opportunity,
}

pub record IntelligenceLayer (F : Type 0) : Type 0 where
  pub rule : RuleCfg F
  pub fusion : FusionCfg F
  pub weights : ScoreWeights F
  pub scores : ScoresCfg F
  pub coverage_engines : ℕ
  pub bayes_opine : List (Evidence F) → EngineOpinion F
  pub ml_opine : List (Evidence F) → Option Regime → F → EngineOpinion F

module _ {F : Type 0} ⦃fl : Floats F⦄ where
  -- `_trend_strength`
  abbrev trend_strength : List (Evidence F) → F
  trend_strength evidences = elim (first_named evidences "structure_trend") [
    | none ↦ nat 0
    | some e ↦ e.strength
  ]

  abbrev atr_pct_of : KeyLevels F → F
  atr_pct_of kl =
      let atr = or_else kl.atr (nat 0) in
      let price = or_else kl.price (nat 0) in
      if nat 0 <? price then (atr ⊘ price) ⊗ nat 100 else nat 0

  -- The three opinions and what they are fused to.
  unfoldable pub fused_of : IntelligenceLayer F → List (Evidence F) → KeyLevels F → FusionResult F
  fused_of layer evidences kl =
      let rule = rule_opine layer.rule evidences in
      let rule_regime : Option Regime = elim (finalize_regime rule.regime_probs) [
        | none ↦ none
        | some x ↦ some x.0
      ] in
      fuse layer.fusion
        (rule
          ∷ layer.bayes_opine evidences
          ∷ layer.ml_opine evidences rule_regime (atr_pct_of kl)
          ∷ [])
        evidences

  -- With the labels found.
  unfoldable pub understanding :
      IntelligenceLayer F
      → String
      → List (Evidence F)
      → KeyLevels F
      → ScoreContext F
      → F
      → FusionResult F
      → Regime × F
      → Behavior
      → MarketUnderstanding F
  understanding layer symbol evidences kl ctx coverage fused (regime, certainty) behavior =
      let confidence =
        compute_confidence fused.disagreement coverage certainty fused.penalty_mult in
      let health =
        coin_health evidences fused.behavior_probs (trend_strength evidences) layer.weights
          layer.scores ctx in
      record {
        symbol = symbol;
        regime = regime;
        behavior = behavior;
        behavior_probs = fused.behavior_probs;
        direction_bias = fused.direction_bias;
        p_up = fused.p_up;
        confidence = confidence;
        opportunity_score =
            opportunity fused.p_up confidence fused.direction_bias regime health layer.weights
              layer.scores ctx;
        risk_score = risk_score evidences regime layer.weights layer.scores ctx;
        coin_health = health;
        regime_probs = fused.regime_probs;
        key_levels = kl;
      }

  -- The bounds `ge` and `le` of a field of MarketUnderstanding
  abbrev pub is_within : F → F → F → Bool
  is_within lo hi x = not (x <? lo) && not (hi <? x)

  abbrev pub all_within : MarketUnderstanding F → Bool
  all_within mu =
      is_within (nat 0) (nat 1) mu.p_up
      && (is_within (nat 0) (nat 1) mu.confidence
          && (is_within (nat 0) (nat 100) mu.coin_health
              && (is_within (nat 0) (nat 100) mu.opportunity_score
                  && is_within (nat 0) (nat 100) mu.risk_score)))

  -- The validation of the bounded fields when the model is made; `none` is the ValidationError.
  unfoldable pub validated : MarketUnderstanding F → Option (MarketUnderstanding F)
  validated mu = if all_within mu then some mu else none

  -- `understand`; `none` is the ValueError of the labels or the ValidationError.
  unfoldable pub understand :
      IntelligenceLayer F
      → String
      → List (Evidence F)
      → KeyLevels F
      → ℕ
      → Option (ScoreContext F)
      → Option ℕ
      → Option (MarketUnderstanding F)
  unfolding understanding validated
  understand layer symbol evidences kl reporting score_ctx coverage_engines =
      let fused = fused_of layer evidences kl in
      let ctx = or_else score_ctx (record {
        exchange = none;
        liquidity_percentile = none;
        volume_percentile = none;
        atr_percentile = none;
        portfolio_component = none;
        nearest_opposing_distance_atr = none;
      }) in
      let coverage =
        evidence_coverage reporting (or_else coverage_engines layer.coverage_engines) in
      elim (finalize_regime fused.regime_probs) [
        | none ↦ none
        | some regime ↦ elim (finalize_behavior fused.behavior_probs) [
          | none ↦ none
          | some behavior ↦
              validated
                (understanding layer symbol evidences kl ctx coverage fused regime behavior.0)
        ]
      ]
