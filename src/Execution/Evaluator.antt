-- ===== src/Execution/Evaluator.antt =====
-- The strategy evaluator: aimos/execution/evaluator.py. A candidate that it changes is the same plan
-- with another score or more reasons.
use aimos.Prelude.{
  Bool, false, not, ◌||◌, Option, none, some, List, [], ◌∷◌, ◌++◌, or_else, if◌then◌else◌,
}
use aimos.Prelude.Floats.{Floats, ◌⊕◌, ◌⊖◌, ◌⊗◌, ◌⊘◌, ◌<?◌, ◌≤?◌, nat, truthy, clamp01}
use aimos.Schemas.{
  is_no_trade, Reason, no_stop_geometry, costs_exceed, ev_dropped, no_positive_candidate, TradePlan,
  MarketUnderstanding,
}
use aimos.Execution.Risk.{no_trade_plan}

-- The values of the `execution` configuration that the evaluator reads.
pub record EvaluatorCfg (F : Type 0) : Type 0 where
  pub weight_ev : F
  pub weight_confidence : F
  pub weight_opportunity : F
  pub weight_risk : F
  pub no_trade_baseline : F
  pub min_trade_score : F
  pub cap_r : F
  pub max_cost_fraction : F
  pub losing_r : F

module _ {F : Type 0} ⦃fl : Floats F⦄ where
  unfoldable pub risk_bps : TradePlan F → F
  risk_bps plan = elim plan.entry [
    | none ↦ nat 0
    | some entry ↦ elim plan.stop_loss [
      | none ↦ nat 0
      | some stop ↦
          if not (truthy entry) then nat 0 else (fl.abs (entry ⊖ stop) ⊘ entry) ⊗ nat 10000
    ]
  ]

  abbrev pub ev_normalized : F → F → F
  ev_normalized ev cap_r = if cap_r ≤? nat 0 then nat 0 else clamp01 (ev ⊘ cap_r)

  unfoldable pub expected_value : TradePlan F → F → F
  expected_value plan losing_r =
      let rr = or_else plan.expected_rr (nat 0) in
      let rb = risk_bps plan in
      let cost_r = if nat 0 <? rb then plan.expected_costs_bps ⊘ rb else nat 0 in
      ((plan.confidence ⊗ rr) ⊖ ((nat 1 ⊖ plan.confidence) ⊗ losing_r)) ⊖ cost_r

  -- `_cost_fraction_exceeded`
  unfoldable pub cost_fraction_exceeded : EvaluatorCfg F → TradePlan F → Bool
  cost_fraction_exceeded cfg plan =
      let gross = or_else plan.expected_rr (nat 0) ⊗ risk_bps plan in
      if gross ≤? nat 0 then false else (cfg.max_cost_fraction ⊗ gross) <? plan.expected_costs_bps

  -- `_score`
  unfoldable pub score_of : EvaluatorCfg F → TradePlan F → MarketUnderstanding F → F → F
  score_of cfg c mu ev =
      (((cfg.weight_ev ⊗ ev_normalized ev cfg.cap_r) ⊕ (cfg.weight_confidence ⊗ c.confidence))
        ⊕ ((cfg.weight_opportunity ⊗ mu.opportunity_score) ⊘ nat 100))
      ⊕ (cfg.weight_risk ⊗ (nat 1 ⊖ (mu.risk_score ⊘ nat 100)))

  -- Why a directional candidate is dropped, if it is.
  unfoldable pub drop_reason : EvaluatorCfg F → TradePlan F → Option (Reason F)
  drop_reason cfg c =
      let ev = expected_value c cfg.losing_r in
      if risk_bps c ≤? nat 0
      then some no_stop_geometry
      else if cost_fraction_exceeded cfg c
      then some costs_exceed
      else if not (fl.is_finite ev) || (ev ≤? nat 0)
      then some (ev_dropped ev)
      else none

  abbrev pub scored_as : EvaluatorCfg F → MarketUnderstanding F → TradePlan F → TradePlan F
  scored_as cfg mu c = record c { score = score_of cfg c mu (expected_value c cfg.losing_r) }

  abbrev pub baseline : EvaluatorCfg F → TradePlan F → TradePlan F
  baseline cfg c = record c { score = cfg.no_trade_baseline }

  -- The loop: the plans that stay, and the last one that trades nothing.
  unfoldable pub score_all :
      EvaluatorCfg F
      → MarketUnderstanding F
      → List (TradePlan F)
      → List (TradePlan F)
      → Option (TradePlan F)
      → List (TradePlan F) × Option (TradePlan F)
  score_all cfg mu [] scored idle = (scored, idle)
  score_all cfg mu (c ∷ cs) scored idle =
      let as_idle = score_all cfg mu cs (scored ++ baseline cfg c ∷ []) (some (baseline cfg c)) in
      let dropped = score_all cfg mu cs scored idle in
      let kept = score_all cfg mu cs (scored ++ scored_as cfg mu c ∷ []) idle in
      if is_no_trade c.action
      then as_idle
      else elim (drop_reason cfg c) [ some _ ↦ dropped | none ↦ kept ]

  -- `max(scored, key=lambda c: c.score)` keeps the first of equal ones.
  abbrev pub best_from : TradePlan F → List (TradePlan F) → TradePlan F
  best_from best [] = best
  best_from best (c ∷ cs) = best_from (if best.score <? c.score then c else best) cs

  -- `_synthetic_no_trade`
  abbrev pub synthetic_no_trade : EvaluatorCfg F → MarketUnderstanding F → TradePlan F
  synthetic_no_trade cfg mu =
      baseline cfg (no_trade_plan "RiskOff" mu.symbol (no_positive_candidate ∷ []))

  unfoldable pub pick :
      EvaluatorCfg F
      → MarketUnderstanding F
      → List (TradePlan F) × Option (TradePlan F)
      → TradePlan F
  pick cfg mu ([], idle) = or_else idle (synthetic_no_trade cfg mu)
  pick cfg mu (c ∷ cs, idle) =
      let best = best_from c cs in
      if is_no_trade best.action
      then best
      else if best.score <? cfg.min_trade_score
      then or_else idle (synthetic_no_trade cfg mu)
      else best

  unfoldable pub evaluate :
      EvaluatorCfg F → List (TradePlan F) → MarketUnderstanding F → TradePlan F
  unfolding pick score_all
  evaluate cfg candidates mu = pick cfg mu (score_all cfg mu candidates [] none)
