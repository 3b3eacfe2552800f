-- ===== src/Execution/Plugins/Range.antt =====
-- Breakout and MeanReversion: aimos/execution/plugins/breakout.py and mean_reversion.py.
use aimos.Prelude.{◌||◌, Option, none, some, [], ◌∷◌, if◌then◌else◌}
use aimos.Prelude.Floats.{Floats, ◌⊕◌, ◌⊖◌, ◌⊗◌, ◌⊘◌, ◌≤?◌, nat}
use aimos.Schemas.{
  Action, long, short, bullish, bearish, neutral, breakout_at, range_fade, TradePlan,
  MarketUnderstanding, ExecContext,
}
use aimos.Execution.Plugins.{estimate_costs_bps, regime_prob, max_from, min_from, proposal}

pub record BreakoutCfg (F : Type 0) : Type 0 where
  pub min_confidence : F
  pub min_coin_health : F
  pub entry_atr_beyond : F

pub record MeanReversionCfg (F : Type 0) : Type 0 where
  pub min_confidence : F
  pub min_coin_health : F
  pub sl_atr_beyond : F

module _ {F : Type 0} ⦃fl : Floats F⦄ where
  unfoldable pub breakout_plan :
      MarketUnderstanding F → ExecContext F → Action → F → F → F → F → Option (TradePlan F)
  breakout_plan mu ctx action entry stop tp height =
      let risk = fl.abs (entry ⊖ stop) in
      if risk ≤? nat 0
      then none
      else some (
          proposal "Breakout" mu action entry stop tp (fl.abs (tp ⊖ entry) ⊘ risk)
            (estimate_costs_bps ctx) (mu.confidence ⊗ regime_prob mu)
            (breakout_at action entry height))

  -- With the range between the support and the resistance.
  unfoldable pub breakout_of :
      BreakoutCfg F → MarketUnderstanding F → ExecContext F → F → F → F → Option (TradePlan F)
  breakout_of cfg mu ctx atr resistance support =
      let mid_range = (resistance ⊕ support) ⊘ nat 2 in
      let height = resistance ⊖ support in
      let beyond = cfg.entry_atr_beyond ⊗ atr in
      let above = resistance ⊕ beyond in
      let below = support ⊖ beyond in
      if height ≤? nat 0 then none else elim mu.direction_bias [
        | bullish ↦ breakout_plan mu ctx long above mid_range (above ⊕ height) height
        | bearish ↦ breakout_plan mu ctx short below mid_range (below ⊖ height) height
        | neutral ↦ none
      ]

  unfoldable pub breakout_trade :
      BreakoutCfg F → MarketUnderstanding F → ExecContext F → Option (TradePlan F)
  breakout_trade cfg mu ctx = elim mu.key_levels.atr [
    | none ↦ none
    | some atr ↦ elim mu.key_levels.swing_highs [
      | [] ↦ none
      | high ∷ highs ↦ elim mu.key_levels.swing_lows [
        | [] ↦ none
        | low ∷ lows ↦
            if atr ≤? nat 0
            then none
            else breakout_of cfg mu ctx atr (max_from high highs) (min_from low lows)
      ]
    ]
  ]

  unfoldable pub reversion_plan :
      MarketUnderstanding F → ExecContext F → Action → F → F → F → Option (TradePlan F)
  reversion_plan mu ctx action entry stop tp =
      let risk = fl.abs (entry ⊖ stop) in
      let reward = fl.abs (tp ⊖ entry) in
      if (risk ≤? nat 0) || (reward ≤? nat 0)
      then none
      else some (
          proposal "MeanReversion" mu action entry stop tp (reward ⊘ risk) (estimate_costs_bps ctx)
            (mu.confidence ⊗ regime_prob mu) (range_fade action entry tp))

  unfoldable pub mean_reversion :
      MeanReversionCfg F → MarketUnderstanding F → ExecContext F → Option (TradePlan F)
  mean_reversion cfg mu ctx = elim mu.key_levels.atr [
    | none ↦ none
    | some atr ↦ elim mu.key_levels.price [
      | none ↦ none
      | some price ↦ elim mu.key_levels.swing_highs [
        | [] ↦ none
        | high ∷ highs ↦ elim mu.key_levels.swing_lows [
          | [] ↦ none
          | low ∷ lows ↦
              let resistance = max_from high highs in
              let support = min_from low lows in
              let mid_range = (resistance ⊕ support) ⊗ fl.decimal 5 1 in
              let beyond = cfg.sl_atr_beyond ⊗ atr in
              if atr ≤? nat 0 then none else elim mu.direction_bias [
                | bullish ↦ reversion_plan mu ctx long support (support ⊖ beyond) mid_range
                | bearish ↦ reversion_plan mu ctx short resistance (resistance ⊕ beyond) mid_range
                | neutral ↦ none
              ]
        ]
      ]
    ]
  ]
