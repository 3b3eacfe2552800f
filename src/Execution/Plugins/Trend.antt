-- ===== src/Execution/Plugins/Trend.antt =====
-- TrendFollowing and Pullback: aimos/execution/plugins/trend_following.py and pullback.py.
use aimos.Prelude.{
  Bool, true, false, not, ◌&&◌, ◌||◌, Option, none, some, List, [], ◌∷◌, keep, or_else,
  if◌then◌else◌,
}
use aimos.Prelude.Floats.{Floats, ◌⊕◌, ◌⊖◌, ◌⊗◌, ◌⊘◌, ◌<?◌, ◌≤?◌, nat}
use aimos.Schemas.{
  Action, long, short, is_bullish, is_bearish, trending_up, same_regime, continuation,
  same_behavior, trend_follow, pullback_to, TradePlan, MarketUnderstanding, ExecContext,
}
use aimos.Execution.Plugins.{estimate_costs_bps, regime_prob, max_from, min_from, proposal}

pub record TrendCfg (F : Type 0) : Type 0 where
  pub min_confidence : F
  pub min_coin_health : F
  pub sl_atr_buffer : F
  pub tp_rr : F

pub record PullbackCfg (F : Type 0) : Type 0 where
  pub min_confidence : F
  pub min_coin_health : F
  pub ema_proximity_atr : F
  pub sl_atr_beyond : F
  pub min_rr : F

module _ {F : Type 0} ⦃fl : Floats F⦄ where
  -- `_nearest` below and above a price: the nearest level beyond it, or else the outermost one.
  unfoldable pub nearest_below : List F → F → Option F
  nearest_below [] below = none
  nearest_below (v ∷ vs) below = elim (keep (λ x. x <? below) (v ∷ vs)) [
    | [] ↦ some (max_from v vs)
    | c ∷ cs ↦ some (max_from c cs)
  ]

  unfoldable pub nearest_above : List F → F → Option F
  nearest_above [] above = none
  nearest_above (v ∷ vs) above = elim (keep (λ x. above <? x) (v ∷ vs)) [
    | [] ↦ some (min_from v vs)
    | c ∷ cs ↦ some (min_from c cs)
  ]

  -- `_mid`
  unfoldable pub mid_price : MarketUnderstanding F → Option F
  mid_price mu = elim mu.key_levels.price [
    | none ↦ none
    | some price ↦ if fl.is_finite price && (nat 0 <? price) then some price else none
  ]

  -- The plan of TrendFollowing for an entry and a stop.
  unfoldable pub trend_plan :
      TrendCfg F → MarketUnderstanding F → ExecContext F → Bool → F → F → Option (TradePlan F)
  trend_plan cfg mu ctx is_up entry stop =
      let r = fl.abs (entry ⊖ stop) in
      let tp = if is_up then entry ⊕ (cfg.tp_rr ⊗ r) else entry ⊖ (cfg.tp_rr ⊗ r) in
      let action = if is_up then long else short in
      if r ≤? nat 0
      then none
      else some (
          proposal "TrendFollowing" mu action entry stop tp cfg.tp_rr (estimate_costs_bps ctx)
            (mu.confidence ⊗ regime_prob mu) (trend_follow action entry stop tp))

  unfoldable pub trend_following :
      TrendCfg F → MarketUnderstanding F → ExecContext F → Option (TradePlan F)
  trend_following cfg mu ctx =
      let is_up = same_regime mu.regime trending_up in
      let atr = or_else mu.key_levels.atr (nat 0) in
      let buffer = cfg.sl_atr_buffer ⊗ atr in
      if not (if is_up then is_bullish mu.direction_bias else is_bearish mu.direction_bias)
      then none
      else elim (mid_price mu) [
        | none ↦ none
        | some entry ↦
            if atr ≤? nat 0
            then none
            else if is_up
            then elim (nearest_below mu.key_levels.swing_lows entry) [
              | none ↦ none
              | some swing ↦ trend_plan cfg mu ctx true entry (swing ⊖ buffer)
            ]
            else elim (nearest_above mu.key_levels.swing_highs entry) [
              | none ↦ none
              | some swing ↦ trend_plan cfg mu ctx false entry (swing ⊕ buffer)
            ]
      ]

  -- `_extreme`
  abbrev pub highest : List F → Option F
  highest [] = none
  highest (v ∷ vs) = some (max_from v vs)

  abbrev pub lowest : List F → Option F
  lowest [] = none
  lowest (v ∷ vs) = some (min_from v vs)

  unfoldable pub pullback_plan :
      PullbackCfg F
      → MarketUnderstanding F
      → ExecContext F
      → Action
      → F
      → F
      → Option F
      → Option (TradePlan F)
  pullback_plan cfg mu ctx action entry stop none = none
  pullback_plan cfg mu ctx action entry stop (some tp) =
      let risk = fl.abs (entry ⊖ stop) in
      let rr = fl.abs (tp ⊖ entry) ⊘ risk in
      if (risk ≤? nat 0) || (rr <? cfg.min_rr)
      then none
      else some (
          proposal "Pullback" mu action entry stop tp rr (estimate_costs_bps ctx)
            (mu.confidence ⊗ regime_prob mu) (pullback_to entry rr))

  unfoldable pub pullback :
      PullbackCfg F → MarketUnderstanding F → ExecContext F → Option (TradePlan F)
  pullback cfg mu ctx =
      if not (same_behavior mu.behavior continuation) then none else elim mu.key_levels.ema50 [
        | none ↦ none
        | some ema ↦ elim mu.key_levels.price [
          | none ↦ none
          | some price ↦ elim mu.key_levels.atr [
            | none ↦ none
            | some atr ↦
                let beyond = cfg.sl_atr_beyond ⊗ atr in
                if (atr ≤? nat 0) || ((cfg.ema_proximity_atr ⊗ atr) <? fl.abs (price ⊖ ema))
                then none
                else if same_regime mu.regime trending_up
                then pullback_plan cfg mu ctx long ema (ema ⊖ beyond)
                    (highest mu.key_levels.swing_highs)
                else pullback_plan cfg mu ctx short ema (ema ⊕ beyond)
                    (lowest mu.key_levels.swing_lows)
          ]
        ]
      ]
