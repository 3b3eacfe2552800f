-- ===== src/Intelligence/Scores.antt =====
-- The scores of a coin: aimos/intelligence/scores.py.
use aimos.Prelude.{
  String, Bool, false, ◌&&◌, ◌||◌, Option, none, some, List, [], ◌∷◌, any_of, or_else,
  if◌then◌else◌,
}
use aimos.Prelude.Dict.{Dict, lookup}
use aimos.Prelude.Floats.{Floats, ◌⊕◌, ◌⊖◌, ◌⊗◌, ◌⊘◌, ◌<?◌, ◌≤?◌, nat, fmax, fmin, clamp01}
use aimos.Schemas.{
  Direction, is_bullish, is_bearish, Regime, regime_value, same_regime, trending_up, trending_down,
  ranging, breakout, crash, recovery,
}
use aimos.Intelligence.{Evidence, Dist, is_neutral, has_name, first_named}

pub record ScoreContext (F : Type 0) : Type 0 where
  pub exchange : Option String
  pub liquidity_percentile : Option F
  pub volume_percentile : Option F
  pub atr_percentile : Option F
  pub portfolio_component : Option F
  pub nearest_opposing_distance_atr : Option F

-- `weights.yaml`: the weights of the three scores.
pub record ScoreWeights (F : Type 0) : Type 0 where
  pub health_liquidity : F
  pub health_manipulation_inv : F
  pub health_exchange : F
  pub health_volume : F
  pub health_trend : F
  pub risk_vol : F
  pub risk_liquidity : F
  pub risk_regime : F
  pub risk_event : F
  pub risk_portfolio : F
  pub regime_values : Dict F
  pub vol_shock_floor : F
  pub event_headline_shock : F
  pub event_funding_window : F
  pub event_weekend : F
  pub opportunity_edge : F
  pub opportunity_alignment : F
  pub opportunity_health : F
  pub opportunity_rr : F
  pub rr_potential_cap : F
  pub exchange_quality : Dict F

-- The subtree `scores` of the intelligence configuration.
pub record ScoresCfg (F : Type 0) : Type 0 where
  pub thin_book_q : F
  pub default_liquidity_q : F
  pub manipulation_behavior_threshold : F
  pub default_exchange_q : F
  pub default_volume_q : F
  pub default_vol_percentile : F
  pub default_portfolio_component : F
  pub spread_risk_z : F
  pub default_liquidity_risk : F
  pub regime_alignment_ranging : F
  pub regime_alignment_agree : F
  pub regime_alignment_conflict : F
  pub rr_scale : F

-- The sets of `_regime_alignment`.
abbrev is_up : Regime → Bool
is_up r = same_regime r trending_up || same_regime r breakout || same_regime r recovery

abbrev is_fall : Regime → Bool
is_fall r = same_regime r trending_down || same_regime r crash

module _ {F : Type 0} ⦃fl : Floats F⦄ where
  abbrev weight_sum : F → List (F × F) → F
  weight_sum total [] = total
  weight_sum total (x ∷ xs) = weight_sum (total ⊕ x.0) xs

  abbrev product_sum : F → List (F × F) → F
  product_sum total [] = total
  product_sum total (x ∷ xs) = product_sum (total ⊕ (x.0 ⊗ x.1)) xs

  -- `_wsum`
  unfoldable pub wsum : List (F × F) → F
  wsum weighted =
      let total_w = weight_sum (nat 0) weighted in
      if total_w ≤? nat 0 then nat 0 else product_sum (nat 0) weighted ⊘ total_w

  unfoldable pub clamp0_100 : F → F
  clamp0_100 x = fmax (nat 0) (fmin (nat 100) x)

  unfoldable pub coin_health :
      List (Evidence F) → Dist F → F → ScoreWeights F → ScoresCfg F → ScoreContext F → F
  unfolding wsum
  coin_health evidences behavior_probs trend_strength w cfg ctx =
      let liquidity_q =
        if has_name evidences "thin_book"
        then cfg.thin_book_q
        else or_else ctx.liquidity_percentile cfg.default_liquidity_q in
      let manip_prob = or_else (lookup "manipulation" behavior_probs) (nat 0) in
      let manipulation_risk =
        if (cfg.manipulation_behavior_threshold <? manip_prob)
          || any_of (λ e. e.spoof_suspect) evidences
          || has_name evidences "venue_divergence_volume"
        then nat 100
        else manip_prob ⊗ nat 100 in
      let exchange_q : F = elim ctx.exchange [
        | none ↦ cfg.default_exchange_q
        | some exchange ↦ or_else (lookup exchange w.exchange_quality) cfg.default_exchange_q
      ] in
      let volume_q = or_else ctx.volume_percentile cfg.default_volume_q in
      let trend_q = clamp01 (fl.abs trend_strength) ⊗ nat 100 in
      wsum (
        (w.health_liquidity, liquidity_q)
        ∷ (w.health_manipulation_inv, nat 100 ⊖ manipulation_risk)
        ∷ (w.health_exchange, exchange_q)
        ∷ (w.health_volume, volume_q)
        ∷ (w.health_trend, trend_q)
        ∷ [])

  abbrev is_wide : ScoresCfg F → Option (Evidence F) → Bool
  is_wide cfg none = false
  is_wide cfg (some e) = cfg.spread_risk_z <? fl.abs e.value

  -- `_liquidity_risk`
  abbrev liquidity_risk : List (Evidence F) → ScoresCfg F → F
  liquidity_risk evidences cfg =
      if has_name evidences "thin_book"
      then nat 100
      else if is_wide cfg (first_named evidences "spread")
      then nat 100
      else cfg.default_liquidity_risk

  abbrev raised : Bool → F → F → F
  raised b value risk = if b then fmax risk value else risk

  -- `_event_risk`
  abbrev event_risk : List (Evidence F) → ScoreWeights F → F
  event_risk evidences w = raised (has_name evidences "weekend") w.event_weekend (
      raised (has_name evidences "funding_window") w.event_funding_window
        (raised (has_name evidences "headline_shock") w.event_headline_shock (nat 0)))

  unfoldable pub risk_score :
      List (Evidence F) → Regime → ScoreWeights F → ScoresCfg F → ScoreContext F → F
  unfolding wsum clamp0_100
  risk_score evidences regime w cfg ctx =
      let vol = or_else ctx.atr_percentile cfg.default_vol_percentile in
      clamp0_100 (
        wsum (
          (w.risk_vol, raised (has_name evidences "vol_shock") w.vol_shock_floor vol)
          ∷ (w.risk_liquidity, liquidity_risk evidences cfg)
          ∷ (w.risk_regime, or_else (lookup (regime_value regime) w.regime_values) (nat 0))
          ∷ (w.risk_event, event_risk evidences w)
          ∷ (w.risk_portfolio, or_else ctx.portfolio_component cfg.default_portfolio_component)
          ∷ []))

  -- `_regime_alignment`
  abbrev regime_alignment : Direction → Regime → ScoresCfg F → F
  regime_alignment d regime cfg =
      if same_regime regime ranging
      then cfg.regime_alignment_ranging
      else if (is_bullish d && is_up regime) || (is_bearish d && is_fall regime)
      then cfg.regime_alignment_agree
      else if is_neutral d
      then cfg.regime_alignment_ranging
      else cfg.regime_alignment_conflict

  -- `_rr_potential`
  abbrev rr_potential : ScoreContext F → ScoresCfg F → F → F
  rr_potential ctx cfg cap = elim ctx.nearest_opposing_distance_atr [
    | none ↦ nat 0
    | some distance ↦ fmin (distance ⊗ cfg.rr_scale) cap
  ]

  unfoldable pub opportunity :
      F → F → Direction → Regime → F → ScoreWeights F → ScoresCfg F → ScoreContext F → F
  unfolding wsum clamp0_100
  opportunity p_up confidence direction_bias regime health w cfg ctx =
      let edge = (clamp01 (fl.abs (p_up ⊖ fl.decimal 5 1) ⊗ nat 2) ⊗ confidence) ⊗ nat 100 in
      clamp0_100 (
        wsum (
          (w.opportunity_edge, edge)
          ∷ (w.opportunity_alignment, regime_alignment direction_bias regime cfg)
          ∷ (w.opportunity_health, health)
          ∷ (w.opportunity_rr, rr_potential ctx cfg w.rr_potential_cap)
          ∷ []))
