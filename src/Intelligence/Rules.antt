-- ===== src/Intelligence/Rules.antt =====
-- The rule engine: aimos/intelligence/rule_engine.py, without the texts of its reasons.
use aimos.Prelude.{
  ◌-◌, String, Bool, false, ◌&&◌, ◌||◌, Option, none, some, List, [], ◌∷◌, map, keep, length,
  count_if, any_of, str_eq, if◌then◌else◌,
}
use aimos.Prelude.Dict.{Dict}
use aimos.Prelude.Floats.{Floats, ◌⊕◌, ◌⊖◌, ◌⊗◌, ◌⊘◌, ◌<?◌, nat, fmax, fmin, negate}
use aimos.Schemas.{
  Direction, bullish, bearish, neutral, Regime, regime_value, crash, trending_up, trending_down,
  ranging, breakout,
}
use aimos.Intelligence.{
  Evidence, Dist, EngineOpinion, has_name, first_named, named, directional, effective_reliability,
}
use aimos.Intelligence.Fusion.{same_direction}

pub record RuleCfg (F : Type 0) : Type 0 where
  pub tf_weights : Dict F
  pub p_up_lo : F
  pub p_up_hi : F
  pub regime_tf : String
  pub regime_onehot_matched : F
  pub behavior_unclear_default : F
  pub behavior_matched : F
  pub fired_strength_min : F
  pub confidence_cap : F

-- `_REGIMES` and `_BEHAVIORS`
abbrev pub regimes : List String
regimes = "trending_up" ∷ "trending_down" ∷ "ranging" ∷ "breakout" ∷ "crash" ∷ "recovery" ∷ []

abbrev pub behaviors : List String
behaviors =
    "accumulation" ∷ "distribution" ∷ "continuation" ∷ "manipulation" ∷ "capitulation" ∷ "panic"
    ∷ "euphoria" ∷ "unclear" ∷ []

-- `meta.get("bar_direction") == "down"`
abbrev is_down : Option String → Bool
is_down none = false
is_down (some d) = str_eq d "down"

module _ {F : Type 0} where
  abbrev has_direction : Option (Evidence F) → Direction → Bool
  has_direction none _ = false
  has_direction (some e) d = same_direction e.direction d

  -- `present` with a direction, and without one it is `has_name`.
  unfoldable pub present : List (Evidence F) → String → Direction → Bool
  present evs name d = any_of (λ e. str_eq e.name name && same_direction e.direction d) evs

  abbrev shock_bearish : List (Evidence F) → Bool
  shock_bearish evs = any_of (λ e. str_eq e.name "vol_shock" && is_down e.bar_direction) evs

  abbrev or_all : List (Evidence F) → List (Evidence F) → List (Evidence F)
  or_all [] all = all
  or_all (e ∷ es) all = e ∷ es

  -- The regime of the first rule that matches.
  unfoldable pub regime_rule : String → List (Evidence F) → Regime
  unfolding present
  regime_rule tf all =
      let evs = or_all (keep (λ e. str_eq e.timeframe tf) all) all in
      if has_name evs "vol_shock" && shock_bearish evs
      then crash
      else if present evs "structure_trend" bullish && present evs "ema_slope" bullish
      then trending_up
      else if present evs "structure_trend" bearish && present evs "ema_slope" bearish
      then trending_down
      else if has_name evs "range_bound" && has_name evs "vol_compression"
      then ranging
      else if has_name evs "vol_compression" && has_name evs "bos"
      then breakout
      else ranging

  abbrev bos_with : Option (Evidence F) → List (Evidence F) → Bool
  bos_with none _ = false
  bos_with (some bos) evs =
      any_of (λ v. same_direction v.direction bos.direction) (named evs "volume_spike")

  abbrev volume_bearish : List (Evidence F) → Bool
  volume_bearish evs =
      any_of (λ e. str_eq e.name "volume_spike" && same_direction e.direction bearish) evs

  -- The behavior of the first rule that matches, if one does.
  unfoldable pub behavior_rule : List (Evidence F) → Option String
  behavior_rule evs =
      if has_direction (first_named evs "absorption") bullish
        && has_name evs "range_bound"
        && (has_name evs "large_buys" || has_name evs "exchange_outflow")
      then some "accumulation"
      else if has_direction (first_named evs "absorption") bearish
          && has_name evs "range_bound"
          && has_name evs "large_sells"
      then some "distribution"
      else if bos_with (first_named evs "bos") evs
      then some "continuation"
      else if has_name evs "decoupling"
          && has_name evs "venue_divergence_volume"
          && any_of (λ e. e.spoof_suspect) evs
      then some "manipulation"
      else if has_direction (first_named evs "vol_shock") neutral
          && has_name evs "rsi_oversold"
          && volume_bearish evs
      then some "capitulation"
      else if has_name evs "rsi_overbought"
          && has_direction (first_named evs "funding_extreme") bearish
      then some "euphoria"
      else none

module _ {F : Type 0} ⦃fl : Floats F⦄ where
  abbrev sign_f : Direction → F
  sign_f bullish = nat 1
  sign_f bearish = negate (nat 1)
  sign_f neutral = nat 0

  -- The sums of `_directional_score`.
  abbrev score_sums : Dict F → F → F → List (Evidence F) → F × F
  score_sums tf num denom [] = (num, denom)
  score_sums tf num denom (e ∷ es) =
      let w = e.strength ⊗ effective_reliability e tf in
      score_sums tf (num ⊕ (w ⊗ sign_f e.direction)) (denom ⊕ w) es

  unfoldable pub directional_score : RuleCfg F → List (Evidence F) → F
  directional_score cfg evidences =
      let (num, denom) = score_sums cfg.tf_weights (nat 0) (nat 0) (directional evidences) in
      let p_up = fl.decimal 5 1 ⊕ (fl.decimal 5 1 ⊗ (num ⊘ denom)) in
      if fl.eq denom (nat 0) then fl.decimal 5 1 else fmax cfg.p_up_lo (fmin cfg.p_up_hi p_up)

  unfoldable pub one_hot : String → List String → F → Dist F
  one_hot matched labels matched_prob =
      let rest = (nat 1 ⊖ matched_prob) ⊘ nat (length labels - 1) in
      map (λ label. (label, if str_eq label matched then matched_prob else rest)) labels

  abbrev behavior_dist : RuleCfg F → Option String → Dist F
  behavior_dist cfg none = one_hot "unclear" behaviors cfg.behavior_unclear_default
  behavior_dist cfg (some matched) = one_hot matched behaviors cfg.behavior_matched

  abbrev rule_confidence_of : RuleCfg F → List (Evidence F) → F
  rule_confidence_of cfg [] = nat 0
  rule_confidence_of cfg (d ∷ dirs) =
      let strong = count_if (λ e. cfg.fired_strength_min <? e.strength) (d ∷ dirs) in
      fmin (nat strong ⊘ nat (length (d ∷ dirs))) cfg.confidence_cap

  unfoldable pub rule_opine : RuleCfg F → List (Evidence F) → EngineOpinion F
  unfolding directional_score one_hot regime_rule behavior_rule
  rule_opine cfg evidences = record {
    engine = "rule";
    p_up = directional_score cfg evidences;
    regime_probs =
        one_hot (regime_value (regime_rule cfg.regime_tf evidences)) regimes
          cfg.regime_onehot_matched;
    behavior_probs = behavior_dist cfg (behavior_rule evidences);
    confidence = rule_confidence_of cfg (directional evidences);
  }
