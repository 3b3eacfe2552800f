-- ===== src/Intelligence/Tests.antt =====
-- An upward trend, understood.
use aimos.Prelude.{
  ℕ, ◌≡◌, refl, String, Bool, true, false, Option, none, some, List, [], ◌∷◌, All, or_else, ◌&&◌,
  if◌then◌else◌,
}
use aimos.Prelude.Int.{ℤ}
use aimos.Prelude.Floats.{fixed, nat, fixed-IsStrict}
use aimos.Schemas.{bullish, trending_up, unclear, MarketUnderstanding}
use aimos.Execution.Samples.{mu}
use aimos.Intelligence.{Evidence, EngineOpinion, Dist}
use aimos.Intelligence.Rules.{RuleCfg}
use aimos.Intelligence.Fusion.{FusionCfg, FusionResult}
use aimos.Intelligence.Confidence.{regime_named, finalize_regime}
use aimos.Intelligence.Scores.{ScoreContext, ScoreWeights, ScoresCfg}
use aimos.Intelligence.Understand.{
  IntelligenceLayer, understanding, is_within, validated, understand,
}
use aimos.Intelligence.Bounds.{
  IsSound, IsLikeliest, validated_lem, finalize_regime_lem, understand-IsSound,
}

abbrev weights : ScoreWeights ℤ
weights = record {
  health_liquidity = nat 20;
  health_manipulation_inv = nat 20;
  health_exchange = nat 20;
  health_volume = nat 20;
  health_trend = nat 20;
  risk_vol = nat 20;
  risk_liquidity = nat 20;
  risk_regime = nat 20;
  risk_event = nat 20;
  risk_portfolio = nat 20;
  regime_values = [];
  vol_shock_floor = nat 20;
  event_headline_shock = nat 20;
  event_funding_window = nat 20;
  event_weekend = nat 20;
  opportunity_edge = nat 20;
  opportunity_alignment = nat 20;
  opportunity_health = nat 20;
  opportunity_rr = nat 20;
  rr_potential_cap = nat 20;
  exchange_quality = [];
}

abbrev scores : ScoresCfg ℤ
scores = record {
  thin_book_q = nat 20;
  default_liquidity_q = nat 20;
  manipulation_behavior_threshold = nat 20;
  default_exchange_q = nat 20;
  default_volume_q = nat 20;
  default_vol_percentile = nat 20;
  default_portfolio_component = nat 20;
  spread_risk_z = nat 20;
  default_liquidity_risk = nat 20;
  regime_alignment_ranging = nat 20;
  regime_alignment_agree = nat 20;
  regime_alignment_conflict = nat 20;
  rr_scale = nat 20;
}

abbrev part : ℕ → ℤ
part n = fixed.decimal n 1

abbrev rule : RuleCfg ℤ
rule = record {
  tf_weights = [];
  p_up_lo = part 1;
  p_up_hi = part 9;
  regime_tf = "1h";
  regime_onehot_matched = part 7;
  behavior_unclear_default = part 6;
  behavior_matched = part 6;
  fired_strength_min = part 5;
  confidence_cap = part 9;
}

abbrev fusion : FusionCfg ℤ
fusion = record {
  fusion_weights = ("rule", part 5) ∷ ("bayes", part 5) ∷ [];
  disagreement_threshold = part 3;
  disagreement_conf_mult = part 7;
  liquidity_conf_mult = part 8;
  liquidity_spread_z = nat 2;
  sentiment_book_shift = part 3;
  headline_shock_pull = part 5;
  headline_shock_conf_mult = part 5;
  bull = part 6;
  bear = part 4;
}

abbrev undecided : String → EngineOpinion ℤ
undecided name = record {
  engine = name;
  p_up = part 5;
  regime_probs = [];
  behavior_probs = [];
  confidence = part 2;
}

abbrev layer : IntelligenceLayer ℤ
layer = record {
  rule = rule;
  fusion = fusion;
  weights = weights;
  scores = scores;
  coverage_engines = 8;
  bayes_opine = λ _. undecided "bayes";
  ml_opine = λ _ _ _. undecided "ml";
}

abbrev bullish_sign : String → Evidence ℤ
bullish_sign name = record {
  source = "price_action";
  timeframe = "1h";
  name = name;
  value = nat 1;
  direction = bullish;
  strength = part 8;
  reliability = part 7;
  spoof_suspect = false;
  bar_direction = none;
}

abbrev evidences : List (Evidence ℤ)
evidences = bullish_sign "structure_trend" ∷ bullish_sign "ema_slope" ∷ []

abbrev understood : MarketUnderstanding ℤ
understood = or_else (understand layer "BTC" evidences mu.key_levels 6 none none) mu

is_understood : understand layer "BTC" evidences mu.key_levels 6 none none ≡ some understood
unfolding understand finalize_regime aimos.Intelligence.Understand.fused_of
    aimos.Intelligence.Fusion.fuse aimos.Prelude.Dict.insert aimos.Intelligence.Rules.rule_opine
    aimos.Prelude.Int.◌+ℤ◌ aimos.Prelude.Int.◌/ℤ◌ aimos.Prelude.Dict.lookup
    aimos.Intelligence.Fusion.add_dist aimos.Intelligence.has_name
    aimos.Intelligence.Confidence.finalize_behavior aimos.Intelligence.first_named
    aimos.Intelligence.effective_reliability aimos.Intelligence.Confidence.compute_confidence
    aimos.Prelude.Floats.clamp01 aimos.Intelligence.Confidence.evidence_coverage
    aimos.Intelligence.Scores.coin_health aimos.Intelligence.Scores.opportunity
    aimos.Intelligence.Scores.risk_score
is_understood = refl

understand-IsSound_example : IsSound understood
understand-IsSound_example =
    understand-IsSound fixed-IsStrict layer "BTC" evidences mu.key_levels 6 none none understood
      is_understood

abbrev probs : Dist ℤ
probs = ("ranging", part 3) ∷ ("trending_up", part 7) ∷ []

is_final : finalize_regime probs ≡ some (trending_up, part 7)
unfolding finalize_regime aimos.Prelude.Int.◌/ℤ◌
is_final = refl

finalize_regime_lem_test :
    (label : String) × (regime_named label ≡ some trending_up) × IsLikeliest probs label (part 7)
finalize_regime_lem_test = finalize_regime_lem fixed-IsStrict probs trending_up (part 7) is_final

is_trend : understood.regime ≡ trending_up
unfolding understand finalize_regime aimos.Intelligence.Understand.fused_of
    aimos.Intelligence.Fusion.fuse aimos.Prelude.Dict.insert aimos.Intelligence.Rules.rule_opine
    aimos.Prelude.Int.◌+ℤ◌ aimos.Prelude.Int.◌/ℤ◌ aimos.Prelude.Dict.lookup
    aimos.Intelligence.Fusion.add_dist aimos.Intelligence.has_name
    aimos.Intelligence.Confidence.finalize_behavior aimos.Intelligence.first_named
    aimos.Intelligence.effective_reliability aimos.Intelligence.Confidence.compute_confidence
    aimos.Prelude.Floats.clamp01 aimos.Intelligence.Confidence.evidence_coverage
    aimos.Intelligence.Scores.coin_health aimos.Intelligence.Scores.opportunity
    aimos.Intelligence.Scores.risk_score
is_trend = refl

-- A market of which nothing is known but the fused opinion.
abbrev unknown : ScoreContext ℤ
unknown = record {
  exchange = none;
  liquidity_percentile = none;
  volume_percentile = none;
  atr_percentile = none;
  portfolio_component = none;
  nearest_opposing_distance_atr = none;
}

abbrev fused : FusionResult ℤ
fused = record {
  p_up = part 12;
  regime_probs = probs;
  behavior_probs = [];
  direction_bias = bullish;
  disagreement = nat 0;
  penalty_mult = nat 1;
  reasons = [];
}

-- A fused probability of 1.2 fails the validation, and nothing else can here.
validated_lem_example :
    let seen =
      understanding layer "BTC" evidences mu.key_levels unknown
        (nat 1)
        fused
        (trending_up, part 7)
        unclear in
    validated seen ≡ (
      if is_within (nat 0) (nat 1) seen.p_up && is_within (nat 0) (nat 100) seen.coin_health
      then some seen
      else none)
unfolding aimos.Prelude.Int.◌/ℤ◌
validated_lem_example =
    validated_lem fixed-IsStrict refl refl layer "BTC" evidences mu.key_levels unknown (nat 1) fused
      (trending_up, part 7) unclear
