-- ===== src/Execution/Plugins/Build.antt =====
-- The plugins that are switched on, RiskOff first: `build_plugins` of
-- aimos/execution/plugins/__init__.py. The configured values are those that the files in
-- config/plugins give, each with its `enabled`.
use aimos.Prelude.{Bool, true, Option, some, List, [], ◌∷◌, if◌then◌else◌}
use aimos.Prelude.Floats.{Floats, nat}
use aimos.Schemas.{
  Regime, trending_up, trending_down, ranging, breakout, crash, recovery, TradePlan,
  MarketUnderstanding, ExecContext,
}
use aimos.Execution.Decide.{Plugin}
use aimos.Execution.Plugins.{can_trade, risk_off}
use aimos.Execution.Plugins.Trend.{TrendCfg, PullbackCfg, trend_following, pullback}
use aimos.Execution.Plugins.Range.{BreakoutCfg, MeanReversionCfg, breakout_trade, mean_reversion}
use aimos.Execution.Plugins.Contrarian.{DcaCfg, FundingCfg, smart_dca, funding_rate}
use aimos.Execution.Plugins.Arb.{ArbCfg, ScalpCfg, cross_exchange_arb, momentum_scalp}

pub record Switched (C : Type 0) : Type 0 where
  pub enabled : Bool
  pub cfg : C

pub record PluginCfgs (F : Type 0) : Type 0 where
  pub risk_off_enabled : Bool
  pub trend_following_cfg : Switched (TrendCfg F)
  pub pullback_cfg : Switched (PullbackCfg F)
  pub breakout_cfg : Switched (BreakoutCfg F)
  pub mean_reversion_cfg : Switched (MeanReversionCfg F)
  pub smart_dca_cfg : Switched (DcaCfg F)
  pub funding_rate_cfg : Switched (FundingCfg F)
  pub cross_exchange_arb_cfg : Switched (ArbCfg F)
  pub scalp_cfg : Switched (ScalpCfg F)

abbrev pub added : {A : Type 0} → Bool → A → List A → List A
added on x xs = if on then x ∷ xs else xs

module _ {F : Type 0} ⦃fl : Floats F⦄ where
  abbrev pub plugin_of :
      List Regime
      → F
      → F
      → (MarketUnderstanding F → ExecContext F → Option (Option (TradePlan F)))
      → Plugin F
  plugin_of regimes min_confidence min_coin_health propose = record {
    can_trade = can_trade regimes min_confidence min_coin_health;
    propose = propose;
  }

  abbrev pub risk_off_plugin : Plugin F
  risk_off_plugin = record { can_trade = λ _. true; propose = λ mu _. some (some (risk_off mu)) }

  abbrev pub trend_following_plugin : TrendCfg F → Plugin F
  trend_following_plugin cfg =
      plugin_of (trending_up ∷ trending_down ∷ []) cfg.min_confidence cfg.min_coin_health
        (λ mu ctx. some (trend_following cfg mu ctx))

  abbrev pub pullback_plugin : PullbackCfg F → Plugin F
  pullback_plugin cfg =
      plugin_of (trending_up ∷ trending_down ∷ []) cfg.min_confidence cfg.min_coin_health
        (λ mu ctx. some (pullback cfg mu ctx))

  abbrev pub breakout_plugin : BreakoutCfg F → Plugin F
  breakout_plugin cfg =
      plugin_of (breakout ∷ []) cfg.min_confidence cfg.min_coin_health
        (λ mu ctx. some (breakout_trade cfg mu ctx))

  abbrev pub mean_reversion_plugin : MeanReversionCfg F → Plugin F
  mean_reversion_plugin cfg =
      plugin_of (ranging ∷ []) cfg.min_confidence cfg.min_coin_health
        (λ mu ctx. some (mean_reversion cfg mu ctx))

  abbrev pub smart_dca_plugin : DcaCfg F → Plugin F
  smart_dca_plugin cfg =
      plugin_of (crash ∷ recovery ∷ []) cfg.min_confidence cfg.min_coin_health (smart_dca cfg)

  abbrev pub funding_rate_plugin : FundingCfg F → Plugin F
  funding_rate_plugin cfg =
      plugin_of [] cfg.min_confidence cfg.min_coin_health (λ mu ctx. some (funding_rate cfg mu ctx))

  abbrev pub cross_exchange_arb_plugin : ArbCfg F → Plugin F
  cross_exchange_arb_plugin cfg =
      plugin_of [] cfg.min_confidence cfg.min_coin_health
        (λ mu ctx. some (cross_exchange_arb cfg mu ctx))

  abbrev pub momentum_scalp_plugin : ScalpCfg F → Plugin F
  momentum_scalp_plugin cfg =
      plugin_of [] cfg.min_confidence (nat 0) (λ mu ctx. some (momentum_scalp cfg mu ctx))

  unfoldable pub build_plugins : PluginCfgs F → List (Plugin F)
  build_plugins c = added c.risk_off_enabled risk_off_plugin (
      added c.trend_following_cfg.enabled (trend_following_plugin c.trend_following_cfg.cfg) (
        added c.pullback_cfg.enabled (pullback_plugin c.pullback_cfg.cfg) (
          added c.breakout_cfg.enabled (breakout_plugin c.breakout_cfg.cfg) (
            added c.mean_reversion_cfg.enabled (mean_reversion_plugin c.mean_reversion_cfg.cfg) (
              added c.smart_dca_cfg.enabled (smart_dca_plugin c.smart_dca_cfg.cfg) (
                added c.funding_rate_cfg.enabled (funding_rate_plugin c.funding_rate_cfg.cfg) (
                  added c.cross_exchange_arb_cfg.enabled
                    (cross_exchange_arb_plugin c.cross_exchange_arb_cfg.cfg)
                    (added c.scalp_cfg.enabled (momentum_scalp_plugin c.scalp_cfg.cfg) []))))))))
