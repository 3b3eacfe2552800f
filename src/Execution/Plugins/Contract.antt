-- ===== src/Execution/Plugins/Contract.antt =====
-- What every proposal of the plugins is like.
use aimos.Prelude.{
  ◌≡◌, ◌⊎◌, String, Bool, true, ◌||◌, none, some, arith, is_some, str_eq, if◌then◌else◌,
}
use aimos.Prelude.Floats.{Floats}
use aimos.Schemas.{
  is_no_trade, Regime, trending_up, trending_down, ranging, breakout, crash, recovery, same_regime,
  TradePlan, MarketUnderstanding, ExecContext,
}
use aimos.Execution.Plugins.Trend.{
  TrendCfg, PullbackCfg, trend_following, trend_plan, pullback, pullback_plan,
}
use aimos.Execution.Plugins.Range.{
  BreakoutCfg, MeanReversionCfg, breakout_plan, breakout_of, breakout_trade, reversion_plan,
  mean_reversion,
}
use aimos.Execution.Plugins.Contrarian.{DcaCfg, FundingCfg, dca_plan, smart_dca, funding_rate}
use aimos.Execution.Plugins.Arb.{
  ArbCfg, ScalpCfg, arb_plan, cross_exchange_arb, scalp_plan, scalp_of, momentum_scalp,
}

-- The regimes in which a plugin may trade.
abbrev pub trades_in : String → Regime → Bool
trades_in plugin r =
    if str_eq plugin "TrendFollowing" || str_eq plugin "Pullback"
    then same_regime r trending_up || same_regime r trending_down
    else if str_eq plugin "Breakout"
    then same_regime r breakout
    else if str_eq plugin "MeanReversion"
    then same_regime r ranging
    else if str_eq plugin "SmartDCA"
    then same_regime r crash || same_regime r recovery
    else true

module _ {F : Type 0} ⦃fl : Floats F⦄ (mu : MarketUnderstanding F) where
  -- A plan without a size, about the symbol at hand, of a plugin that may trade in this regime, which
  -- trades nothing or has an entry, a stop and a target.
  pub record IsProposal (p : TradePlan F) : Type 0 where
    pub unsized : p.size_quote ≡ none
    pub same_symbol : p.symbol ≡ mu.symbol
    pub in_regime : trades_in p.plugin mu.regime ≡ true
    pub levels :
        (is_no_trade p.action ≡ true)
        ⊎ ((is_some p.entry ≡ true) × (is_some p.stop_loss ≡ true) × (is_some p.take_profit ≡ true))

  abbrev pub IsPriced : String → TradePlan F → Type 0
  IsPriced plugin p =
      (p.size_quote ≡ none)
      × (p.symbol ≡ mu.symbol)
      × (p.plugin ≡ plugin)
      × (is_some p.entry ≡ true)
      × (is_some p.stop_loss ≡ true)
      × (is_some p.take_profit ≡ true)

  module _ (ctx : ExecContext F) where
    pub trend_following-IsPriced :
        (cfg : TrendCfg F) (p : TradePlan F)
        → trend_following cfg mu ctx ≡ some p
        → IsPriced "TrendFollowing" p
    unfolding trend_following trend_plan
    trend_following-IsPriced cfg p h = ground (arith, h)

    pub pullback-IsPriced :
        (cfg : PullbackCfg F) (p : TradePlan F)
        → pullback cfg mu ctx ≡ some p
        → IsPriced "Pullback" p
    unfolding pullback pullback_plan
    pullback-IsPriced cfg p h = ground (arith, h)

    pub breakout_trade-IsPriced :
        (cfg : BreakoutCfg F) (p : TradePlan F)
        → breakout_trade cfg mu ctx ≡ some p
        → IsPriced "Breakout" p
    unfolding breakout_trade breakout_of breakout_plan
    breakout_trade-IsPriced cfg p h = ground (arith, h)

    pub mean_reversion-IsPriced :
        (cfg : MeanReversionCfg F) (p : TradePlan F)
        → mean_reversion cfg mu ctx ≡ some p
        → IsPriced "MeanReversion" p
    unfolding mean_reversion reversion_plan
    mean_reversion-IsPriced cfg p h = ground (arith, h)

    pub smart_dca-IsPriced :
        (cfg : DcaCfg F) (p : TradePlan F)
        → smart_dca cfg mu ctx ≡ some (some p)
        → IsPriced "SmartDCA" p
    unfolding smart_dca dca_plan
    smart_dca-IsPriced cfg p h = ground (arith, h)

    pub funding_rate-IsPriced :
        (cfg : FundingCfg F) (p : TradePlan F)
        → funding_rate cfg mu ctx ≡ some p
        → IsPriced "FundingRate" p
    unfolding funding_rate
    funding_rate-IsPriced cfg p h = ground (arith, h)

    pub cross_exchange_arb-IsPriced :
        (cfg : ArbCfg F) (p : TradePlan F)
        → cross_exchange_arb cfg mu ctx ≡ some p
        → IsPriced "CrossExchangeArb" p
    unfolding cross_exchange_arb arb_plan
    cross_exchange_arb-IsPriced cfg p h = ground (arith, h)

    pub momentum_scalp-IsPriced :
        (cfg : ScalpCfg F) (p : TradePlan F)
        → momentum_scalp cfg mu ctx ≡ some p
        → IsPriced "MomentumScalp" p
    unfolding momentum_scalp scalp_of scalp_plan
    momentum_scalp-IsPriced cfg p h = ground (arith, h)
