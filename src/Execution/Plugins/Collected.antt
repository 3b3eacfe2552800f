-- ===== src/Execution/Plugins/Collected.antt =====
-- What the plugins that are switched on propose, and what becomes of it in a decision.
use aimos.Prelude.{
  ◌≡◌, refl, ap, ◌∙◌, subst, inl, inr, String, Bool, true, false, Option, some, List, [], ◌∷◌, ◌++◌,
  arith, All, All-append, On, absent, present, On-some, Option-cases, Bool-cases,
}
use aimos.Prelude.Floats.{Floats}
use aimos.Schemas.{TradePlan, MarketUnderstanding, ExecContext}
use aimos.Execution.Decide.{Plugin, collect}
use aimos.Execution.Plugins.{can_trade, risk_off}
use aimos.Execution.Plugins.Trend.{TrendCfg, PullbackCfg}
use aimos.Execution.Plugins.Range.{BreakoutCfg, MeanReversionCfg}
use aimos.Execution.Plugins.Contrarian.{DcaCfg, FundingCfg}
use aimos.Execution.Plugins.Arb.{ArbCfg, ScalpCfg}
use aimos.Execution.Plugins.Contract.{
  trades_in, IsProposal, IsPriced, trend_following-IsPriced, pullback-IsPriced,
  breakout_trade-IsPriced, mean_reversion-IsPriced, smart_dca-IsPriced, funding_rate-IsPriced,
  cross_exchange_arb-IsPriced, momentum_scalp-IsPriced,
}
use aimos.Execution.Plugins.Build.{
  PluginCfgs, added, build_plugins, risk_off_plugin, trend_following_plugin, pullback_plugin,
  breakout_plugin, mean_reversion_plugin, smart_dca_plugin, funding_rate_plugin,
  cross_exchange_arb_plugin, momentum_scalp_plugin,
}

module _ {F : Type 0} ⦃fl : Floats F⦄ (mu : MarketUnderstanding F) (ctx : ExecContext F) where
  abbrev IsSound : Plugin F → Type 0
  IsSound pl =
      pl.can_trade mu ≡ true
      → (p : TradePlan F) → pl.propose mu ctx ≡ some (some p)
      → IsProposal mu p

  priced-IsProposal :
      (plugin : String) (p : TradePlan F)
      → trades_in plugin mu.regime ≡ true
      → IsPriced mu plugin p
      → IsProposal mu p
  priced-IsProposal plugin p e (unsized, symbol, named, entry, stop, target) = record {
    unsized = unsized;
    same_symbol = symbol;
    in_regime = ap (λ n. trades_in n mu.regime) named ∙ e;
    levels = inr (entry, stop, target);
  }

  some-some : (o : Option (TradePlan F)) (p : TradePlan F) → some o ≡ some (some p) → o ≡ some p
  some-some o p h = ground (arith, h)

  trend_following_plugin-IsSound : (cfg : TrendCfg F) → IsSound (trend_following_plugin cfg)
  unfolding can_trade
  trend_following_plugin-IsSound cfg ready p e =
      priced-IsProposal "TrendFollowing" p (ground (arith, ready))
        (trend_following-IsPriced mu ctx cfg p (some-some _ p e))

  pullback_plugin-IsSound : (cfg : PullbackCfg F) → IsSound (pullback_plugin cfg)
  unfolding can_trade
  pullback_plugin-IsSound cfg ready p e =
      priced-IsProposal "Pullback" p (ground (arith, ready))
        (pullback-IsPriced mu ctx cfg p (some-some _ p e))

  breakout_plugin-IsSound : (cfg : BreakoutCfg F) → IsSound (breakout_plugin cfg)
  unfolding can_trade
  breakout_plugin-IsSound cfg ready p e =
      priced-IsProposal "Breakout" p (ground (arith, ready))
        (breakout_trade-IsPriced mu ctx cfg p (some-some _ p e))

  mean_reversion_plugin-IsSound : (cfg : MeanReversionCfg F) → IsSound (mean_reversion_plugin cfg)
  unfolding can_trade
  mean_reversion_plugin-IsSound cfg ready p e =
      priced-IsProposal "MeanReversion" p (ground (arith, ready))
        (mean_reversion-IsPriced mu ctx cfg p (some-some _ p e))

  smart_dca_plugin-IsSound : (cfg : DcaCfg F) → IsSound (smart_dca_plugin cfg)
  unfolding can_trade
  smart_dca_plugin-IsSound cfg ready p e =
      priced-IsProposal "SmartDCA" p (ground (arith, ready)) (smart_dca-IsPriced mu ctx cfg p e)

  funding_rate_plugin-IsSound : (cfg : FundingCfg F) → IsSound (funding_rate_plugin cfg)
  unfolding can_trade
  funding_rate_plugin-IsSound cfg ready p e =
      priced-IsProposal "FundingRate" p (ground (arith, ready))
        (funding_rate-IsPriced mu ctx cfg p (some-some _ p e))

  cross_exchange_arb_plugin-IsSound : (cfg : ArbCfg F) → IsSound (cross_exchange_arb_plugin cfg)
  unfolding can_trade
  cross_exchange_arb_plugin-IsSound cfg ready p e =
      priced-IsProposal "CrossExchangeArb" p (ground (arith, ready))
        (cross_exchange_arb-IsPriced mu ctx cfg p (some-some _ p e))

  momentum_scalp_plugin-IsSound : (cfg : ScalpCfg F) → IsSound (momentum_scalp_plugin cfg)
  unfolding can_trade
  momentum_scalp_plugin-IsSound cfg ready p e =
      priced-IsProposal "MomentumScalp" p (ground (arith, ready))
        (momentum_scalp-IsPriced mu ctx cfg p (some-some _ p e))

  risk_off_plugin-IsSound : IsSound risk_off_plugin
  risk_off_plugin-IsSound _ p e =
      let same : risk_off mu ≡ p = ground (arith, some-some (some (risk_off mu)) p e) in
      subst (IsProposal mu) same
        (record { unsized = refl; same_symbol = refl; in_regime = refl; levels = inl refl })

  added-All :
      {A : Type 0} (P : A → Type 0) (on : Bool) (x : A) (xs : List A)
      → P x
      → All P xs
      → All P (added on x xs)
  added-All P true x xs h hs = (h, hs)
  added-All P false x xs h hs = hs

  built-IsSound : (c : PluginCfgs F) → All IsSound (build_plugins c)
  unfolding build_plugins
  built-IsSound c = added-All IsSound c.risk_off_enabled risk_off_plugin _ risk_off_plugin-IsSound (
      added-All IsSound c.trend_following_cfg.enabled
        (trend_following_plugin c.trend_following_cfg.cfg) _
        (trend_following_plugin-IsSound c.trend_following_cfg.cfg)
        (added-All IsSound c.pullback_cfg.enabled (pullback_plugin c.pullback_cfg.cfg) _
          (pullback_plugin-IsSound c.pullback_cfg.cfg)
          (added-All IsSound c.breakout_cfg.enabled (breakout_plugin c.breakout_cfg.cfg) _
            (breakout_plugin-IsSound c.breakout_cfg.cfg)
            (added-All IsSound c.mean_reversion_cfg.enabled
              (mean_reversion_plugin c.mean_reversion_cfg.cfg) _
              (mean_reversion_plugin-IsSound c.mean_reversion_cfg.cfg)
              (added-All IsSound c.smart_dca_cfg.enabled (smart_dca_plugin c.smart_dca_cfg.cfg) _
                (smart_dca_plugin-IsSound c.smart_dca_cfg.cfg)
                (added-All IsSound c.funding_rate_cfg.enabled
                  (funding_rate_plugin c.funding_rate_cfg.cfg) _
                  (funding_rate_plugin-IsSound c.funding_rate_cfg.cfg)
                  (added-All IsSound c.cross_exchange_arb_cfg.enabled
                    (cross_exchange_arb_plugin c.cross_exchange_arb_cfg.cfg) _
                    (cross_exchange_arb_plugin-IsSound c.cross_exchange_arb_cfg.cfg)
                    (added-All IsSound c.scalp_cfg.enabled (momentum_scalp_plugin c.scalp_cfg.cfg) _
                      (momentum_scalp_plugin-IsSound c.scalp_cfg.cfg) (tt)))))))))

  collect-All :
      (plugins : List (Plugin F)) (candidates : List (TradePlan F))
      → All IsSound plugins
      → All (IsProposal mu) candidates
      → On (All (IsProposal mu)) (collect plugins mu ctx candidates)
  unfolding collect
  collect-All [] candidates _ h = present h
  collect-All (pl ∷ ps) candidates sound h = elim (Bool-cases (pl.can_trade mu)) [
    | inr shut ↦ rw (shut) (collect-All ps candidates sound.1 h)
    | inl ready ↦ elim (Option-cases (pl.propose mu ctx)) [
      | inl e ↦ rw (ready, e) absent
      | inr (proposal, e) ↦ elim (Option-cases proposal) [
        | inl n ↦ rw (ready, e, n) (collect-All ps candidates sound.1 h)
        | inr (p, same) ↦
            rw (ready, e, same)
              (collect-All ps (candidates ++ p ∷ []) sound.1 (
                All-append (IsProposal mu) candidates (p ∷ []) h
                  (sound.0 ready p (e ∙ ap some same), tt)))
      ]
    ]
  ]

  -- Each plan that the plugins propose for an understanding has no size yet, is about its symbol, and
  -- comes from a plugin that may trade in its regime; it trades nothing or has an entry, a stop and a
  -- target.
  pub collect-IsProposal :
      (c : PluginCfgs F) (candidates : List (TradePlan F))
      → collect (build_plugins c) mu ctx [] ≡ some candidates
      → All (IsProposal mu) candidates
  collect-IsProposal c candidates h =
      On-some (collect-All (build_plugins c) [] (built-IsSound c) tt) h
