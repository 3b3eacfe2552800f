-- ===== src/Execution/Risk/Gates.antt =====
-- What the risk manager lets through, and what a veto leaves of a plan.
use aimos.Prelude.{
  refl, inl, inr, Option-cases, [], ◌∷◌, ◌++◌, ◌<◌, ◌≡◌, ◌↔◌, ◌⊎◌, true, false, not, ◌&&◌, none,
  some, arith,
}
use aimos.Prelude.Floats.{Floats, ◌⊕◌, ◌⊖◌, ◌<?◌, ◌≤?◌, negate}
use aimos.Schemas.{
  is_no_trade, no_trade, vetoed_by, Veto, TradePlan, MarketUnderstanding, ExecContext,
}
use aimos.Execution.Risk.{RiskCfg, RiskState, veto_exempt, alloc_pct, veto, pass, check}

module _ {F : Type 0} ⦃fl : Floats F⦄ where
  -- Each limit that a trade has to keep, as one condition.
  pub record WithinLimits (cfg : RiskCfg F) (plan : TradePlan F) (mu : MarketUnderstanding F)
      (ctx : ExecContext F) (s : RiskState F) (risk : F) : Type 0 where
    pub calm : ((cfg.risk_score_veto <? mu.risk_score) && not (veto_exempt plan.plugin)) ≡ false
    pub unlocked : s.is_locked ≡ false
    pub tier1 : s.is_tier1 ≡ true
    pub listed : (s.is_cross_venue && not s.intersection_ok) ≡ false
    pub no_daily_stop : (s.day_pnl_pct ≤? negate cfg.daily_stop_pct) ≡ false
    pub slot_free : s.open_positions < cfg.max_positions
    pub heat : (cfg.max_portfolio_heat_pct <? (s.open_risk_pct ⊕ risk)) ≡ false
    pub bucket_risk : (cfg.max_correlated_bucket_pct <? (s.bucket_risk_pct ⊕ risk)) ≡ false
    pub asset :
        (cfg.max_equity_pct_per_asset <? (s.per_asset_alloc_pct ⊕ alloc_pct plan ctx)) ≡ false
    pub bucket : (cfg.max_bucket_pct <? (s.bucket_alloc_pct ⊕ alloc_pct plan ctx)) ≡ false
    pub reserve : ((s.reserve_pct ⊖ alloc_pct plan ctx) <? cfg.stablecoin_reserve_floor_pct) ≡ false

  module _ (cfg : RiskCfg F) (plan : TradePlan F) (mu : MarketUnderstanding F) (ctx : ExecContext F)
      (s : RiskState F) (risk : F) where
    -- The risk manager lets a plan through exactly when the kill switch is off and the plan either
    -- trades nothing or keeps every limit.
    pub check_passes_iff : ((check cfg plan mu ctx s risk).vetoed ≡ false) ↔ (
        (s.kill_switch ≡ false)
        × ((is_no_trade plan.action ≡ true) ⊎ WithinLimits cfg plan mu ctx s risk))
    unfolding check
    check_passes_iff = ground arith

    check-pass :
        (check cfg plan mu ctx s risk).reason ≡ none → check cfg plan mu ctx s risk ≡ pass plan
    unfolding check
    check-pass h = ground arith

    check-veto :
        (v : Veto F)
        → (check cfg plan mu ctx s risk).reason ≡ some v
        → check cfg plan mu ctx s risk ≡ veto plan v
    unfolding check
    check-veto v h = ground arith

    -- A decision without a reason hands the plan on as it was. A decision with a reason is a veto for
    -- that reason: its plan trades nothing, has no size, keeps plugin and symbol, and its reasons are
    -- the plan's with this one behind them.
    pub check_result :
        let d = check cfg plan mu ctx s risk in
        ((d.reason ≡ none) × (d.vetoed ≡ false) × (d.plan ≡ plan))
        ⊎ ((v : Veto F) × (d.reason ≡ some v)
            × (d.vetoed ≡ true)
            × (d.plan.action ≡ no_trade)
            × (d.plan.size_quote ≡ none)
            × (d.plan.plugin ≡ plan.plugin)
            × (d.plan.symbol ≡ plan.symbol)
            × (d.plan.reasons ≡ plan.reasons ++ vetoed_by v ∷ []))
    check_result = elim (Option-cases (check cfg plan mu ctx s risk).reason) [
      | inl e ↦ rw (check-pass e) (inl (refl, refl, refl))
      | inr (v, e) ↦ rw (check-veto v e) (inr (v, refl, refl, refl, refl, refl, refl, refl))
    ]
