-- ===== src/Execution/Risk.antt =====
-- The portfolio risk manager: aimos/execution/risk_manager.py.
pub mod Gates
mod Tests
use aimos.Prelude.{
  ℕ, String, Bool, true, false, not, ◌&&◌, ◌||◌, Option, none, some, List, [], ◌∷◌, ◌++◌, str_eq,
  leb, if◌then◌else◌,
}
use aimos.Prelude.Floats.{Floats, ◌⊕◌, ◌⊖◌, ◌⊗◌, ◌⊘◌, ◌<?◌, ◌≤?◌, nat, truthy, negate}
use aimos.Schemas.{
  Action, no_trade, is_no_trade, Veto, kill_switch_active, risk_score_above, protection_locked,
  not_tier1, no_intersection, daily_stop_hit, max_positions_reached, heat_cap, bucket_risk_cap,
  asset_cap, bucket_cap, reserve_floor, Reason, vetoed_by, TradePlan, MarketUnderstanding,
  ExecContext,
}

-- The values of the `execution` and `capacity` configuration that the gates read.
pub record RiskCfg (F : Type 0) : Type 0 where
  pub risk_score_veto : F
  pub daily_stop_pct : F
  pub max_positions : ℕ
  pub max_portfolio_heat_pct : F
  pub max_correlated_bucket_pct : F
  pub max_equity_pct_per_asset : F
  pub max_bucket_pct : F
  pub stablecoin_reserve_floor_pct : F

pub record RiskState (F : Type 0) : Type 0 where
  pub open_risk_pct : F
  pub open_positions : ℕ
  pub day_pnl_pct : F
  pub kill_switch : Bool
  pub is_tier1 : Bool
  pub is_cross_venue : Bool
  pub intersection_ok : Bool
  pub is_locked : Bool
  pub bucket_risk_pct : F
  pub per_asset_alloc_pct : F
  pub bucket_alloc_pct : F
  pub reserve_pct : F

pub record RiskDecision (F : Type 0) : Type 0 where
  pub plan : TradePlan F
  pub vetoed : Bool
  pub reason : Option (Veto F)

-- `_RISK_VETO_EXEMPT`
abbrev pub veto_exempt : String → Bool
veto_exempt plugin = str_eq plugin "RiskOff" || str_eq plugin "SmartDCA"

module _ {F : Type 0} ⦃fl : Floats F⦄ where
  -- `_alloc_pct`
  unfoldable pub alloc_pct : TradePlan F → ExecContext F → F
  alloc_pct plan ctx = elim plan.size_quote [
    | none ↦ nat 0
    | some q ↦
        if not (truthy q) || (ctx.equity_usdt ≤? nat 0)
        then nat 0
        else (q ⊘ ctx.equity_usdt) ⊗ nat 100
  ]

  -- A plan that trades nothing, with the defaults of `TradePlan`.
  abbrev pub no_trade_plan : String → String → List (Reason F) → TradePlan F
  no_trade_plan plugin symbol reasons = record {
    plugin = plugin;
    symbol = symbol;
    action = no_trade;
    entry = none;
    stop_loss = none;
    take_profit = none;
    size_quote = none;
    expected_rr = none;
    expected_costs_bps = nat 0;
    confidence = nat 0;
    score = nat 0;
    reasons = reasons;
    decision_id = none;
  }

  -- `_veto`
  abbrev pub veto : TradePlan F → Veto F → RiskDecision F
  veto plan v = record {
    plan = no_trade_plan plan.plugin plan.symbol (plan.reasons ++ vetoed_by v ∷ []);
    vetoed = true;
    reason = some v;
  }

  abbrev pub pass : TradePlan F → RiskDecision F
  pass plan = record { plan = plan; vetoed = false; reason = none }

  -- `RiskManager.check`
  unfoldable pub check :
      RiskCfg F
      → TradePlan F
      → MarketUnderstanding F
      → ExecContext F
      → RiskState F
      → F
      → RiskDecision F
  check cfg plan mu ctx state new_risk_pct =
      let new_alloc = alloc_pct plan ctx in
      if state.kill_switch
      then veto plan kill_switch_active
      else if is_no_trade plan.action
      then pass plan
      else if (cfg.risk_score_veto <? mu.risk_score) && not (veto_exempt plan.plugin)
      then veto plan (risk_score_above mu.risk_score)
      else if state.is_locked
      then veto plan protection_locked
      else if not state.is_tier1
      then veto plan not_tier1
      else if state.is_cross_venue && not state.intersection_ok
      then veto plan no_intersection
      else if state.day_pnl_pct ≤? negate cfg.daily_stop_pct
      then veto plan daily_stop_hit
      else if leb cfg.max_positions state.open_positions
      then veto plan max_positions_reached
      else if cfg.max_portfolio_heat_pct <? (state.open_risk_pct ⊕ new_risk_pct)
      then veto plan heat_cap
      else if cfg.max_correlated_bucket_pct <? (state.bucket_risk_pct ⊕ new_risk_pct)
      then veto plan bucket_risk_cap
      else if cfg.max_equity_pct_per_asset <? (state.per_asset_alloc_pct ⊕ new_alloc)
      then veto plan asset_cap
      else if cfg.max_bucket_pct <? (state.bucket_alloc_pct ⊕ new_alloc)
      then veto plan bucket_cap
      else if (state.reserve_pct ⊖ new_alloc) <? cfg.stablecoin_reserve_floor_pct
      then veto plan reserve_floor
      else pass plan
