-- ===== src/Execution/Plugins.antt =====
-- The contract of the strategy plugins, aimos/execution/base_plugin.py, and the list of those that
-- are switched on, aimos/execution/plugins/__init__.py.
pub mod Trend
pub mod Range
pub mod Contrarian
pub mod Arb
pub mod Build
pub mod Contract
pub mod Collected
pub mod Decided
use aimos.Prelude.{
  String, Bool, true, false, not, ◌&&◌, ◌||◌, Option, none, some, List, [], ◌∷◌, any_of, or_else,
  if◌then◌else◌,
}
use aimos.Prelude.Dict.{lookup}
use aimos.Prelude.Floats.{Floats, ◌⊕◌, ◌⊗◌, ◌≤?◌, nat, fmax}
use aimos.Schemas.{
  Action, Regime, same_regime, regime_value, Reason, said, TradePlan, MarketUnderstanding,
  ExecContext,
}
use aimos.Execution.Risk.{no_trade_plan}

module _ {F : Type 0} ⦃fl : Floats F⦄ where
  -- `ExecutionPlugin.can_trade`
  unfoldable pub can_trade : List Regime → F → F → MarketUnderstanding F → Bool
  can_trade [] min_confidence min_coin_health mu =
      (min_confidence ≤? mu.confidence) && (min_coin_health ≤? mu.coin_health)
  can_trade (r ∷ rs) min_confidence min_coin_health mu =
      any_of (same_regime mu.regime) (r ∷ rs)
      && (min_confidence ≤? mu.confidence)
      && (min_coin_health ≤? mu.coin_health)

  unfoldable pub estimate_costs_bps : ExecContext F → F
  estimate_costs_bps ctx =
      ((ctx.fee_taker_bps ⊗ nat 2) ⊕ ctx.slippage_entry_bps) ⊕ ctx.slippage_exit_bps

  -- `mu.regime_probs.get(mu.regime.value, 1.0)`
  abbrev pub regime_prob : MarketUnderstanding F → F
  regime_prob mu = or_else (lookup (regime_value mu.regime) mu.regime_probs) (nat 1)

  -- `max` and `min` of a list that is not empty
  abbrev pub max_from : F → List F → F
  max_from x [] = x
  max_from x (y ∷ ys) = max_from (fmax x y) ys

  abbrev pub min_from : F → List F → F
  min_from x [] = x
  min_from x (y ∷ ys) = min_from (if fl.lt y x then y else x) ys

  -- A plan of a plugin: its geometry, and no size yet.
  abbrev pub proposal :
      String → MarketUnderstanding F → Action → F → F → F → F → F → F → Reason F → TradePlan F
  proposal plugin mu action entry stop tp rr costs confidence reason = record {
    plugin = plugin;
    symbol = mu.symbol;
    action = action;
    entry = some entry;
    stop_loss = some stop;
    take_profit = some tp;
    size_quote = none;
    expected_rr = some rr;
    expected_costs_bps = costs;
    confidence = confidence;
    score = nat 0;
    reasons = reason ∷ [];
    decision_id = none;
  }

  -- RiskOff, which always trades nothing: aimos/execution/plugins/risk_off.py
  abbrev pub risk_off : MarketUnderstanding F → TradePlan F
  risk_off mu = no_trade_plan "RiskOff" mu.symbol (said "do-nothing baseline" ∷ [])
