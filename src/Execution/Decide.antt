-- ===== src/Execution/Decide.antt =====
-- The execution layer's decision: ExecutionLayer of aimos/execution/decide.py. What raises is `none`. The
-- plan that the evaluator selects, that the sizer sets a size in and that the risk manager hands on is
-- one object in the code; here it is the plan that each of them gives.
pub mod Safe
use aimos.Prelude.{
  Bool, true, false, not, ◌||◌, Option, none, some, List, [], ◌∷◌, ◌++◌, or_else, if◌then◌else◌,
}
use aimos.Prelude.Floats.{Floats, ◌⊕◌, ◌⊖◌, ◌⊗◌, ◌⊘◌, ◌≤?◌, nat, truthy}
use aimos.Schemas.{is_no_trade, TradePlan, MarketUnderstanding, ExecContext}
use aimos.Execution.Risk.{RiskCfg, RiskState, no_trade_plan, check}
use aimos.Execution.Evaluator.{EvaluatorCfg, evaluate}
use aimos.Execution.Sizer.{SizerCfg, SizingInputs, SizingResult, size}

-- A strategy plugin, as `decide` uses it.
pub record Plugin (F : Type 0) : Type 0 where
  pub can_trade : MarketUnderstanding F → Bool
  pub propose : MarketUnderstanding F → ExecContext F → Option (Option (TradePlan F))

pub record ExecutionLayer (F : Type 0) : Type 0 where
  pub plugins : List (Plugin F)
  pub evaluator : EvaluatorCfg F
  pub sizer : SizerCfg F
  pub risk_manager : RiskCfg F

module _ {F : Type 0} ⦃fl : Floats F⦄ where
  -- `SizingInputs()` and `RiskState()`
  abbrev pub no_inputs : SizingInputs F
  no_inputs = record {
    volume_24h_usd = none;
    book_depth_1pct_usd = none;
    exit_levels = none;
    mid = none;
    min_notional_usd = nat 0;
  }

  abbrev pub no_risk : RiskState F
  no_risk = record {
    open_risk_pct = nat 0;
    open_positions = 0;
    day_pnl_pct = nat 0;
    kill_switch = false;
    is_tier1 = true;
    is_cross_venue = false;
    intersection_ok = true;
    is_locked = false;
    bucket_risk_pct = nat 0;
    per_asset_alloc_pct = nat 0;
    bucket_alloc_pct = nat 0;
    reserve_pct = nat 100;
  }

  -- Step 1, with the candidates so far.
  unfoldable pub collect :
      List (Plugin F)
      → MarketUnderstanding F
      → ExecContext F
      → List (TradePlan F)
      → Option (List (TradePlan F))
  collect [] mu ctx candidates = some candidates
  collect (p ∷ ps) mu ctx candidates =
      let unchanged = collect ps mu ctx candidates in
      if not (p.can_trade mu) then unchanged else elim (p.propose mu ctx) [
        | none ↦ none
        | some proposal ↦ elim proposal [
          | none ↦ unchanged
          | some plan ↦ collect ps mu ctx (candidates ++ plan ∷ [])
        ]
      ]

  abbrev pub or_idle : MarketUnderstanding F → List (TradePlan F) → List (TradePlan F)
  or_idle mu [] = no_trade_plan "RiskOff" mu.symbol [] ∷ []
  or_idle mu (c ∷ cs) = c ∷ cs

  -- `_new_risk_pct`
  unfoldable pub new_risk_pct : TradePlan F → ExecContext F → F
  new_risk_pct plan ctx = elim plan.size_quote [
    | none ↦ nat 0
    | some quote ↦ elim plan.entry [
      | none ↦ nat 0
      | some entry ↦ elim plan.stop_loss [
        | none ↦ nat 0
        | some stop ↦
            if not (truthy quote) || not (truthy entry) || (ctx.equity_usdt ≤? nat 0)
            then nat 0
            else ((quote ⊗ (fl.abs (entry ⊖ stop) ⊘ entry)) ⊘ ctx.equity_usdt) ⊗ nat 100
      ]
    ]
  ]

  -- Steps 3 and 4, with what the sizer gave for the winner.
  unfoldable pub finish :
      ExecutionLayer F
      → MarketUnderstanding F
      → ExecContext F
      → RiskState F
      → TradePlan F
      → SizingResult F × TradePlan F
      → TradePlan F
  finish layer mu ctx state winner (result, plan) =
      if result.rejected
      then no_trade_plan winner.plugin mu.symbol (winner.reasons ++ result.reasons)
      else (check layer.risk_manager plan mu ctx state (new_risk_pct plan ctx)).plan

  -- Steps 2 to 4.
  unfoldable pub choose :
      ExecutionLayer F
      → MarketUnderstanding F
      → ExecContext F
      → SizingInputs F
      → RiskState F
      → List (TradePlan F)
      → Option (TradePlan F)
  choose layer mu ctx inputs state candidates =
      let winner = evaluate layer.evaluator candidates mu in
      if is_no_trade winner.action then some winner else elim (size layer.sizer winner ctx inputs) [
        | none ↦ none
        | some sized ↦ some (finish layer mu ctx state winner sized)
      ]

  unfoldable pub decide :
      ExecutionLayer F
      → MarketUnderstanding F
      → ExecContext F
      → Option (SizingInputs F)
      → Option (RiskState F)
      → Option (TradePlan F)
  decide layer mu ctx inputs state = elim (collect layer.plugins mu ctx []) [
    | none ↦ none
    | some candidates ↦
        choose layer mu ctx (or_else inputs no_inputs) (or_else state no_risk)
          (or_idle mu candidates)
  ]
