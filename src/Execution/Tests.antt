-- ===== src/Execution/Tests.antt =====
-- The theorems of the decision at one market, with the Breakout plugin switched on.
use aimos.Prelude.{
  String, ◌≡◌, refl, ◌⊎◌, Bool, true, false, Option, none, some, List, [], ◌∷◌, All, or_else,
}
use aimos.Prelude.Int.{ℤ}
use aimos.Prelude.Floats.{fixed, nat, ◌<?◌, fixed-IsStrict}
use aimos.Schemas.{bullish, is_no_trade, TradePlan, MarketUnderstanding}
use aimos.Execution.Samples.{plan, mu, ctx}
use aimos.Execution.Risk.{RiskCfg}
use aimos.Execution.Evaluator.{EvaluatorCfg, evaluate}
use aimos.Execution.Choice.{IsChosen, evaluate_chooses}
use aimos.Execution.Sizer.{SizerCfg, SizingResult, size, shrink}
use aimos.Execution.Sizer.Exit.{IsFound, shrink_finds}
use aimos.Execution.Sizer.Sized.{Sizes, size_within_caps}
use aimos.Execution.Decide.{ExecutionLayer, no_inputs, no_risk, collect, or_idle, decide}
use aimos.Execution.Decide.Safe.{IsSafe, decide-IsSafe}
use aimos.Execution.Plugins.Contract.{trades_in, IsProposal}
use aimos.Execution.Plugins.Collected.{collect-IsProposal}
use aimos.Execution.Plugins.Decided.{decide_in_regime}
use aimos.Prelude.Dict.{Dict}
use aimos.Journal.{Journal, Backend, init_schema}
use aimos.Runtime.Pipeline.{Orchestrator, start, check_halt, is_paused, tick, TickResult, Published}
use aimos.Runtime.Decided.{decided_tick, IsDecision, decided_tick-IsDecision}
use aimos.Execution.Plugins.Build.{PluginCfgs, build_plugins}

abbrev evaluator_cfg : EvaluatorCfg ℤ
evaluator_cfg = record {
  weight_ev = fixed.decimal 4 1;
  weight_confidence = fixed.decimal 2 1;
  weight_opportunity = fixed.decimal 2 1;
  weight_risk = fixed.decimal 2 1;
  no_trade_baseline = fixed.decimal 35 2;
  min_trade_score = fixed.decimal 4 1;
  cap_r = nat 2;
  max_cost_fraction = fixed.decimal 25 2;
  losing_r = nat 1;
}

abbrev sizer_cfg : SizerCfg ℤ
sizer_cfg = record {
  base_risk_pct = nat 1;
  scale_lo = fixed.decimal 5 1;
  scale_hi = fixed.decimal 15 1;
  scale_pivot = fixed.decimal 6 1;
}

abbrev risk_cfg : RiskCfg ℤ
risk_cfg = record {
  risk_score_veto = nat 75;
  daily_stop_pct = nat 3;
  max_positions = 4;
  max_portfolio_heat_pct = nat 6;
  max_correlated_bucket_pct = nat 3;
  max_equity_pct_per_asset = nat 10;
  max_bucket_pct = nat 40;
  stablecoin_reserve_floor_pct = nat 20;
}

abbrev half : ℤ
half = fixed.decimal 45 2

abbrev plugin_cfgs : PluginCfgs ℤ
plugin_cfgs = record {
  risk_off_enabled = true;
  trend_following_cfg = record {
    enabled = true;
    cfg = record {
      min_confidence = half;
      min_coin_health = nat 40;
      sl_atr_buffer = half;
      tp_rr = nat 2;
    };
  };
  pullback_cfg = record {
    enabled = true;
    cfg = record {
      min_confidence = half;
      min_coin_health = nat 40;
      ema_proximity_atr = nat 1;
      sl_atr_beyond = nat 1;
      min_rr = nat 2;
    };
  };
  breakout_cfg = record {
    enabled = true;
    cfg = record {
      min_confidence = half;
      min_coin_health = nat 40;
      entry_atr_beyond = fixed.decimal 1 1;
    };
  };
  mean_reversion_cfg = record {
    enabled = true;
    cfg = record { min_confidence = half; min_coin_health = nat 55; sl_atr_beyond = nat 1 };
  };
  smart_dca_cfg = record {
    enabled = true;
    cfg = record {
      min_confidence = half;
      min_coin_health = nat 40;
      tranche_atr_offsets = nat 0 ∷ nat 1 ∷ [];
      tranche_size_pct = nat 40 ∷ nat 60 ∷ [];
      basket_stop_pct = nat 12;
    };
  };
  funding_rate_cfg = record {
    enabled = true;
    cfg = record {
      min_confidence = half;
      min_coin_health = nat 40;
      funding_z_min = nat 2;
      sl_atr_mult = nat 1;
    };
  };
  cross_exchange_arb_cfg = record {
    enabled = false;
    cfg = record {
      min_confidence = nat 0;
      min_coin_health = nat 0;
      extra_margin_bps = nat 4;
      stop_bps = nat 10;
      arb_confidence = half;
    };
  };
  scalp_cfg = record {
    enabled = false;
    cfg = record {
      min_confidence = half;
      max_spread_bps = nat 3;
      book_imbalance_min = half;
      sl_atr_mult = nat 1;
      min_rr = nat 1;
    };
  };
}

abbrev layer : ExecutionLayer ℤ
layer = record {
  plugins = build_plugins plugin_cfgs;
  evaluator = evaluator_cfg;
  sizer = sizer_cfg;
  risk_manager = risk_cfg;
}

-- A market that breaks out upwards.
abbrev market : MarketUnderstanding ℤ
market = record mu { direction_bias = bullish }

abbrev candidates : List (TradePlan ℤ)
candidates = or_else (collect layer.plugins market ctx []) []

abbrev decided : TradePlan ℤ
decided = or_else (decide layer market ctx none none) plan

collected : collect layer.plugins market ctx [] ≡ some candidates
unfolding collect build_plugins aimos.Execution.Plugins.can_trade aimos.Prelude.Int.◌/ℤ◌
    aimos.Execution.Plugins.Range.breakout_trade aimos.Execution.Plugins.Range.breakout_of
    aimos.Execution.Plugins.Range.breakout_plan aimos.Execution.Plugins.Contrarian.funding_rate
collected = refl

trades : is_no_trade decided.action ≡ false
unfolding decide collect build_plugins aimos.Execution.Plugins.can_trade aimos.Prelude.Int.◌/ℤ◌
    aimos.Execution.Plugins.Range.breakout_trade aimos.Execution.Plugins.Range.breakout_of
    aimos.Execution.Plugins.Range.breakout_plan aimos.Execution.Plugins.Contrarian.funding_rate
    aimos.Execution.Decide.choose evaluate aimos.Execution.Evaluator.drop_reason
    aimos.Execution.Evaluator.risk_bps aimos.Execution.Evaluator.cost_fraction_exceeded
    aimos.Execution.Plugins.estimate_costs_bps aimos.Execution.Evaluator.expected_value
    aimos.Prelude.Dict.lookup aimos.Execution.Evaluator.score_of aimos.Execution.Decide.finish
    aimos.Execution.Decide.new_risk_pct aimos.Execution.Risk.alloc_pct aimos.Execution.Risk.check
    size aimos.Prelude.Floats.clamp01
trades = refl

is_decided : decide layer market ctx none none ≡ some decided
unfolding decide collect build_plugins aimos.Execution.Plugins.can_trade aimos.Prelude.Int.◌/ℤ◌
    aimos.Execution.Plugins.Range.breakout_trade aimos.Execution.Plugins.Range.breakout_of
    aimos.Execution.Plugins.Range.breakout_plan aimos.Execution.Plugins.Contrarian.funding_rate
    aimos.Execution.Decide.choose evaluate aimos.Execution.Evaluator.drop_reason
    aimos.Execution.Evaluator.risk_bps aimos.Execution.Evaluator.cost_fraction_exceeded
    aimos.Execution.Plugins.estimate_costs_bps aimos.Execution.Evaluator.expected_value
    aimos.Prelude.Dict.lookup aimos.Execution.Evaluator.score_of aimos.Execution.Decide.finish
    aimos.Execution.Decide.new_risk_pct aimos.Execution.Risk.alloc_pct aimos.Execution.Risk.check
    size aimos.Prelude.Floats.clamp01
is_decided = refl

evaluate_chooses_test :
    let p = evaluate evaluator_cfg candidates market in
    (is_no_trade p.action ≡ true)
    ⊎ (IsChosen evaluator_cfg market candidates p
        × ((p.score <? evaluator_cfg.min_trade_score) ≡ false))
evaluate_chooses_test = evaluate_chooses evaluator_cfg market candidates

abbrev sized : SizingResult ℤ × TradePlan ℤ
sized =
    or_else (size sizer_cfg plan ctx no_inputs)
      (record { size_quote = none; reasons = []; rejected = true }, plan)

is_sized : size sizer_cfg plan ctx no_inputs ≡ some sized
unfolding size aimos.Prelude.Int.◌/ℤ◌
is_sized = refl

size_within_caps_example : Sizes sizer_cfg plan ctx no_inputs sized
size_within_caps_example =
    size_within_caps sizer_cfg plan ctx no_inputs fixed-IsStrict sized is_sized

decide-IsSafe_example :
    IsSafe layer market ctx no_inputs no_risk (or_idle market candidates) decided
decide-IsSafe_example =
    decide-IsSafe layer market ctx none none fixed-IsStrict candidates decided collected is_decided
      trades

collect-IsProposal_example : All (IsProposal market) candidates
collect-IsProposal_example = collect-IsProposal market ctx plugin_cfgs candidates collected

decide_in_regime_example :
    (decided.symbol ≡ market.symbol) × (trades_in decided.plugin market.regime ≡ true)
decide_in_regime_example =
    decide_in_regime market ctx layer plugin_cfgs none none decided fixed-IsStrict refl is_decided
      trades

-- A book so thin that half the size still slips too much.
abbrev thin : List (ℤ × ℤ)
thin = (nat 90, nat 1) ∷ (nat 50, nat 9) ∷ []

abbrev found : ℤ
found = or_else (shrink 2 thin (nat 100) (nat 20) (nat 400)) (nat 0)

is_found : shrink 2 thin (nat 100) (nat 20) (nat 400) ≡ some found
unfolding shrink aimos.Data.Book.simulate_market_order aimos.Prelude.Int.◌/ℤ◌ aimos.Data.Book.walk
is_found = refl

shrink_finds_example : IsFound thin (nat 100) (nat 20) 2 (nat 400) found
shrink_finds_example = shrink_finds thin (nat 100) (nat 20) 2 (nat 400) found is_found

-- A tick of this market in a running system that is neither halted nor paused.
abbrev journal_backend : Backend String
journal_backend = record { text = λ s. s; dumps = λ _. "{}"; sha256 = λ s. s }

abbrev dumped : String → TradePlan ℤ → Dict String
dumped id p = ("decision_id", id) ∷ []

abbrev ticked : TickResult ℤ × Orchestrator × Journal × List Published
ticked = tick journal_backend dumped market.symbol "t1" decided (start false) init_schema

is_ticked :
    decided_tick journal_backend dumped layer market ctx none none "t1" (start false) init_schema
    ≡ some ticked
unfolding decided_tick check_halt is_paused
is_ticked = rw (is_decided) refl

ticked_trades : is_no_trade ticked.0.plan.action ≡ false
unfolding tick check_halt is_paused
ticked_trades = trades

decided_tick-IsDecision_example :
    IsDecision journal_backend dumped layer market ctx none none (start false) candidates ticked.0
decided_tick-IsDecision_example =
    decided_tick-IsDecision journal_backend dumped layer market ctx none none fixed-IsStrict
      candidates "t1" (start false) init_schema ticked collected is_ticked ticked_trades
