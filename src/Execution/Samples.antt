-- ===== src/Execution/Samples.antt =====
-- Sample values for the tests of the execution layer, over the fixed-point instance.
use aimos.Prelude.{none, some, [], ◌∷◌}
use aimos.Prelude.Int.{ℤ, pos}
use aimos.Prelude.Floats.{fixed, nat}
use aimos.Schemas.{
  long, neutral, breakout, unclear, TradePlan, MarketUnderstanding, ExecContext, Position,
}

abbrev pub plan : TradePlan ℤ
plan = record {
  plugin = "Breakout";
  symbol = "BTC/USDT";
  action = long;
  entry = some (nat 100);
  stop_loss = some (nat 95);
  take_profit = some (nat 115);
  size_quote = some (nat 50);
  expected_rr = some (nat 3);
  expected_costs_bps = nat 10;
  confidence = fixed.decimal 6 1;
  score = nat 0;
  reasons = [];
  decision_id = none;
}

abbrev pub mu : MarketUnderstanding ℤ
mu = record {
  symbol = "BTC/USDT";
  regime = breakout;
  behavior = unclear;
  behavior_probs = [];
  direction_bias = neutral;
  p_up = fixed.decimal 5 1;
  confidence = fixed.decimal 6 1;
  opportunity_score = nat 70;
  risk_score = nat 30;
  coin_health = nat 80;
  regime_probs = [];
  key_levels = record {
    price = some (nat 100);
    atr = some (nat 2);
    ema50 = some (nat 99);
    vwap30 = none;
    funding_z = none;
    swing_highs = nat 110 ∷ [];
    swing_lows = nat 90 ∷ [];
    dislocation = none;
    scalp = none;
  };
}

abbrev pub ctx : ExecContext ℤ
ctx = record {
  equity_usdt = nat 1000;
  open_positions = [];
  fee_taker_bps = nat 5;
  fee_maker_bps = nat 2;
  slippage_entry_bps = nat 1;
  slippage_exit_bps = nat 1;
  caps = record {
    max_equity_pct_per_asset = nat 10;
    max_pct_of_24h_volume = nat 1;
    max_pct_of_book_depth = nat 5;
    max_exit_slippage_bps = nat 20;
  };
}

abbrev pub position : Position ℤ
position = record {
  symbol = "BTC/USDT";
  venue = "paper";
  side = long;
  qty = nat 2;
  entry = nat 100;
  stop = nat 95;
  tp = some (nat 115);
  opened_at = pos 0;
  plugin = "Breakout";
  decision_id = "d1";
}
