-- ===== src/Schemas.antt =====
-- The contracts between the layers that the models below use: aimos/core/schemas.py. Fields that no
-- modelled code reads are left out. The texts in `reasons` are values of `Reason`, one constructor
-- for each message, with the numbers that it prints.
use aimos.Prelude.{ℕ, String, Bool, true, false, Option, List, ◌==◌}
use aimos.Prelude.Int.{ℤ}
use aimos.Prelude.Dict.{Dict}

pub data Action : Type 0 where
  long short no_trade : Action

abbrev pub is_no_trade : Action → Bool
is_no_trade no_trade = true
is_no_trade _ = false

abbrev pub is_long : Action → Bool
is_long long = true
is_long _ = false

pub data Direction : Type 0 where
  bullish bearish neutral : Direction

abbrev pub is_bullish : Direction → Bool
is_bullish bullish = true
is_bullish _ = false

abbrev pub is_bearish : Direction → Bool
is_bearish bearish = true
is_bearish _ = false

pub data Regime : Type 0 where
  trending_up trending_down ranging breakout crash recovery : Regime

-- `Regime.value`
abbrev pub regime_value : Regime → String
regime_value trending_up = "trending_up"
regime_value trending_down = "trending_down"
regime_value ranging = "ranging"
regime_value breakout = "breakout"
regime_value crash = "crash"
regime_value recovery = "recovery"

abbrev regime_place : Regime → ℕ
regime_place trending_up = 0
regime_place trending_down = 1
regime_place ranging = 2
regime_place breakout = 3
regime_place crash = 4
regime_place recovery = 5

abbrev pub same_regime : Regime → Regime → Bool
same_regime a b = regime_place a == regime_place b

pub data Behavior : Type 0 where
  accumulation distribution continuation manipulation capitulation panic euphoria unclear : Behavior

abbrev behavior_place : Behavior → ℕ
behavior_place accumulation = 0
behavior_place distribution = 1
behavior_place continuation = 2
behavior_place manipulation = 3
behavior_place capitulation = 4
behavior_place panic = 5
behavior_place euphoria = 6
behavior_place unclear = 7

abbrev pub same_behavior : Behavior → Behavior → Bool
same_behavior a b = behavior_place a == behavior_place b

-- The gates of the risk manager, as it names them in a veto.
pub data Veto (F : Type 0) : Type 0 where
  kill_switch_active : Veto F
  risk_score_above : F → Veto F
  protection_locked not_tier1 no_intersection daily_stop_hit max_positions_reached : Veto F
  heat_cap bucket_risk_cap asset_cap bucket_cap reserve_floor : Veto F

pub data Reason (F : Type 0) : Type 0 where
  said : String → Reason F
  vetoed_by : Veto F → Reason F
  no_stop_geometry costs_exceed no_positive_candidate : Reason F
  ev_dropped : F → Reason F
  no_geometry degenerate_stop non_positive_size below_minimum : Reason F
  size_cut : F → String → Reason F
  trend_follow : Action → F → F → F → Reason F
  pullback_to : F → F → Reason F
  breakout_at range_fade : Action → F → F → Reason F
  dca_ladder : ℕ → F → Reason F
  funding_fade : Action → F → Reason F
  cross_arb : String → String → F → F → Reason F
  scalp_at : Action → F → Reason F

pub record TradePlan (F : Type 0) : Type 0 where
  pub plugin : String
  pub symbol : String
  pub action : Action
  pub entry : Option F
  pub stop_loss : Option F
  pub take_profit : Option F
  pub size_quote : Option F
  pub expected_rr : Option F
  pub expected_costs_bps : F
  pub confidence : F
  pub score : F
  pub reasons : List (Reason F)
  pub decision_id : Option String

-- `key_levels["dislocation"]`
pub record Dislocation (F : Type 0) : Type 0 where
  pub buy_venue : Option String
  pub sell_venue : Option String
  pub bps : Option F

-- `key_levels["scalp"]`
pub record ScalpContext (F : Type 0) : Type 0 where
  pub spread_bps : Option F
  pub atr1m : Option F
  pub book_imbalance : Option F
  pub volume_spike : Bool
  pub best_bid : Option F
  pub best_ask : Option F

-- The entries of `key_levels` that the plugins read, each there or not.
pub record KeyLevels (F : Type 0) : Type 0 where
  pub price : Option F
  pub atr : Option F
  pub ema50 : Option F
  pub vwap30 : Option F
  pub funding_z : Option F
  pub swing_highs : List F
  pub swing_lows : List F
  pub dislocation : Option (Dislocation F)
  pub scalp : Option (ScalpContext F)

pub record MarketUnderstanding (F : Type 0) : Type 0 where
  pub symbol : String
  pub regime : Regime
  pub behavior : Behavior
  pub behavior_probs : Dict F
  pub direction_bias : Direction
  pub p_up : F
  pub confidence : F
  pub opportunity_score : F
  pub risk_score : F
  pub coin_health : F
  pub regime_probs : Dict F
  pub key_levels : KeyLevels F

pub record CapacityCaps (F : Type 0) : Type 0 where
  pub max_equity_pct_per_asset : F
  pub max_pct_of_24h_volume : F
  pub max_pct_of_book_depth : F
  pub max_exit_slippage_bps : F

pub record Position (F : Type 0) : Type 0 where
  pub symbol : String
  pub venue : String
  pub side : Action
  pub qty : F
  pub entry : F
  pub stop : F
  pub tp : Option F
  pub opened_at : ℤ
  pub plugin : String
  pub decision_id : String

pub record ExecContext (F : Type 0) : Type 0 where
  pub equity_usdt : F
  pub open_positions : List (Position F)
  pub fee_taker_bps : F
  pub fee_maker_bps : F
  pub slippage_entry_bps : F
  pub slippage_exit_bps : F
  pub caps : CapacityCaps F

pub record BookAggregate (F : Type 0) : Type 0 where
  pub timestamp : ℤ
  pub best_bid : F
  pub best_ask : F
  pub spread_bps : F
  pub bid_depth_usd : F
  pub ask_depth_usd : F
  pub imbalance : F

pub record LargePrint (F : Type 0) : Type 0 where
  pub timestamp : ℤ
  pub symbol : String
  pub side : Direction
  pub notional_usd : F
  pub price : F
