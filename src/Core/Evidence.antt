-- ===== src/Core/Evidence.antt =====
-- The frozen registry of evidence names: aimos/core/evidence_registry.py. An unregistered name raises,
-- which is `none`.
use Prim.Native.String.{◌++◌ as concat}
use text.Mathlib.Text.{starts_with}
use aimos.Prelude.{
  ℕ, suc, String, Bool, ◌||◌, Option, none, some, List, [], ◌∷◌, map, if◌then◌else◌, any_of,
}
use aimos.Prelude.Dict.{Dict, lookup, contains}

pub data DirectionSemantics : Type 0 where
  directional contrarian neutral_only : DirectionSemantics

-- A name with its engine, its semantics and its meaning.
pub record Declared : Type 0 where
  pub engine : String
  pub direction : DirectionSemantics
  pub meaning : String

abbrev declared : String × String × DirectionSemantics × String → String × Declared
declared (name, engine, direction, meaning) =
    (name, record { engine = engine; direction = direction; meaning = meaning })

abbrev rows : List (String × String × DirectionSemantics × String)
rows =
    ("structure_trend", "price_action", directional, "HH/HL vs LH/LL structure")
    ∷ ("bos", "price_action", directional, "break of structure")
    ∷ ("choch", "price_action", directional, "change of character (BOS vs trend)")
    ∷ ("fvg_nearby", "price_action", directional, "price near unfilled fair-value gap")
    ∷ ("range_bound", "price_action", neutral_only, "compressed range detected")
    ∷ ("volume_spike", "volume", directional, "rel_vol > threshold")
    ∷ ("volume_accel", "volume", directional, "volume acceleration z-score")
    ∷ ("buy_pressure", "volume", directional, "candle buy-fraction proxy")
    ∷ ("absorption", "volume", directional, "high vol, small body — push absorbed")
    ∷ ("rsi_overbought", "momentum", contrarian, "RSI > overbought → bearish MR")
    ∷ ("rsi_oversold", "momentum", contrarian, "RSI < oversold → bullish MR")
    ∷ ("macd_cross", "momentum", directional, "MACD histogram sign flip")
    ∷ ("momentum", "momentum", directional, "ROC z-score")
    ∷ ("ema_slope", "momentum", directional, "EMA(50) slope / ATR")
    ∷ ("momentum_decay", "momentum", directional, "ROC magnitude fading vs trend")
    ∷ ("vol_compression", "volatility", neutral_only, "ATR14/ATR100 low")
    ∷ ("vol_expansion", "volatility", neutral_only, "ATR14/ATR100 high")
    ∷ ("vol_shock", "volatility", neutral_only, "single-bar TR > 3x ATR")
    ∷ ("spread", "liquidity", neutral_only, "spread_bps z-score")
    ∷ ("thin_book", "liquidity", neutral_only, "depth below 25th percentile")
    ∷ ("slippage_estimate", "liquidity", neutral_only, "simulated slippage bps (meta)")
    ∷ ("book_imbalance", "orderbook", directional, "mean book imbalance")
    ∷ ("bid_wall", "orderbook", directional, "large resting bid (bullish)")
    ∷ ("ask_wall", "orderbook", directional, "large resting ask (bearish)")
    ∷ ("book_absorption", "orderbook", directional, "wall held, price bounced")
    ∷ ("funding_extreme", "funding", contrarian, "|funding z| high → contrarian")
    ∷ ("funding_trend", "funding", directional, "funding slope (trend confirm)")
    ∷ ("oi_divergence", "funding", directional, "price vs OI divergence")
    ∷ ("long_short_ratio", "funding", contrarian, "LS ratio extreme → contrarian")
    ∷ ("large_buys", "whale", directional, "net large-print buy flow")
    ∷ ("large_sells", "whale", directional, "net large-print sell flow")
    ∷ ("exchange_inflow", "whale", directional, "deposits to exchange (bearish)")
    ∷ ("exchange_outflow", "whale", directional, "withdrawals from exchange (bullish)")
    ∷ ("active_addresses", "onchain", directional, "active-address z-score")
    ∷ ("stablecoin_inflow", "onchain", directional, "stablecoin exchange inflow")
    ∷ ("fear_greed", "sentiment", contrarian, "F&G extreme → contrarian")
    ∷ ("news_tone", "sentiment", directional, "keyword-lexicon tone")
    ∷ ("headline_shock", "sentiment", directional, "hack/exploit/ban → risk gate")
    ∷ ("price_dislocation", "cross_exchange", neutral_only, "max pairwise mid dev bps")
    ∷ ("lead_lag", "cross_exchange", directional, "leading-venue move (stub P1)")
    ∷ ("venue_divergence_volume", "cross_exchange", neutral_only, "single-venue vol spike flag")
    ∷ ("btc_beta", "correlation", neutral_only, "rolling beta vs BTC (meta)")
    ∷ ("btc_pull", "correlation", directional, "large BTC move drags alt")
    ∷ ("decoupling", "correlation", neutral_only, "corr with BTC collapsed")
    ∷ ("session", "time", neutral_only, "asia/europe/us session (meta)")
    ∷ ("weekend", "time", neutral_only, "weekend flag (+risk)")
    ∷ ("funding_window", "time", neutral_only, "near funding settlement")
    ∷ ("news_hack", "sentiment_llm", directional, "LLM-classified hack event")
    ∷ ("news_regulatory", "sentiment_llm", directional, "LLM-classified regulatory event")
    ∷ ("news_etf_flows", "sentiment_llm", directional, "LLM-classified ETF flows")
    ∷ ("news_listing", "sentiment_llm", directional, "LLM-classified listing")
    ∷ ("news_delisting", "sentiment_llm", directional, "LLM-classified delisting")
    ∷ ("news_partnership", "sentiment_llm", directional, "LLM-classified partnership")
    ∷ ("news_macro", "sentiment_llm", directional, "LLM-classified macro event")
    ∷ ("news_exploit", "sentiment_llm", directional, "LLM-classified exploit")
    ∷ ("news_bankruptcy", "sentiment_llm", directional, "LLM-classified bankruptcy")
    ∷ ("news_upgrade", "sentiment_llm", directional, "LLM-classified upgrade")
    ∷ ("news_rumor", "sentiment_llm", directional, "LLM-classified rumor")
    ∷ ("news_other", "sentiment_llm", directional, "LLM-classified other event")
    ∷ ("liquidation_cascade", "streams", contrarian, "liquidation notional z → fade")
    ∷ ("ignition", "ignition", directional, "violent repricing detected (may be gated NEUTRAL)")
    ∷ ("factor", "factor_engine", directional, "cross-sectional factor z (family prefix)")
    ∷ []

-- `_REGISTRY`, in the order of the feature vector.
abbrev pub registry : Dict Declared
registry = map declared rows

-- `EVIDENCE_NAMES`
abbrev pub evidence_names : List String
evidence_names = map (λ row. row.0) registry

abbrev pub family_prefixes : List String
family_prefixes = "factor" ∷ []

abbrev pub is_member : String → String → Bool
is_member name family = starts_with name (concat family "_")

unfoldable pub is_registered : String → Bool
is_registered name = contains name registry || any_of (is_member name) family_prefixes

unfoldable pub require_registered : String → Option String
unfolding is_registered
require_registered name = if is_registered name then some name else none

-- The loop of `semantics` over the families.
unfoldable pub family_semantics : String → List String → Option DirectionSemantics
family_semantics name [] = none
family_semantics name (family ∷ families) =
    let rest = family_semantics name families in
    if is_member name family then direction_of (lookup family registry) else rest
  where
    direction_of : Option Declared → Option DirectionSemantics
    direction_of none = none
    direction_of (some d) = some d.direction

unfoldable pub semantics : String → Option DirectionSemantics
unfolding family_semantics
semantics name = elim (lookup name registry) [
  | some d ↦ some d.direction
  | none ↦ family_semantics name family_prefixes
]

-- `{name: i for i, name in enumerate(names)}`, counted from a number.
unfoldable pub enumerated : ℕ → List String → Dict ℕ
enumerated i [] = []
enumerated i (name ∷ names) = (name, i) ∷ enumerated (suc i) names

unfoldable pub feature_index : Dict ℕ
unfolding enumerated
feature_index = enumerated 0 evidence_names
