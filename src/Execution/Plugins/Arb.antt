-- ===== src/Execution/Plugins/Arb.antt =====
-- CrossExchangeArb and MomentumScalp: aimos/execution/plugins/cross_exchange_arb.py and
-- momentum_scalp.py.
use aimos.Prelude.{
  String, Bool, true, false, not, ◌&&◌, ◌||◌, Option, none, some, str_eq, if◌then◌else◌,
}
use aimos.Prelude.Floats.{Floats, ◌⊕◌, ◌⊖◌, ◌⊗◌, ◌⊘◌, ◌<?◌, ◌≤?◌, nat, negate}
use aimos.Schemas.{
  Action, long, short, bullish, bearish, neutral, cross_arb, scalp_at, TradePlan,
  MarketUnderstanding, ExecContext,
}
use aimos.Execution.Plugins.{estimate_costs_bps, proposal}

pub record ArbCfg (F : Type 0) : Type 0 where
  pub min_confidence : F
  pub min_coin_health : F
  pub extra_margin_bps : F
  pub stop_bps : F
  pub arb_confidence : F

pub record ScalpCfg (F : Type 0) : Type 0 where
  pub min_confidence : F
  pub max_spread_bps : F
  pub book_imbalance_min : F
  pub sl_atr_mult : F
  pub min_rr : F

-- The truth value of a venue's name, `bool(name)`.
abbrev pub is_named : String → Bool
is_named name = not (str_eq name "")

module _ {F : Type 0} ⦃fl : Floats F⦄ where
  unfoldable pub arb_plan :
      ArbCfg F
      → MarketUnderstanding F
      → ExecContext F
      → F
      → String
      → String
      → F
      → Option (TradePlan F)
  arb_plan cfg mu ctx price buy sell bps =
      let net_bps = (bps ⊖ estimate_costs_bps ctx) ⊖ cfg.extra_margin_bps in
      let tp = price ⊗ (nat 1 ⊕ (net_bps ⊘ nat 10000)) in
      let stop = price ⊗ (nat 1 ⊖ (cfg.stop_bps ⊘ nat 10000)) in
      if not (is_named buy) || not (is_named sell) || str_eq buy sell
      then none
      else if net_bps ≤? nat 0
      then none
      else if cfg.stop_bps ≤? nat 0
      then none
      else some (
          proposal "CrossExchangeArb" mu long price stop tp (net_bps ⊘ cfg.stop_bps) (nat 0)
            cfg.arb_confidence (cross_arb buy sell bps net_bps))

  unfoldable pub cross_exchange_arb :
      ArbCfg F → MarketUnderstanding F → ExecContext F → Option (TradePlan F)
  cross_exchange_arb cfg mu ctx = elim mu.key_levels.dislocation [
    | none ↦ none
    | some d ↦ elim mu.key_levels.price [
      | none ↦ none
      | some price ↦ elim d.bps [
        | none ↦ none
        | some bps ↦ elim d.buy_venue [
          | none ↦ none
          | some buy ↦ elim d.sell_venue [
            | none ↦ none
            | some sell ↦ if price ≤? nat 0 then none else arb_plan cfg mu ctx price buy sell bps
          ]
        ]
      ]
    ]
  ]

  unfoldable pub scalp_plan :
      ScalpCfg F
      → MarketUnderstanding F
      → ExecContext F
      → Action
      → F
      → F
      → Bool
      → Option (TradePlan F)
  scalp_plan cfg mu ctx action entry stop is_up =
      let risk = fl.abs (entry ⊖ stop) in
      let tp = if is_up then entry ⊕ (cfg.min_rr ⊗ risk) else entry ⊖ (cfg.min_rr ⊗ risk) in
      let costs = (ctx.fee_maker_bps ⊕ ctx.fee_taker_bps) ⊕ ctx.slippage_exit_bps in
      if risk ≤? nat 0
      then none
      else some (
          proposal "MomentumScalp" mu action entry stop tp cfg.min_rr costs mu.confidence
            (scalp_at action entry))

  -- With every value of the micro-context there.
  unfoldable pub scalp_of :
      ScalpCfg F
      → MarketUnderstanding F
      → ExecContext F
      → F
      → F
      → F
      → Bool
      → F
      → F
      → Option (TradePlan F)
  scalp_of cfg mu ctx spread_bps atr1m imbalance vol_spike best_bid best_ask =
      let away = cfg.sl_atr_mult ⊗ atr1m in
      if (atr1m ≤? nat 0) || (cfg.max_spread_bps <? spread_bps)
      then none
      else elim mu.direction_bias [
        | bullish ↦
            if vol_spike && (cfg.book_imbalance_min <? imbalance)
            then scalp_plan cfg mu ctx long best_bid (best_bid ⊖ away) true
            else none
        | bearish ↦
            if vol_spike && (imbalance <? negate cfg.book_imbalance_min)
            then scalp_plan cfg mu ctx short best_ask (best_ask ⊕ away) false
            else none
        | neutral ↦ none
      ]

  unfoldable pub momentum_scalp :
      ScalpCfg F → MarketUnderstanding F → ExecContext F → Option (TradePlan F)
  momentum_scalp cfg mu ctx = elim mu.key_levels.scalp [
    | none ↦ none
    | some s ↦ elim s.spread_bps [
      | none ↦ none
      | some spread_bps ↦ elim s.atr1m [
        | none ↦ none
        | some atr1m ↦ elim s.book_imbalance [
          | none ↦ none
          | some imbalance ↦ elim s.best_bid [
            | none ↦ none
            | some best_bid ↦ elim s.best_ask [
              | none ↦ none
              | some best_ask ↦
                  scalp_of cfg mu ctx spread_bps atr1m imbalance s.volume_spike best_bid best_ask
            ]
          ]
        ]
      ]
    ]
  ]
