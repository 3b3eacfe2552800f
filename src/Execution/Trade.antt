-- ===== src/Execution/Trade.antt =====
-- The trade manager: aimos/execution/trade_manager.py. Thresholds come with the configuration; times
-- are microseconds.
pub mod Stops
pub mod Events
mod Tests
use aimos.Prelude.{
  ℕ, suc, String, Bool, true, false, not, ◌&&◌, ◌||◌, Option, none, some, List, [], ◌∷◌, ◌++◌,
  if◌then◌else◌,
}
use aimos.Prelude.Int.{ℤ, pos, ◌-ℤ◌, ltb_ℤ}
use aimos.Prelude.Floats.{Floats, ◌⊕◌, ◌⊖◌, ◌⊗◌, ◌⊘◌, ◌<?◌, ◌≤?◌, nat, fmax, fmin}
use aimos.Schemas.{
  Action, is_long, is_bullish, is_bearish, crash, Regime, Behavior, manipulation,
  MarketUnderstanding, Position,
}

pub record TradeCfg (F : Type 0) : Type 0 where
  pub breakeven_r : F
  pub trail_activate_r : F
  pub trail_atr_mult : F
  pub partial_tp_r : F
  pub partial_tp_pct : F
  pub thesis_exit_confidence : F
  pub time_stop_hold_mult : F
  pub time_stop_min_r : F
  pub exit_degrade_mult : Option F

pub record ManagementState (F : Type 0) : Type 0 where
  pub initial_risk : F
  pub current_stop : F
  pub expected_hold_minutes : ℤ
  pub breakeven_done : Bool
  pub partial_done : Bool
  pub trail_active : Bool

pub data Why : Type 0 where
  regime_flip crashed manipulated : Why

-- The `kind` of a `ManagementEvent`, with the `new_stop`, `closed_qty` or `detail` that it carries.
pub data Kind (F : Type 0) : Type 0 where
  breakeven : F → Kind F
  partial_tp : F → Kind F
  trail : F → Kind F
  thesis_exit : Why → Kind F
  time_stop : F → Kind F
  liquidity_tighten : F → F → Kind F

pub record ManagementEvent (F : Type 0) : Type 0 where
  pub decision_id : String
  pub timestamp : ℤ
  pub kind : Kind F

abbrev pub is_crash : Regime → Bool
is_crash crash = true
is_crash _ = false

abbrev pub is_manipulation : Behavior → Bool
is_manipulation manipulation = true
is_manipulation _ = false

-- What one call of `step` is given, beside the position and its state.
pub record Tick (F : Type 0) : Type 0 where
  pub price : F
  pub atr : F
  pub mu : Option (MarketUnderstanding F)
  pub now : ℤ
  pub exit_slippage_bps : Option F
  pub entry_exit_slippage_bps : Option F

module _ {F : Type 0} ⦃fl : Floats F⦄ where
  -- `_ev`
  abbrev pub ev : Position F → ℤ → Kind F → ManagementEvent F
  ev p now k = record { decision_id = p.decision_id; timestamp = now; kind = k }

  -- `_r_multiple`
  unfoldable pub r_multiple : Position F → F → ManagementState F → F
  r_multiple p price state =
      if state.initial_risk ≤? nat 0
      then nat 0
      else if is_long p.side
      then (price ⊖ p.entry) ⊘ state.initial_risk
      else (p.entry ⊖ price) ⊘ state.initial_risk

  -- `_thesis_exit`
  unfoldable pub thesis_reason :
      TradeCfg F → Position F → Option (MarketUnderstanding F) → Option Why
  thesis_reason cfg p none = none
  thesis_reason cfg p (some mu) =
      let opposed =
        (is_long p.side && is_bearish mu.direction_bias)
        || (not (is_long p.side) && is_bullish mu.direction_bias) in
      let flip = opposed && (cfg.thesis_exit_confidence ≤? mu.confidence) in
      if flip
      then some regime_flip
      else if is_crash mu.regime
      then some crashed
      else if is_manipulation mu.behavior
      then some manipulated
      else none

  -- `_time_stop`: whether the position is held too long for what it has made.
  unfoldable pub time_stop_due : TradeCfg F → Position F → ℤ → F → ManagementState F → Bool
  time_stop_due cfg p now r state = elim state.expected_hold_minutes [
    | pos (suc n) ↦
        ltb_ℤ (fl.minutes (cfg.time_stop_hold_mult ⊗ nat (suc n))) (now -ℤ p.opened_at)
        && (r <? cfg.time_stop_min_r)
    | _ ↦ false
  ]

  -- The default of `exit_degrade_mult` is 2.0.
  abbrev pub degrade_mult : TradeCfg F → F
  degrade_mult cfg = elim cfg.exit_degrade_mult [ none ↦ nat 2 | some m ↦ m ]

  -- `_liquidity`
  unfoldable pub liquidity : TradeCfg F → Position F → Tick F → List (ManagementEvent F)
  liquidity cfg p t = elim t.exit_slippage_bps [
    | none ↦ []
    | some out ↦ elim t.entry_exit_slippage_bps [
      | none ↦ []
      | some inn ↦
          if inn ≤? nat 0
          then []
          else if (degrade_mult cfg ⊗ inn) <? out
          then ev p t.now (liquidity_tighten out inn) ∷ []
          else []
    ]
  ]

  -- The break-even, partial and trailing rules of `step`, one after the other, each with the events
  -- so far.
  unfoldable pub breakeven_rule :
      TradeCfg F
      → Position F
      → ℤ
      → F
      → ManagementState F
      → List (ManagementEvent F) × ManagementState F
  breakeven_rule cfg p now r state =
      if not state.breakeven_done && (cfg.breakeven_r ≤? r)
      then (
        ev p now (breakeven p.entry) ∷ [],
        record state { current_stop = p.entry; breakeven_done = true },
      )
      else ([], state)

  unfoldable pub partial_rule :
      TradeCfg F
      → Position F
      → ℤ
      → F
      → ManagementState F
      → List (ManagementEvent F) × ManagementState F
  partial_rule cfg p now r state =
      if not state.partial_done && (cfg.partial_tp_r ≤? r)
      then (
        ev p now (partial_tp (p.qty ⊗ (cfg.partial_tp_pct ⊘ nat 100))) ∷ [],
        record state { partial_done = true },
      )
      else ([], state)

  -- The stop that the trailing rule proposes.
  abbrev pub trailed_stop : TradeCfg F → Position F → Tick F → F → F
  trailed_stop cfg p t stop =
      let d = cfg.trail_atr_mult ⊗ t.atr in
      if is_long p.side then fmax stop (t.price ⊖ d) else fmin stop (t.price ⊕ d)

  unfoldable pub trail_rule :
      TradeCfg F
      → Position F
      → Tick F
      → F
      → ManagementState F
      → List (ManagementEvent F) × ManagementState F
  trail_rule cfg p t r state =
      let active = if cfg.trail_activate_r ≤? r then true else state.trail_active in
      let new_stop = trailed_stop cfg p t state.current_stop in
      if active && (nat 0 <? t.atr)
      then (if not (fl.eq new_stop state.current_stop)
          then (
            ev p t.now (trail new_stop) ∷ [],
            record state { trail_active = active; current_stop = new_stop },
          )
          else ([], record state { trail_active = active }))
      else ([], record state { trail_active = active })

  -- The rules for a position that goes on.
  unfoldable pub manage :
      TradeCfg F
      → Position F
      → Tick F
      → F
      → ManagementState F
      → List (ManagementEvent F) × ManagementState F
  manage cfg p t r s0 =
      let (e1, s1) = breakeven_rule cfg p t.now r s0 in
      let (e2, s2) = partial_rule cfg p t.now r s1 in
      let (e3, s3) = trail_rule cfg p t r s2 in (e1 ++ (e2 ++ (e3 ++ liquidity cfg p t)), s3)

  -- `TradeManager.step`
  unfoldable pub step :
      TradeCfg F
      → Position F
      → Tick F
      → ManagementState F
      → List (ManagementEvent F) × ManagementState F
  step cfg p t state =
      let r = r_multiple p t.price state in
      elim (thesis_reason cfg p t.mu) [
        | some why ↦ (ev p t.now (thesis_exit why) ∷ [], state)
        | none ↦
            if time_stop_due cfg p t.now r state
            then (ev p t.now (time_stop r) ∷ [], state)
            else manage cfg p t r state
      ]
