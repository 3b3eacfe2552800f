-- ===== src/Paper.antt =====
-- The paper broker: aimos/execution/broker/paper.py. A bar is the record of its four prices; what the
-- broker writes to disk and reads back, and the history for the dashboard, are left out.
mod Book
pub mod Ledger
pub mod Overwrite
mod Tests
unfoldable pub use Book.*
use Prim.Native.String.{◌++◌ as concat}
use aimos.Prelude.{
  String, Bool, true, false, not, ◌&&◌, ◌||◌, Option, none, some, List, [], ◌∷◌, ◌++◌, str_eq, keep,
  if◌then◌else◌, or_else,
}
use aimos.Prelude.Int.{ℤ}
use aimos.Prelude.Dict.{Dict, lookup, insert, erase}
use aimos.Prelude.Floats.{Floats, ◌⊕◌, ◌⊖◌, ◌⊗◌, ◌⊘◌, ◌<?◌, ◌≤?◌, nat, truthy, negate, fmax, fmin}
use aimos.Schemas.{Action, is_no_trade, is_long, long, short, TradePlan, Position}

module _ {F : Type 0} ⦃fl : Floats F⦄ where
  -- The loop of `_fill_pending`; the first list is `still`.
  unfoldable pub fill_all :
      String
      → Bar F
      → ℤ
      → List (PendingOrder F)
      → List (PendingOrder F)
      → PaperBroker F
      → PaperBroker F
  fill_all symbol bar now still [] b = record b { pending = still }
  fill_all symbol bar now still (p ∷ ps) b =
      let waits = fill_all symbol bar now (still ++ p ∷ []) ps b in
      if not (str_eq p.plan.symbol symbol) then waits else elim (fill_price p bar) [
        | none ↦ waits
        | some price ↦ fill_all symbol bar now still ps (open_position p.plan price now b)
      ]

  -- `_update_excursions`
  unfoldable pub update_excursions : String → Bar F → PaperBroker F → PaperBroker F
  update_excursions symbol bar b = elim (lookup symbol b.positions) [
    | none ↦ b
    | some pos ↦
        let r = fl.abs (pos.entry ⊖ pos.stop) in
        let high_tp : F = elim pos.tp [ none ↦ bar.high | some t ↦ fmin bar.high t ] in
        let low_tp : F = elim pos.tp [ none ↦ bar.low | some t ↦ fmax bar.low t ] in
        let adverse =
          if is_long pos.side
          then (fmax bar.low pos.stop ⊖ pos.entry) ⊘ r
          else (pos.entry ⊖ fmin bar.high pos.stop) ⊘ r in
        let favorable =
          if is_long pos.side then (high_tp ⊖ pos.entry) ⊘ r else (pos.entry ⊖ low_tp) ⊘ r in
        let (mae, mfe) = or_else (lookup pos.decision_id b.excursions) (nat 0, nat 0) in
        if r ≤? nat 0 then b else record b {
          excursions = insert pos.decision_id (fmin mae adverse, fmax mfe favorable) b.excursions;
        }
  ]

  -- The price and the kind of the exit, the stop first.
  unfoldable pub exit_of : Position F → Bar F → Option (F × FillKind)
  exit_of pos bar =
      let take : Option (F × FillKind) = elim pos.tp [
        | none ↦ none
        | some t ↦
            if is_long pos.side
            then (if t ≤? bar.high then some (t, tp) else none)
            else if bar.low ≤? t
            then some (t, tp)
            else none
      ] in
      if is_long pos.side && (bar.low ≤? pos.stop)
      then some (pos.stop, sl)
      else if not (is_long pos.side) && (pos.stop ≤? bar.high)
      then some (pos.stop, sl)
      else take

  abbrev pub signed : Action → F → F
  signed side x = x ⊗ (if is_long side then nat 1 else negate (nat 1))

  -- `_close`
  unfoldable pub close : Position F → F → FillKind → ℤ → PaperBroker F → PaperBroker F
  close pos price kind now b =
      let fee = fee_quote (pos.qty ⊗ price) b in
      let pnl = signed pos.side ((price ⊖ pos.entry) ⊗ pos.qty) ⊖ fee in
      let risk = pos.qty ⊗ fl.abs (pos.entry ⊖ pos.stop) in
      let pnl_r = if nat 0 <? risk then pnl ⊘ risk else nat 0 in
      let (mae, mfe) = or_else (lookup pos.decision_id b.excursions) (nat 0, nat 0) in
      record b {
        cash = b.cash ⊕ pnl;
        realized = b.realized ⊕ pnl;
        closed_trades_r =
            if nat 0 <? risk then b.closed_trades_r ++ pnl_r ∷ [] else b.closed_trades_r;
        excursions = erase pos.decision_id b.excursions;
        pending_outcomes =
            b.pending_outcomes
            ++ record {
              decision_id = pos.decision_id;
              exit_time = now;
              exit_price = price;
              pnl_r = pnl_r;
              pnl_quote = pnl;
              max_adverse_r = mae;
              max_favorable_r = mfe;
              exit_reason = kind;
            }
              ∷ [];
        fills =
            b.fills
            ++ record {
              decision_id = pos.decision_id;
              symbol = pos.symbol;
              side = pos.side;
              qty = pos.qty;
              price = price;
              fee_quote = fee;
              kind = kind;
              venue = b.venue;
              ts = now;
              pnl_quote = pnl;
              pnl_r = pnl_r;
              max_adverse_r = mae;
              max_favorable_r = mfe;
              plugin = pos.plugin;
            }
              ∷ [];
        positions = erase pos.symbol b.positions;
      }

  -- `_check_exits`
  unfoldable pub check_exits : String → Bar F → ℤ → PaperBroker F → PaperBroker F
  check_exits symbol bar now b = elim (lookup symbol b.positions) [
    | none ↦ b
    | some pos ↦ elim (exit_of pos bar) [
      | none ↦ b
      | some (price, kind) ↦ close pos price kind now b
    ]
  ]

  -- `step`
  unfoldable pub step_bar : String → Bar F → ℤ → PaperBroker F → PaperBroker F
  step_bar symbol bar now b0 =
      let b = record b0 { last_mark = insert symbol bar.close b0.last_mark } in
      check_exits symbol bar now
        (update_excursions symbol bar (fill_all symbol bar now [] b.pending b))

  -- `apply_funding`, with `funding_cost_bps` of aimos/backtest/costs.py
  unfoldable pub apply_funding : String → F → F → PaperBroker F → PaperBroker F
  apply_funding symbol rate minutes b = elim (lookup symbol b.positions) [
    | none ↦ b
    | some pos ↦
        let cost_bps = signed pos.side (rate ⊗ (minutes ⊘ nat 480)) in
        let notional = pos.qty ⊗ or_else (lookup symbol b.last_mark) pos.entry in
        record b { cash = b.cash ⊖ ((notional ⊗ cost_bps) ⊘ nat 10000) }
  ]

-- The calls that change the broker.
pub data Op (F : Type 0) : Type 0 where
  places : TradePlan F → Op F
  bars : String → Bar F → ℤ → Op F
  cancels : String → Op F
  drains : Op F

module _ {F : Type 0} ⦃fl : Floats F⦄ where
  abbrev pub step : Op F → PaperBroker F → PaperBroker F
  step (places plan) b = (place_paper plan b).1
  step (bars symbol bar now) b = step_bar symbol bar now b
  step (cancels symbol) b = cancel_all symbol b
  step drains b = (drain_outcomes b).1

  abbrev pub run : List (Op F) → PaperBroker F → PaperBroker F
  run [] b = b
  run (op ∷ ops) b = run ops (step op b)
