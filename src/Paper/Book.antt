-- ===== src/Paper/Book.antt =====
-- The orders and entries of aimos/execution/broker/paper.py: `place`, `cancel_all`, `_fill_price`,
-- `_open_position`.
use Prim.Native.String.{◌++◌ as concat}
use aimos.Prelude.{
  String, Bool, true, false, not, ◌&&◌, ◌||◌, Option, none, some, List, [], ◌∷◌, ◌++◌, str_eq, keep,
  if◌then◌else◌, or_else,
}
use aimos.Prelude.Int.{ℤ}
use aimos.Prelude.Dict.{Dict, insert}
use aimos.Prelude.Floats.{Floats, ◌⊖◌, ◌⊗◌, ◌⊘◌, ◌≤?◌, nat, truthy}
use aimos.Schemas.{Action, is_no_trade, is_long, long, short, TradePlan, Position}

pub data FillKind : Type 0 where
  entry sl tp : FillKind

abbrev pub is_entry : FillKind → Bool
is_entry entry = true
is_entry _ = false

pub record Fill (F : Type 0) : Type 0 where
  pub decision_id : String
  pub symbol : String
  pub side : Action
  pub qty : F
  pub price : F
  pub fee_quote : F
  pub kind : FillKind
  pub venue : String
  pub ts : ℤ
  pub pnl_quote : F
  pub pnl_r : F
  pub max_adverse_r : F
  pub max_favorable_r : F
  pub plugin : String

pub record OutcomeRecord (F : Type 0) : Type 0 where
  pub decision_id : String
  pub exit_time : ℤ
  pub exit_price : F
  pub pnl_r : F
  pub pnl_quote : F
  pub max_adverse_r : F
  pub max_favorable_r : F
  pub exit_reason : FillKind

pub record Bar (F : Type 0) : Type 0 where
  pub open_price : F
  pub high : F
  pub low : F
  pub close : F

pub record PendingOrder (F : Type 0) : Type 0 where
  pub plan : TradePlan F
  pub is_limit : Bool

pub record PaperBroker (F : Type 0) : Type 0 where
  pub cash : F
  pub realized : F
  pub taker_bps : F
  pub maker_bps : F
  pub taker : Bool
  pub venue : String
  pub pending : List (PendingOrder F)
  pub positions : Dict (Position F)
  pub fills : List (Fill F)
  pub closed_trades_r : List F
  pub pending_outcomes : List (OutcomeRecord F)
  pub excursions : Dict (F × F)
  pub last_mark : Dict F

-- What `place` answers: rejected, or open under an id.
pub data Placed : Type 0 where
  no_trade_or_no_size : Placed
  opened : String → Placed

module _ {F : Type 0} ⦃fl : Floats F⦄ where
  -- `_order_id`
  abbrev pub order_id : TradePlan F → String
  order_id plan = concat plan.symbol (concat "-" plan.plugin)

  abbrev pub has_size : TradePlan F → Bool
  has_size plan = elim plan.size_quote [ none ↦ false | some q ↦ truthy q ]

  unfoldable pub place_paper : TradePlan F → PaperBroker F → Placed × PaperBroker F
  place_paper plan b =
      if is_no_trade plan.action || not (has_size plan) then (no_trade_or_no_size, b) else (
        opened (order_id plan),
        record b {
          pending =
              b.pending
              ++ record {
                plan = plan;
                is_limit = str_eq plan.plugin "Pullback" || str_eq plan.plugin "MeanReversion";
              }
                ∷ [];
        },
      )

  unfoldable pub cancel_all : String → PaperBroker F → PaperBroker F
  cancel_all symbol b = record b {
    pending = keep (λ p. not (str_eq p.plan.symbol symbol)) b.pending;
  }

  unfoldable pub drain_outcomes : PaperBroker F → List (OutcomeRecord F) × PaperBroker F
  drain_outcomes b = (b.pending_outcomes, record b { pending_outcomes = [] })

  -- `_fee_quote`
  abbrev pub fee_quote : F → PaperBroker F → F
  fee_quote notional b = (notional ⊗ (if b.taker then b.taker_bps else b.maker_bps)) ⊘ nat 10000

  -- `_fill_price`
  unfoldable pub fill_price : PendingOrder F → Bar F → Option F
  fill_price p bar = if not p.is_limit then some bar.open_price else elim p.plan.entry [
    | none ↦ none
    | some limit ↦ if (bar.low ≤? limit) && (limit ≤? bar.high) then some limit else none
  ]

  -- `x or y` on an optional float
  abbrev or_float : Option F → F → F
  or_float none y = y
  or_float (some x) y = if truthy x then x else y

  abbrev pub new_position : TradePlan F → F → ℤ → Position F
  new_position plan price now = record {
    symbol = plan.symbol;
    venue = "paper";
    side = if is_long plan.action then long else short;
    qty = or_else plan.size_quote (nat 0) ⊘ price;
    entry = price;
    stop = or_float plan.stop_loss price;
    tp = plan.take_profit;
    opened_at = now;
    plugin = plan.plugin;
    decision_id = elim plan.decision_id [
      | none ↦ order_id plan
      | some d ↦ if str_eq d "" then order_id plan else d
    ];
  }

  -- `_open_position`
  unfoldable pub open_position : TradePlan F → F → ℤ → PaperBroker F → PaperBroker F
  open_position plan price now b =
      let fee = fee_quote (or_else plan.size_quote (nat 0)) b in
      let pos = new_position plan price now in
      record b {
        cash = b.cash ⊖ fee;
        positions = insert plan.symbol pos b.positions;
        excursions = insert pos.decision_id (nat 0, nat 0) b.excursions;
        fills =
            b.fills
            ++ record {
              decision_id = pos.decision_id;
              symbol = plan.symbol;
              side = pos.side;
              qty = pos.qty;
              price = price;
              fee_quote = fee;
              kind = entry;
              venue = b.venue;
              ts = now;
              pnl_quote = nat 0;
              pnl_r = nat 0;
              max_adverse_r = nat 0;
              max_favorable_r = nat 0;
              plugin = plan.plugin;
            }
              ∷ [];
      }
