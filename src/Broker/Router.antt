-- ===== src/Broker/Router.antt =====
-- The two legs of an arbitrage: aimos/execution/broker/live_router.py.
use aimos.Prelude.{
  ℕ, String, ◌≡◌, ◌⊎◌, Bool, true, false, not, ◌&&◌, none, some, [], arith, if◌then◌else◌,
}
use aimos.Prelude.Dict.{Dict, lookup}
use aimos.Prelude.Floats.{Floats, ◌⊕◌, ◌⊖◌, ◌⊘◌, nat}
use aimos.Schemas.{Action, long, short, is_long, TradePlan}
use aimos.Broker.Live.{OrderResult, venue_missing, rejected, Order, Answer, LiveBroker, place}

pub record ArbLegResult (F : Type 0) : Type 0 where
  pub buy : OrderResult F
  pub sell : OrderResult F
  pub both_filled : Bool
  pub needs_unwind : Bool

abbrev xor : Bool → Bool → Bool
xor true b = not b
xor false b = b

module _ {F S : Type 0} ⦃fl : Floats F⦄ (digest : String → String)
    (create_order : String → Order F → S → Answer F × S) where
  -- `_leg`
  unfoldable pub leg : String → Action → F → F → TradePlan F
  leg symbol action price notional =
      let bracket = price ⊘ nat 100 in
      record {
        plugin = "CrossExchangeArb";
        symbol = symbol;
        action = action;
        entry = some price;
        stop_loss = some (if is_long action then price ⊖ bracket else price ⊕ bracket);
        take_profit = some (if is_long action then price ⊕ bracket else price ⊖ bracket);
        size_quote = some notional;
        expected_rr = some (nat 1);
        expected_costs_bps = nat 0;
        confidence = nat 1;
        score = nat 0;
        reasons = [];
        decision_id = none;
      }

  -- Both legs at brokers that are there: the buy first.
  unfoldable pub place_legs :
      LiveBroker F → LiveBroker F → String → F → F → F → F → ℕ → S → ArbLegResult F × S
  place_legs buy_broker sell_broker symbol notional buy_price sell_price total n s =
      let (buy_res, s1) =
        place digest create_order buy_broker (leg symbol long buy_price notional) total n s in
      let (sell_res, s2) =
        place digest create_order sell_broker (leg symbol short sell_price notional) total n s1 in
      (
        record {
          buy = buy_res;
          sell = sell_res;
          both_filled = buy_res.accepted && sell_res.accepted;
          needs_unwind = xor buy_res.accepted sell_res.accepted;
        },
        s2,
      )

  unfoldable pub execute_arb :
      Dict (LiveBroker F) → String → String → String → F → F → F → F → ℕ → S → ArbLegResult F × S
  execute_arb brokers symbol buy_venue sell_venue notional buy_price sell_price total n s =
      let missing = rejected digest create_order venue_missing in
      let none_placed : ArbLegResult F × S =
        (record { buy = missing; sell = missing; both_filled = false; needs_unwind = false }, s) in
      elim (lookup buy_venue brokers) [
        | none ↦ none_placed
        | some buy_broker ↦ elim (lookup sell_venue brokers) [
          | none ↦ none_placed
          | some sell_broker ↦
              place_legs buy_broker sell_broker symbol notional buy_price sell_price total n s
        ]
      ]

  -- The flags say how many of the two results are accepted: both, one or none.
  pub arb_flags :
      (brokers : Dict (LiveBroker F)) (symbol bv sv : String) (q bp sp total : F) (n : ℕ) (s : S)
      → let r = (execute_arb brokers symbol bv sv q bp sp total n s).0 in
        ((r.both_filled ≡ true)
          × (r.needs_unwind ≡ false)
          × (r.buy.accepted ≡ true)
          × (r.sell.accepted ≡ true))
        ⊎ ((r.both_filled ≡ false)
            × (r.needs_unwind ≡ true)
            × (r.sell.accepted ≡ not r.buy.accepted))
        ⊎ ((r.both_filled ≡ false)
            × (r.needs_unwind ≡ false)
            × (r.buy.accepted ≡ false)
            × (r.sell.accepted ≡ false))
  unfolding execute_arb place_legs rejected
  arb_flags brokers symbol bv sv q bp sp total n s = ground arith
