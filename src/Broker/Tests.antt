-- ===== src/Broker/Tests.antt =====
-- The brokers' theorems at concrete inputs: a venue that only logs its orders.
use aimos.Prelude.{
  String, ◌≡◌, refl, ◌↔◌, ◌⊎◌, true, false, not, ◌&&◌, none, some, List, [], ◌∷◌, ◌++◌, map, any_of,
}
use aimos.Prelude.Int.{ℤ}
use aimos.Prelude.Dict.{Dict}
use aimos.Prelude.Floats.{fixed, nat, ◌<?◌}
use aimos.Schemas.{is_no_trade, TradePlan}
use aimos.Execution.Samples.{plan}
use aimos.Broker.Mandate.{MandateCfg, mandate_check, Covered, mandate_check_iff, quote_allowed}
use aimos.Broker.Live.{
  Order, missing, null, Answer, answered, LiveBroker, place, order_of, result_of, place_is_Covered,
}
use aimos.Broker.Router.{execute_arb, arb_flags}
use aimos.Broker.Divergence.{
  should_demote, record_all, costs_exceed, modeled_of, actual_of, should_demote_lem,
}
use aimos.Broker.Recon.{
  member, reconcile_positions, reconcile_positions_lem, consistent, consistent_iff, adopt_unknown,
  missing_on_exchange, reconcile_accounting, difference, halt_iff, sorted_set,
}

abbrev mandate : MandateCfg ℤ
mandate = record {
  enabled = true;
  max_total_notional_usdt = nat 500;
  max_positions = 4;
  allowed_quotes = "USDT" ∷ "usdc" ∷ [];
}

abbrev off : MandateCfg ℤ
off = record mandate { enabled = false }

abbrev broker : LiveBroker ℤ
broker = record { exchange_id = "binance"; mandate = mandate; bound = true }

abbrev idle : LiveBroker ℤ
idle = record broker { mandate = off }

abbrev digest : String → String
digest s = s

abbrev log_order : String → Order ℤ → List (Order ℤ) → Answer ℤ × List (Order ℤ)
log_order venue o orders =
    (answered (record { id = missing; filled = missing; average = missing }), orders ++ o ∷ [])

mandate_check_iff_test : (mandate_check mandate plan (nat 400) 2 ≡ none) ↔ (
    (mandate.enabled ≡ true)
    × ((is_no_trade plan.action ≡ true) ⊎ Covered mandate plan (nat 400) 2))
mandate_check_iff_test = mandate_check_iff mandate plan (nat 400) 2

quotes :
    (quote_allowed mandate.allowed_quotes "BTC/USDC" ≡ true)
    × (quote_allowed mandate.allowed_quotes "BTC/EUR" ≡ false)
unfolding quote_allowed
quotes = (refl, refl)

place_is_Covered_example :
    ((place digest log_order broker plan (nat 400) 2 []).1 ≡ [])
    ⊎ (Covered broker.mandate plan (nat 400) 2
        × (is_no_trade plan.action ≡ false)
        × (broker.bound ≡ true)
        × ((place digest log_order broker plan (nat 400) 2 []).1
            ≡ (log_order broker.exchange_id (order_of digest log_order plan) []).1))
place_is_Covered_example = place_is_Covered digest log_order broker plan (nat 400) 2 []

-- An answer whose "filled" is null makes the order rejected, whatever the venue did with it.
null_filled_test :
    (result_of digest log_order "id"
      (answered (record { id = null; filled = null; average = missing }))).accepted
    ≡ false
unfolding result_of aimos.Broker.Live.rejected
null_filled_test = refl

abbrev other_plan : TradePlan ℤ
other_plan = record plan { decision_id = some "another decision" }

-- A second decision on the symbol carries the id of the first.
repeated_id_test :
    (order_of digest log_order plan).client_order_id
    ≡ (order_of digest log_order other_plan).client_order_id
unfolding order_of
repeated_id_test = refl

abbrev venues : Dict (LiveBroker ℤ)
venues = ("binance", broker) ∷ ("kraken", idle) ∷ []

arb_flags_test :
    let r =
      (execute_arb digest log_order venues "BTC/USDT" "binance" "kraken"
        (nat 50)
        (nat 100)
        (nat 101)
        (nat 100)
        1
        []).0 in
    ((r.both_filled ≡ true)
      × (r.needs_unwind ≡ false)
      × (r.buy.accepted ≡ true)
      × (r.sell.accepted ≡ true))
    ⊎ ((r.both_filled ≡ false) × (r.needs_unwind ≡ true) × (r.sell.accepted ≡ not r.buy.accepted))
    ⊎ ((r.both_filled ≡ false)
        × (r.needs_unwind ≡ false)
        × (r.buy.accepted ≡ false)
        × (r.sell.accepted ≡ false))
arb_flags_test =
    arb_flags digest log_order venues "BTC/USDT" "binance" "kraken" (nat 50) (nat 100) (nat 101)
      (nat 100) 1 []

abbrev cost_log : List (String × ℤ × ℤ)
cost_log = ("Breakout", nat 10, nat 30) ∷ ("Pullback", nat 10, nat 10) ∷ []

should_demote_lem_test :
    should_demote "Breakout"
      (record_all cost_log (record { threshold_mult = nat 2; modeled = []; actual = [] }))
    ≡ costs_exceed (nat 2) (modeled_of "Breakout" cost_log) (actual_of "Breakout" cost_log)
should_demote_lem_test = should_demote_lem "Breakout" cost_log (nat 2)

abbrev ex : List String
ex = "SOL" ∷ "BTC" ∷ "SOL" ∷ []

abbrev jr : List String
jr = "ETH" ∷ "BTC" ∷ []

reconcile_positions_lem_test :
    let r = reconcile_positions ex jr in
    (member "SOL" r.matched ≡ (member "SOL" ex && member "SOL" jr))
    × (member "SOL" r.adopt ≡ (member "SOL" ex && not (member "SOL" jr)))
    × (member "SOL" r.close_unknown ≡ (member "SOL" jr && not (member "SOL" ex)))
    × (r.alerts ≡ map adopt_unknown r.adopt ++ map missing_on_exchange r.close_unknown)
reconcile_positions_lem_test = reconcile_positions_lem ex jr "SOL"

sorted_once : sorted_set ex ≡ "BTC" ∷ "SOL" ∷ []
unfolding sorted_set
sorted_once = refl

consistent_iff_test :
    (consistent (reconcile_positions ex jr) ≡ true) ↔ ((t : String) → member t ex ≡ member t jr)
consistent_iff_test = consistent_iff ex jr

abbrev ledger : Dict ℤ
ledger = ("fees", nat 3) ∷ []

abbrev statement : Dict ℤ
statement = []

abbrev one_usd : ℤ
one_usd = nat 1

halt_iff_test :
    (reconcile_accounting ledger statement one_usd ("fees" ∷ [])).halt_pnl_jobs
    ≡ any_of (λ k. one_usd <? difference ledger statement k) ("fees" ∷ [])
halt_iff_test = halt_iff ledger statement one_usd ("fees" ∷ [])
