-- ===== src/Broker/Venues/Tests.antt =====
-- Concrete arbs between two venues.
use aimos.Prelude.{ℕ, String, ◌≡◌, refl, ◌+◌, ◌-◌, some, List, [], ◌∷◌, ◌++◌, length, keep}
use aimos.Prelude.Int.{ℤ, pos}
use aimos.Prelude.Floats.{fixed}
use aimos.Prelude.Dict.{lookup}
use aimos.Broker.Venues.{MultiVenueSim, Arb, Trade, new_sim, execute_arb, execute_all, total_usdt}
use aimos.Broker.Venues.Books.{Booked, execute_all-Booked}
use aimos.Broker.Venues.Performance.{performance, performance_total, grouped, is_closed}
use aimos.Broker.Venues.Saved.{state_dict, load_state, load_state-state_dict}

abbrev number : ℕ → ℤ
number n = fixed.decimal n 0

abbrev shown : ℤ → String
shown _ = "2026-01-01T00:00:00"

abbrev two_venues : MultiVenueSim ℤ
two_venues = new_sim ("binance" ∷ "kraken" ∷ []) (number 2000) (number 10)

abbrev cheap_here : Arb ℤ
cheap_here = record {
  base = "BTC/USDT";
  buy_venue = "binance";
  sell_venue = "kraken";
  buy_price = number 100;
  sell_price = number 110;
  notional_usd = number 200;
  now = pos 0;
}

abbrev arbs : List (Arb ℤ)
arbs = cheap_here ∷ cheap_here ∷ []

-- 200 buy 2, which sell for 220; the fees are 0.2 and 0.22.
arb_test : (execute_arb shown cheap_here two_venues).0 ≡ fixed.decimal 1958 2
unfolding execute_arb new_sim aimos.Prelude.Int.◌/ℤ◌ lookup aimos.Prelude.Dict.insert
arb_test = refl

total_test : total_usdt (execute_all shown arbs two_venues) ≡ fixed.decimal 203916 2
unfolding execute_all execute_arb total_usdt new_sim aimos.Prelude.Int.◌/ℤ◌ lookup
    aimos.Prelude.Dict.insert
total_test = refl

new_sim-Booked : Booked shown (number 0) 0 two_venues
unfolding new_sim
new_sim-Booked = record { realized = refl; counted = refl }

execute_all-Booked_example : Booked shown (number 0) 0 (execute_all shown arbs two_venues)
execute_all-Booked_example = execute_all-Booked shown (number 0) 0 arbs two_venues new_sim-Booked

load_state-state_dict_test :
    (load_state (state_dict (execute_all shown arbs two_venues)) two_venues
      ≡ some (execute_all shown arbs two_venues))
    × (load_state [] two_venues ≡ some two_venues)
load_state-state_dict_test = load_state-state_dict (execute_all shown arbs two_venues) two_venues

abbrev made : List (Trade ℤ)
made = (execute_all shown arbs two_venues).trades

abbrev curve : List ℤ
curve = number 100 ∷ number 80 ∷ number 90 ∷ []

performance_total_test :
    let r = performance [] made curve in
    (grouped r.by_strategy ≡ r.closed_trades)
    × (grouped r.by_venue ≡ r.closed_trades)
    × (r.closed_trades + r.open_trades + (length made - length (keep is_closed made))
        ≡ 0 + length made)
performance_total_test = performance_total [] made curve

drawdown_test : (performance [] [] curve).max_drawdown_pct ≡ number 20
unfolding performance aimos.Prelude.Int.◌/ℤ◌
drawdown_test = refl
