-- ===== src/Paper/Tests.antt =====
-- The theorems of the paper broker at small inputs.
use aimos.Prelude.{◌≡◌, refl, true, false, Option, none, some, List, [], ◌∷◌, length}
use aimos.Prelude.Int.{ℤ, pos}
use aimos.Prelude.Dict.{lookup}
use aimos.Prelude.Floats.{fixed, nat}
use aimos.Execution.Samples.{plan, position}
use aimos.Paper.{
  sl, Bar, PaperBroker, new_position, open_position, exit_of, Op, places, bars, cancels, drains,
  run,
}
use aimos.Paper.Ledger.{Balanced, run-Balanced}
use aimos.Paper.Overwrite.{open_overwrites}

abbrev broker : PaperBroker ℤ
broker = record {
  cash = nat 1000;
  realized = nat 0;
  taker_bps = nat 10;
  maker_bps = nat 5;
  taker = true;
  venue = "paper";
  pending = [];
  positions = [];
  fills = [];
  closed_trades_r = [];
  pending_outcomes = [];
  excursions = [];
  last_mark = [];
}

abbrev calm : Bar ℤ
calm = record { open_price = nat 100; high = nat 104; low = nat 99; close = nat 102 }

abbrev stormy : Bar ℤ
stormy = record { open_price = nat 101; high = nat 120; low = nat 90; close = nat 95 }

abbrev ops : List (Op ℤ)
ops =
    places plan
    ∷ bars "BTC/USDT" calm (pos 1)
    ∷ bars "BTC/USDT" stormy (pos 2)
    ∷ drains
    ∷ cancels "BTC/USDT"
    ∷ []

run-Balanced_example : Balanced (nat 1000) (nat 0) (run ops broker)
run-Balanced_example =
    run-Balanced (nat 1000) (nat 0) ops broker (record { cash = refl; realized = refl })

-- The bar that touches both levels takes the stop.
stop_first_test : exit_of position stormy ≡ some (nat 95, sl)
unfolding exit_of aimos.Prelude.Int.◌/ℤ◌
stop_first_test = refl

abbrev holding : PaperBroker ℤ
holding = record broker { positions = ("BTC/USDT", position) ∷ [] }

open_overwrites_example :
    let b' = open_position plan (nat 100) (pos 3) holding in
    (lookup "BTC/USDT" b'.positions ≡ some (new_position plan (nat 100) (pos 3)))
    × (length b'.positions ≡ length holding.positions)
    × (b'.pending_outcomes ≡ holding.pending_outcomes)
    × (b'.realized ≡ holding.realized)
open_overwrites_example =
    open_overwrites plan (nat 100) (pos 3) holding position (unfold lookup in refl)
