-- ===== src/Risk/Tests.antt =====
-- A fall of the market on a book of one long position.
use aimos.Prelude.{◌≡◌, refl, Bool, true, none, some, List, [], ◌∷◌}
use aimos.Prelude.Int.{ℤ}
use aimos.Prelude.Floats.{fixed, nat, negate}
use aimos.Schemas.{long}
use aimos.Risk.Scenario.{PositionRisk, ScenarioEngine, blocks_new_risk}

abbrev engine : ScenarioEngine ℤ
engine = record {
  max_loss = nat 5;
  binding = "crash" ∷ [];
  scenarios =
      (
        "crash",
        record { shock = some (("BTC", negate (nat 1)) ∷ []); shock_pct = none; alt_extra = none },
      )
      ∷ [];
}

abbrev book : List (PositionRisk ℤ)
book = record { symbol = "BTC"; notional_usd = nat 10; side = long; beta = nat 1 } ∷ []

blocks_test : blocks_new_risk engine book (nat 100) ≡ true
unfolding blocks_new_risk aimos.Risk.Scenario.run aimos.Risk.Scenario.scenario_pnl
    aimos.Prelude.Int.◌/ℤ◌ aimos.Prelude.Text.upper aimos.Prelude.Dict.lookup
blocks_test = refl
