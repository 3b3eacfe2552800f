-- ===== src/Risk/Scenario.antt =====
-- The stress scenarios: aimos/risk/scenario.py. An entry of the configuration that is no scenario, because it
-- has neither `shock` nor `alt_extra`, is passed over.
use aimos.Prelude.{
  String, Bool, ◌&&◌, ◌||◌, Option, List, [], ◌∷◌, str_eq, is_some, or_else, any_of, if◌then◌else◌,
}
use aimos.Prelude.Dict.{Dict, lookup}
use aimos.Prelude.Text.{upper}
use aimos.Prelude.Floats.{Floats, ◌⊕◌, ◌⊗◌, ◌⊘◌, ◌<?◌, ◌≤?◌, nat, negate}
use aimos.Schemas.{Action, is_long}

pub record PositionRisk (F : Type 0) : Type 0 where
  pub symbol : String
  pub notional_usd : F
  pub side : Action
  pub beta : F

-- A scenario of the configuration: the map `shock`, `shock_pct` and `alt_extra`, each there or not.
pub record Spec (F : Type 0) : Type 0 where
  pub shock : Option (Dict F)
  pub shock_pct : Option F
  pub alt_extra : Option F

pub record ScenarioResult (F : Type 0) : Type 0 where
  pub name : String
  pub pnl_pct : F
  pub breaches_gate : Bool

pub record ScenarioEngine (F : Type 0) : Type 0 where
  pub max_loss : F
  pub binding : List String
  pub scenarios : Dict (Spec F)

module _ {F : Type 0} ⦃fl : Floats F⦄ where
  abbrev pub move_of : F → F → PositionRisk F → F
  move_of btc_shock alt_extra p =
      let move = p.beta ⊗ btc_shock in
      if str_eq (upper p.symbol) "BTC" then move else move ⊕ alt_extra

  abbrev pub sign_of : PositionRisk F → F
  sign_of p = if is_long p.side then nat 1 else negate (nat 1)

  -- The loop of `scenario_pnl`, with the sum so far.
  unfoldable pub pnl_from : F → List (PositionRisk F) → F → F → F
  pnl_from pnl [] btc_shock alt_extra = pnl
  pnl_from pnl (p ∷ ps) btc_shock alt_extra =
      pnl_from (pnl ⊕ ((p.notional_usd ⊗ move_of btc_shock alt_extra p) ⊗ sign_of p)) ps btc_shock
        alt_extra

  unfoldable pub scenario_pnl : List (PositionRisk F) → F → F → F → F
  unfolding pnl_from
  scenario_pnl positions equity btc_shock alt_extra =
      if equity ≤? nat 0
      then nat 0
      else (pnl_from (nat 0) positions btc_shock alt_extra ⊘ equity) ⊗ nat 100

  abbrev pub is_scenario : Spec F → Bool
  is_scenario spec = is_some spec.shock || is_some spec.alt_extra

  abbrev pub btc_shock_of : Spec F → F
  btc_shock_of spec =
      or_else (lookup "BTC" (or_else spec.shock [])) (or_else spec.shock_pct (nat 0))

  abbrev pub result_of :
      ScenarioEngine F → List (PositionRisk F) → F → String → Spec F → ScenarioResult F
  result_of e positions equity name spec =
      let pnl =
        scenario_pnl positions equity (btc_shock_of spec) (or_else spec.alt_extra (nat 0)) in
      record {
        name = name;
        pnl_pct = pnl;
        breaches_gate = any_of (λ b. str_eq b name) e.binding && (pnl <? negate e.max_loss);
      }

  -- The loop of `run` over the scenarios.
  unfoldable pub run_over :
      ScenarioEngine F → List (PositionRisk F) → F → Dict (Spec F) → List (ScenarioResult F)
  run_over e positions equity [] = []
  run_over e positions equity ((name, spec) ∷ specs) =
      let rest = run_over e positions equity specs in
      if is_scenario spec then result_of e positions equity name spec ∷ rest else rest

  unfoldable pub run : ScenarioEngine F → List (PositionRisk F) → F → List (ScenarioResult F)
  unfolding run_over
  run e positions equity = run_over e positions equity e.scenarios

  unfoldable pub blocks_new_risk : ScenarioEngine F → List (PositionRisk F) → F → Bool
  blocks_new_risk e positions equity = any_of (λ r. r.breaches_gate) (run e positions equity)
