-- ===== src/Execution/Risk/Tests.antt =====
-- The risk manager's theorems at one plan.
use aimos.Prelude.{ℕ, ◌≡◌, refl, ◌↔◌, ◌⊎◌, Bool, true, false, Option, none, some, [], ◌∷◌}
use aimos.Prelude.Int.{ℤ, pos}
use aimos.Prelude.Floats.{fixed, nat}
use aimos.Prelude.{◌⊎◌, true, ◌++◌, [], ◌∷◌}
use aimos.Schemas.{no_trade, vetoed_by, is_no_trade, Veto, heat_cap}
use aimos.Execution.Samples.{plan, mu, ctx}
use aimos.Execution.Risk.{RiskCfg, RiskState, alloc_pct, check}
use aimos.Execution.Risk.Gates.{WithinLimits, check_passes_iff, check_result}

abbrev cfg : RiskCfg ℤ
cfg = record {
  risk_score_veto = nat 75;
  daily_stop_pct = nat 3;
  max_positions = 4;
  max_portfolio_heat_pct = nat 6;
  max_correlated_bucket_pct = nat 3;
  max_equity_pct_per_asset = nat 10;
  max_bucket_pct = nat 40;
  stablecoin_reserve_floor_pct = nat 20;
}

abbrev quiet : RiskState ℤ
quiet = record {
  open_risk_pct = nat 0;
  open_positions = 0;
  day_pnl_pct = nat 0;
  kill_switch = false;
  is_tier1 = true;
  is_cross_venue = false;
  intersection_ok = true;
  is_locked = false;
  bucket_risk_pct = nat 0;
  per_asset_alloc_pct = nat 0;
  bucket_alloc_pct = nat 0;
  reserve_pct = nat 100;
}

check_passes_iff_example : ((check cfg plan mu ctx quiet (nat 1)).vetoed ≡ false) ↔ (
    (quiet.kill_switch ≡ false)
    × ((is_no_trade plan.action ≡ true) ⊎ WithinLimits cfg plan mu ctx quiet (nat 1)))
check_passes_iff_example = check_passes_iff cfg plan mu ctx quiet (nat 1)

check_result_test :
    let d = check cfg plan mu ctx quiet (nat 7) in
    ((d.reason ≡ none) × (d.vetoed ≡ false) × (d.plan ≡ plan))
    ⊎ ((v : Veto ℤ) × (d.reason ≡ some v)
        × (d.vetoed ≡ true)
        × (d.plan.action ≡ no_trade)
        × (d.plan.size_quote ≡ none)
        × (d.plan.plugin ≡ plan.plugin)
        × (d.plan.symbol ≡ plan.symbol)
        × (d.plan.reasons ≡ plan.reasons ++ vetoed_by v ∷ []))
check_result_test = check_result cfg plan mu ctx quiet (nat 7)

quiet_passes : (check cfg plan mu ctx quiet (nat 1)).vetoed ≡ false
unfolding check alloc_pct aimos.Prelude.Int.◌/ℤ◌
quiet_passes = refl

heat_is_vetoed : (check cfg plan mu ctx quiet (nat 7)).reason ≡ some heat_cap
unfolding check alloc_pct aimos.Prelude.Int.◌/ℤ◌
heat_is_vetoed = refl
