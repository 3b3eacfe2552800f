-- ===== src/Execution/Trade/Tests.antt =====
-- The trade manager's theorems at one position.
use aimos.Prelude.{◌+◌, ◌≤◌, ◌≡◌, refl, true, false, none, List, [], ◌∷◌, count_if}
use aimos.Prelude.Int.{ℤ, pos, ◌+ℤ◌, ◌-ℤ◌, ◌*ℤ◌, ◌/ℤ◌}
use aimos.Prelude.Floats.{fixed, nat}
use aimos.Execution.Samples.{position}
use aimos.Execution.Trade.{
  TradeCfg, ManagementState, Tick, step, breakeven, ev, r_multiple, thesis_reason, time_stop_due,
  manage, breakeven_rule, partial_rule, trail_rule, liquidity,
}
use aimos.Execution.Trade.Stops.{Tightened, run, stop_never_widens}
use aimos.Execution.Trade.Events.{is_breakeven, is_partial, flag, run_events, at_most_once}

abbrev cfg : TradeCfg ℤ
cfg = record {
  breakeven_r = nat 1;
  trail_activate_r = fixed.decimal 15 1;
  trail_atr_mult = fixed.decimal 12 1;
  partial_tp_r = fixed.decimal 15 1;
  partial_tp_pct = nat 40;
  thesis_exit_confidence = fixed.decimal 55 2;
  time_stop_hold_mult = nat 2;
  time_stop_min_r = fixed.decimal 3 1;
  exit_degrade_mult = none;
}

abbrev opened : ManagementState ℤ
opened = record {
  initial_risk = nat 5;
  current_stop = nat 95;
  expected_hold_minutes = pos 60;
  breakeven_done = false;
  partial_done = false;
  trail_active = false;
}

abbrev past : ManagementState ℤ
past = record opened { current_stop = nat 100; breakeven_done = true }

abbrev tick : ℤ → Tick ℤ
tick price = record {
  price = price;
  atr = nat 2;
  mu = none;
  now = pos 1000;
  exit_slippage_bps = none;
  entry_exit_slippage_bps = none;
}

abbrev ticks : List (Tick ℤ)
ticks = tick (nat 106) ∷ tick (nat 112) ∷ tick (nat 101) ∷ []

stop_never_widens_example :
    Tightened position.side past.current_stop (run cfg position ticks past).current_stop
stop_never_widens_example = stop_never_widens cfg position ticks past refl

at_most_once_example :
    (count_if is_breakeven (run_events cfg position ticks opened) + flag opened.breakeven_done ≤ 1)
    × (count_if is_partial (run_events cfg position ticks opened) + flag opened.partial_done ≤ 1)
at_most_once_example = at_most_once cfg position ticks opened

first_tick :
    (step cfg position (tick (nat 106)) opened).0
    ≡ ev position (pos 1000) (breakeven (nat 100)) ∷ []
unfolding step r_multiple thesis_reason time_stop_due manage breakeven_rule partial_rule trail_rule
    liquidity ◌+ℤ◌ ◌-ℤ◌ ◌*ℤ◌ ◌/ℤ◌
first_tick = refl
