-- ===== src/GoLive/Boot.antt =====
-- When live trading is allowed, and when the program starts.
use aimos.Prelude.{String, ◌≡◌, ◌↔◌, ◌⊎◌, true, false, Option, List, arith}
use aimos.Prelude.Int.{ℤ}
use aimos.Prelude.Floats.{Floats}
use aimos.Prelude.Text.{lower_is}
use aimos.GoLive.Gates.{
  backtest_validated, paper_4wk, testnet_1wk, security_signoff, canary_10pct, scaling, State,
  passed, absent, load, Ladder, open_ladder,
}
use aimos.GoLive.Order.{InOrder, InOrder-empty, IsSafe, Op, run, run-IsSafe}
use aimos.GoLive.Status.{boots, live_allowed, guard_live_boot, gate_out}

abbrev pub AllPassed : State → Type 0
AllPassed s =
    (passed s backtest_validated ≡ true)
    × (passed s paper_4wk ≡ true)
    × (passed s testnet_1wk ≡ true)
    × (passed s security_signoff ≡ true)
    × (passed s canary_10pct ≡ true)
    × (passed s scaling ≡ true)

InOrder-AllPassed : {s : State} → InOrder s → passed s scaling ≡ true → AllPassed s
InOrder-AllPassed v h = ground arith

abbrev pub new_ladder : Ladder
new_ladder = open_ladder (record { primary = absent; bak = absent })

new_ladder-IsSafe : IsSafe new_ladder
unfolding load open_ladder
new_ladder-IsSafe = record { now = InOrder-empty; saved = InOrder-empty }

module _ (F : Type 0) ⦃fl : Floats F⦄ (iso : String → Option ℤ) where
  -- `live_allowed` holds exactly when each of the six gates is passed, whatever the days say.
  live_allowed_iff :
      (now : ℤ) (decisions : Option (String × String)) (s : State)
      → (live_allowed F iso now decisions s ≡ true) ↔ AllPassed s
  unfolding live_allowed gate_out
  live_allowed_iff now decisions s = ground arith

  -- The program boots exactly when its mode is not "live" in any case, or all six gates are passed.
  pub guard_live_boot_iff :
      (mode : String) (now : ℤ) (decisions : Option (String × String)) (s : State)
      → (guard_live_boot F iso mode now decisions s ≡ boots)
        ↔ ((lower_is mode "live" ≡ false) ⊎ AllPassed s)
  unfolding guard_live_boot
  guard_live_boot_iff mode now decisions s = ground (arith, live_allowed_iff now decisions s)

  -- After any operations on a new ladder, restarts included, the program boots exactly when its mode
  -- is not "live" or the last gate is passed.
  pub boots_after_run :
      (ops : List (Op F)) (mode : String) (now : ℤ) (decisions : Option (String × String))
      → (guard_live_boot F iso mode now decisions (run ops new_ladder).state ≡ boots)
        ↔ ((lower_is mode "live" ≡ false) ⊎ (passed (run ops new_ladder).state scaling ≡ true))
  boots_after_run ops mode now decisions = ground (
    arith,
    guard_live_boot_iff mode now decisions (run ops new_ladder).state,
    InOrder-AllPassed (run-IsSafe ops new_ladder new_ladder-IsSafe).now,
  )
