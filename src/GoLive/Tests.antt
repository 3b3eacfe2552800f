-- ===== src/GoLive/Tests.antt =====
-- The ladder's theorems at concrete ladders.
use aimos.Prelude.{String, ◌≡◌, refl, ◌↔◌, ◌⊎◌, ◌≢◌, true, false, Option, none, some, List, [], ◌∷◌}
use aimos.Prelude.Int.{ℤ, pos}
use aimos.Prelude.Text.{lower_is}
use aimos.Prelude.Floats.{fixed}
use aimos.GoLive.Gates.{
  backtest_validated, scaling, empty_state, absent, torn, good, Disk, load, passed, Ladder,
}
use aimos.GoLive.Steps.{Card, p_value, done, mark_gate, commit}
use aimos.GoLive.Status.{boots, guard_live_boot, live_not_allowed}
use aimos.GoLive.Order.{
  Op, signs, unsigns, restarts, run, IsSafe, run-IsSafe, InOrder-empty, ready, signed,
  mark_gate_lem,
}
use aimos.GoLive.Storage.{
  before_replace, after_replace, disk_at, save_is_atomic, torn_primary_loses,
}
use aimos.GoLive.Boot.{AllPassed, new_ladder, guard_live_boot_iff, boots_after_run}

abbrev cards : Option (List (Card ℤ))
cards = some (p_value (pos 4000) ∷ [])

abbrev ops : List (Op ℤ)
ops =
    signs true "backtest_validated" "" "t0" cards
    ∷ signs true "testnet_1wk" "" "t1" cards
    ∷ signs false "paper_4wk" "" "t2" cards
    ∷ restarts
    ∷ unsigns true "paper_4wk"
    ∷ []

abbrev clean : Disk
clean = record { primary = absent; bak = absent }

abbrev start : Ladder
start = record { state = empty_state; disk = clean }

start-IsSafe : IsSafe start
unfolding load
start-IsSafe = record { now = InOrder-empty; saved = InOrder-empty }

run-IsSafe_example : IsSafe (run ops start)
run-IsSafe_example = run-IsSafe ops start start-IsSafe

abbrev iso : String → Option ℤ
iso _ = none

boots_after_run_example :
    (guard_live_boot ℤ iso "LIVE" (pos 0) none (run ops new_ladder).state ≡ boots)
    ↔ ((lower_is "LIVE" "live" ≡ false) ⊎ (passed (run ops new_ladder).state scaling ≡ true))
boots_after_run_example = boots_after_run ℤ iso ops "LIVE" (pos 0) none

guard_live_boot_iff_test :
    (guard_live_boot ℤ iso "paper" (pos 0) none empty_state ≡ boots)
    ↔ ((lower_is "paper" "live" ≡ false) ⊎ AllPassed empty_state)
guard_live_boot_iff_test = guard_live_boot_iff ℤ iso "paper" (pos 0) none empty_state

live_is_refused :
    guard_live_boot ℤ iso "Live" (pos 0) none empty_state
    ≡ live_not_allowed 0 (some "Validated 12-month backtest")
unfolding guard_live_boot
live_is_refused = refl

mark_gate_lem_test :
    (ready empty_state backtest_validated cards ≡ true
      → mark_gate true backtest_validated "" "t" cards start ≡ (
        done backtest_validated,
        commit true (signed backtest_validated "" "t" empty_state) start,
      ))
    × (ready empty_state backtest_validated cards ≡ false
        → ((mark_gate true backtest_validated "" "t" cards start).1 ≡ start)
          × ((mark_gate true backtest_validated "" "t" cards start).0 ≢ done backtest_validated))
mark_gate_lem_test = mark_gate_lem true backtest_validated "" "t" cards start

save_is_atomic_example :
    ((load (disk_at before_replace true empty_state clean) ≡ load clean)
      ⊎ (load (disk_at before_replace true empty_state clean) ≡ empty_state))
    × (load (disk_at after_replace true empty_state clean) ≡ empty_state)
save_is_atomic_example = save_is_atomic before_replace true empty_state clean (λ e. cc)

abbrev worn : Disk
worn = record { primary = torn; bak = good (run ops start).state }

torn_primary_loses_example : load (disk_at before_replace true empty_state worn) ≡ empty_state
torn_primary_loses_example = torn_primary_loses empty_state worn refl
