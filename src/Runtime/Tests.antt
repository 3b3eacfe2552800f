-- ===== src/Runtime/Tests.antt =====
-- The theorems of the running system at small inputs.
use aimos.Prelude.{
  ℕ, ◌≤◌, ◌<◌, ◌+◌, ◌*◌, arith, refl, Option, String, ◌≡◌, ◌⊎◌, true, false, ◌||◌, none, some, List,
  [], ◌∷◌, if◌then◌else◌,
}
use aimos.Prelude.Text.{codes}
use aimos.Prelude.Int.{ℤ, pos}
use aimos.Runtime.Watchdog.{Reading, check_all}
use aimos.Runtime.Liveness.{dog, AllStale, restart_calls, check_all_restarts}
use aimos.Prelude.Floats.{fixed}
use aimos.Prelude.Dict.{Dict}
use aimos.Schemas.{is_no_trade, TradePlan}
use aimos.Execution.Samples.{plan}
use aimos.Journal.{Backend, init_schema, write, write_decision}
use aimos.Runtime.Features.{Params, Toggle, SetResult, done, SameLocked, Takes, set, set_lem}
use aimos.Runtime.Pipeline.{Orchestrator, start, is_paused, forced_plan, tick, halt}
use aimos.Runtime.Halt.{is_halted, Event, ticks, restarts, resumes, run, tick_lem, halted_for_good}

abbrev params : Params
params = record {
  scalp_enabled = false;
  cross_exchange_enabled = false;
  arb_plugin = some false;
  live = false;
  mandate = false;
  multi_venue_live = false;
  market_making = false;
  rebuilds = 0;
}

abbrev switched : SetResult × Params
switched = set (codes " Cross_Exchange ") true params

set_lem_test :
    SameLocked switched.1 params
    × (((t : Toggle) × (switched.0 ≡ done t true) × Takes t true params switched.1)
        ⊎ (switched.1 ≡ params))
set_lem_test = set_lem (codes " Cross_Exchange ") true params

abbrev backend : Backend String
backend = record { text = λ s. s; dumps = λ _. "{}"; sha256 = λ s. s }

abbrev dump : String → TradePlan ℤ → Dict String
dump _ p = ("symbol", p.symbol) ∷ []

abbrev paused : Orchestrator
paused = record {
  global_pause = false;
  paused_assets = "BTC/USDT" ∷ [];
  halted = false;
  halt_file = false;
}

tick_lem_test :
    let (r, o', j', _) = tick backend dump "BTC/USDT" "t1" plan paused init_schema in
    let plan =
      if is_halted paused || is_paused "BTC/USDT" paused
      then forced_plan backend dump "BTC/USDT"
      else plan in
    (r.forced_no_trade ≡ (is_halted paused || is_paused "BTC/USDT" paused))
    × (r.plan ≡ record plan { decision_id = some r.decision_id })
    × (j'
        ≡ (write backend
            (write_decision (some r.decision_id) "BTC/USDT" "t1" (dump r.decision_id plan))
            init_schema).1)
    × (o'.halted ≡ is_halted paused)
tick_lem_test = tick_lem backend dump "BTC/USDT" "t1" plan paused init_schema

abbrev events : List Event
events = resumes none ∷ restarts ∷ ticks ∷ []

halted_for_good_example :
    is_no_trade
      (tick backend dump "BTC/USDT" "t1" plan
        (run events (halt (start false)))
        init_schema).0.plan.action
    ≡ true
halted_for_good_example =
    halted_for_good backend dump events "BTC/USDT" "t1" plan (start false) init_schema

-- Three silent checks, of which the third restarts.
abbrev silent : ℕ → Reading
silent now = record { heartbeat = none; now = pos now }

abbrev readings : List Reading
readings = silent 0 ∷ silent 60 ∷ silent 120 ∷ []

abbrev unread : String → Option ℤ
unread _ = none

all_stale : AllStale unread (pos 180) 2 true readings
unfolding aimos.Runtime.Watchdog.is_stale
all_stale = (refl, (refl, (refl, tt)))

check_all_restarts_example :
    let (n, calls, w) = check_all unread readings (dog unread (pos 180) 2 true 0) in
    (1 ≤ n)
    × (w.missed < 3)
    × (n * 3 + w.missed ≡ 3)
    × (calls ≡ restart_calls unread (pos 180) 2 true n)
check_all_restarts_example =
    check_all_restarts unread (pos 180) 2 true readings 0 (omega arith) all_stale (omega arith)
