-- ===== src/Runtime/Halt.antt =====
-- Nothing trades while the system is halted or paused, and every tick is journaled.
use aimos.Prelude.{
  String, ◌≡◌, refl, Bool, true, ◌||◌, Option, none, some, List, [], ◌∷◌, arith, if◌then◌else◌,
}
use aimos.Prelude.Dict.{Dict}
use aimos.Prelude.Floats.{Floats}
use aimos.Schemas.{is_no_trade, TradePlan}
use aimos.Journal.{Journal, Backend, write, write_decision}
use aimos.Runtime.Pipeline.{
  Orchestrator, start, pause, resume, is_paused, halt, check_halt, forced_plan, tick,
}

-- The system is halted, in memory or by the file.
abbrev pub is_halted : Orchestrator → Bool
is_halted o = o.halted || o.halt_file

-- What happens to a running system between two ticks. `restarts` is a new process beside the file.
pub data Event : Type 0 where
  ticks restarts halts : Event
  pauses resumes : Option String → Event

abbrev pub step : Event → Orchestrator → Orchestrator
step ticks o = check_halt o
step restarts o = start o.halt_file
step halts o = halt o
step (pauses s) o = pause s o
step (resumes s) o = resume s o

abbrev pub run : List Event → Orchestrator → Orchestrator
run [] o = o
run (e ∷ es) o = run es (step e o)

step-file : (e : Event) (o : Orchestrator) → o.halt_file ≡ true → (step e o).halt_file ≡ true
unfolding check_halt halt pause resume
step-file (pauses none) o h = h
step-file (resumes none) o h = h
step-file _ o h = ground arith

run-file : (es : List Event) (o : Orchestrator) → o.halt_file ≡ true → (run es o).halt_file ≡ true
run-file [] o h = h
run-file (e ∷ es) o h = run-file es (step e o) (step-file e o h)

check_halt_halted : (o : Orchestrator) → (check_halt o).halted ≡ is_halted o
unfolding check_halt
check_halt_halted o = ground arith

check_halt_paused :
    (symbol : String) (o : Orchestrator) → is_paused symbol (check_halt o) ≡ is_paused symbol o
unfolding check_halt is_paused
check_halt_paused symbol o = ground arith

module _ {F V : Type 0} ⦃fl : Floats F⦄ (b : Backend V) (dump : String → TradePlan F → Dict V) where
  -- A tick of a halted or paused symbol trades nothing whatever was decided; any other tick hands on
  -- the decision. Either way one decision is written to the journal, under the id of the tick and with
  -- the plan that the result has.
  pub tick_lem :
      (symbol now : String) (decided : TradePlan F) (o : Orchestrator) (j : Journal)
      → let (r, o', j', _) = tick b dump symbol now decided o j in
        let plan =
          if is_halted o || is_paused symbol o then forced_plan b dump symbol else decided in
        (r.forced_no_trade ≡ (is_halted o || is_paused symbol o))
        × (r.plan ≡ record plan { decision_id = some r.decision_id })
        × (j'
            ≡ (write b
                (write_decision (some r.decision_id) symbol now (dump r.decision_id plan))
                j).1)
        × (o'.halted ≡ is_halted o)
  unfolding tick
  tick_lem symbol now decided o j =
      rw (check_halt_paused symbol o, check_halt_halted o) (refl, refl, refl, refl)

  -- Once the kill switch was thrown, no tick trades, whatever is paused, resumed, ticked, halted again
  -- or restarted in between.
  pub halted_for_good :
      (es : List Event) (symbol now : String) (decided : TradePlan F) (o : Orchestrator)
      (j : Journal)
      → is_no_trade (tick b dump symbol now decided (run es (halt o)) j).0.plan.action ≡ true
  unfolding tick check_halt forced_plan
  halted_for_good es symbol now decided o j =
      ground (arith, run-file es (halt o) (unfold halt in refl))
