-- ===== src/Runtime/Decided.antt =====
-- A whole tick: PipelineOrchestrator.tick of aimos/runtime/pipeline.py with the decision of
-- aimos/execution/decide.py in it. What raises is `none`.
use aimos.Prelude.{
  String, ◌≡◌, sym, ap, ◌∙◌, subst, inl, inr, true, false, false≢true, ◌||◌, Option, none, some,
  List, [], arith, or_else, Bool-cases, Option-cases, if◌then◌else◌,
}
use aimos.Prelude.Dict.{Dict}
use aimos.Prelude.Floats.{Floats, IsStrict}
use aimos.Schemas.{is_no_trade, TradePlan, MarketUnderstanding, ExecContext}
use aimos.Journal.{Journal, Backend}
use aimos.Execution.Risk.{RiskState}
use aimos.Execution.Sizer.{SizingInputs}
use aimos.Execution.Decide.{ExecutionLayer, collect, decide, or_idle, no_inputs, no_risk}
use aimos.Execution.Decide.Safe.{IsSafe, decide-IsSafe}
use aimos.Runtime.Pipeline.{
  Orchestrator, check_halt, is_paused, forced_plan, tick, TickResult, Published,
}
use aimos.Runtime.Halt.{is_halted}

some_same {ℓ} : {A : Type ℓ} {x y : A} → some x ≡ some y → x ≡ y
some_same {x = x} e = ap (λ o. or_else o x) e

module _ {F V : Type 0} ⦃fl : Floats F⦄ (b : Backend V) (dump : String → TradePlan F → Dict V)
    (layer : ExecutionLayer F) (mu : MarketUnderstanding F) (ctx : ExecContext F)
    (inputs : Option (SizingInputs F)) (state : Option (RiskState F)) where
  -- `tick` with the understanding that it has made; the decision is asked for only when the system is
  -- neither halted nor paused.
  unfoldable pub decided_tick :
      String
      → Orchestrator
      → Journal
      → Option (TickResult F × Orchestrator × Journal × List Published)
  unfolding check_halt is_paused
  decided_tick now o j =
      let o' = check_halt o in
      if o'.halted || is_paused mu.symbol o'
      then some (tick b dump mu.symbol now (forced_plan b dump mu.symbol) o j)
      else elim (decide layer mu ctx inputs state) [
        | none ↦ none
        | some p ↦ some (tick b dump mu.symbol now p o j)
      ]

  -- The plan of a tick is a decision that passed all gates.
  abbrev pub IsDecision : Orchestrator → List (TradePlan F) → TickResult F → Type 0
  IsDecision o candidates r =
      (is_halted o ≡ false)
      × (is_paused mu.symbol o ≡ false)
      × (r.forced_no_trade ≡ false)
      × ((p : TradePlan F) × (r.plan ≡ record p { decision_id = some r.decision_id })
          × IsSafe layer mu ctx (or_else inputs no_inputs) (or_else state no_risk)
              (or_idle mu candidates) p)

  forced_idle :
      (now : String) (p : TradePlan F) (o : Orchestrator) (j : Journal)
      → is_halted o || is_paused mu.symbol o ≡ true
      → is_no_trade (tick b dump mu.symbol now p o j).0.plan.action ≡ true
  unfolding tick check_halt is_paused forced_plan
  forced_idle now p o j h = ground (arith, h)

  open_plan :
      (now : String) (p : TradePlan F) (o : Orchestrator) (j : Journal)
      → is_halted o || is_paused mu.symbol o ≡ false
      → let r = (tick b dump mu.symbol now p o j).0 in
        (r.forced_no_trade ≡ false) × (r.plan ≡ record p { decision_id = some r.decision_id })
  unfolding tick check_halt is_paused
  open_plan now p o j h = ground (arith, h)

  decided_tick_forced :
      (now : String) (o : Orchestrator) (j : Journal)
      → is_halted o || is_paused mu.symbol o ≡ true
      → decided_tick now o j ≡ some (tick b dump mu.symbol now (forced_plan b dump mu.symbol) o j)
  unfolding decided_tick
  decided_tick_forced now o j h = ground (arith, h)

  decided_tick_open :
      (now : String) (o : Orchestrator) (j : Journal) (d : Option (TradePlan F))
      → is_halted o || is_paused mu.symbol o ≡ false
      → decide layer mu ctx inputs state ≡ d
      → decided_tick now o j
        ≡ (elim d [ none ↦ none | some p ↦ some (tick b dump mu.symbol now p o j) ])
  unfolding decided_tick
  decided_tick_open now o j none h e = ground (arith, h, e)
  decided_tick_open now o j (some p) h e = ground (arith, h, e)

  -- Where `<` is a strict order: when a tick gives a plan that trades, the system is neither halted, in
  -- memory or by the file, nor paused, and the plan is, but for the id of the tick, a decision of the
  -- execution layer that passed the evaluator, the sizer and every limit of the risk manager.
  pub decided_tick-IsDecision :
      IsStrict fl
      → (candidates : List (TradePlan F)) (now : String) (o : Orchestrator) (j : Journal)
      → (x : TickResult F × Orchestrator × Journal × List Published)
      → collect layer.plugins mu ctx [] ≡ some candidates
      → decided_tick now o j ≡ some x
      → is_no_trade x.0.plan.action ≡ false
      → IsDecision o candidates x.0
  decided_tick-IsDecision strict candidates now o j x collected ticked trades =
      elim (Bool-cases (is_halted o || is_paused mu.symbol o)) [
        | inl forced ↦
            let t = tick b dump mu.symbol now (forced_plan b dump mu.symbol) o j in
            let same : t ≡ x = some_same (sym (decided_tick_forced now o j forced) ∙ ticked) in
            let idle : is_no_trade x.0.plan.action ≡ true =
              sym (ap (λ y. is_no_trade y.0.plan.action) same)
              ∙ forced_idle now (forced_plan b dump mu.symbol) o j forced in
            absurd (false≢true (sym trades ∙ idle))
        | inr free ↦ elim (Option-cases (decide layer mu ctx inputs state)) [
          | inl raised ↦
              absurd (ground (arith, sym (decided_tick_open now o j none free raised) ∙ ticked))
          | inr (p, decided) ↦
              let t = tick b dump mu.symbol now p o j in
              let same : t ≡ x =
                some_same (sym (decided_tick_open now o j (some p) free decided) ∙ ticked) in
              let (unforced, plan) = open_plan now p o j free in
              let action : is_no_trade p.action ≡ false =
                sym (ap (λ r. is_no_trade r.action) plan)
                ∙ ap (λ y. is_no_trade y.0.plan.action) same
                ∙ trades in
              let safe =
                decide-IsSafe layer mu ctx inputs state strict candidates p collected decided
                  action in
              subst (λ y. IsDecision o candidates y.0) same
                (ground (arith, free), ground (arith, free), unforced, (p, plan, safe))
        ]
      ]
