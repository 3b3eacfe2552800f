-- ===== src/Runtime/Pipeline.antt =====
-- The orchestrator: aimos/runtime/pipeline.py. Observation, intelligence and the decision are pure and
-- enter `tick` as the plan that `decide` would give; it is read only where the code calls `decide`.
-- The kill-switch file is there or not. The lock makes the portfolio stage of each tick one step.
use Prim.Native.String.{◌++◌ as concat}
use aimos.Prelude.{
  String, Bool, true, false, ◌||◌, Option, none, some, List, [], ◌∷◌, str_eq, any_of, if◌then◌else◌,
  keep, not,
}
use aimos.Prelude.Dict.{Dict}
use aimos.Prelude.Floats.{Floats}
use aimos.Schemas.{Action, is_no_trade, TradePlan, said}
use aimos.Execution.Risk.{no_trade_plan}
use aimos.Journal.{Journal, Backend, write, write_decision}

pub record Orchestrator : Type 0 where
  pub global_pause : Bool
  pub paused_assets : List String
  pub halted : Bool
  pub halt_file : Bool

-- A process that starts beside the kill-switch file of the last one.
abbrev pub start : Bool → Orchestrator
start file = record { global_pause = false; paused_assets = []; halted = false; halt_file = file }

-- `symbol in self.state.paused_assets`
abbrev pub in_set : String → List String → Bool
in_set s xs = any_of (λ x. str_eq x s) xs

unfoldable pub pause : Option String → Orchestrator → Orchestrator
pause none o = record o { global_pause = true }
pause (some symbol) o = record o { paused_assets = symbol ∷ o.paused_assets }

unfoldable pub resume : Option String → Orchestrator → Orchestrator
resume none o = record o { global_pause = false }
resume (some symbol) o = record o {
  paused_assets = keep (λ x. not (str_eq x symbol)) o.paused_assets;
}

unfoldable pub is_paused : String → Orchestrator → Bool
is_paused symbol o = o.global_pause || in_set symbol o.paused_assets

unfoldable pub halt : Orchestrator → Orchestrator
halt o = record o { halted = true; halt_file = true }

-- `removed` is false when the unlink raises, which is passed over.
unfoldable pub unhalt : Bool → Orchestrator → Orchestrator
unhalt removed o = record o { halted = false; halt_file = if removed then false else o.halt_file }

-- `check_halt`: the answer is the field `halted` afterwards.
unfoldable pub check_halt : Orchestrator → Orchestrator
check_halt o = if o.halt_file then record o { halted = true } else o

pub data Published : Type 0 where
  decision : String → String → Action → Published
  trade_opened : String → String → Published

pub record TickResult (F : Type 0) : Type 0 where
  pub plan : TradePlan F
  pub decision_id : String
  pub forced_no_trade : Bool

module _ {F V : Type 0} ⦃fl : Floats F⦄ (b : Backend V) (dump : String → TradePlan F → Dict V) where
  -- `_forced_no_trade`
  unfoldable pub forced_plan : String → TradePlan F
  forced_plan symbol = no_trade_plan "RiskOff" symbol (said "paused/halted" ∷ [])

  -- The messages of one tick.
  abbrev pub messages : String → String → TradePlan F → List Published
  messages decision_id symbol plan =
      decision decision_id symbol plan.action
      ∷ (if is_no_trade plan.action then [] else trade_opened symbol plan.plugin ∷ [])

  -- `tick`; `symbol` and `now` are those of the context, and `dump` is the model dump of the record.
  unfoldable pub tick :
      String
      → String
      → TradePlan F
      → Orchestrator
      → Journal
      → TickResult F × Orchestrator × Journal × List Published
  tick symbol now decided o j =
      let o' = check_halt o in
      let forced = o'.halted || is_paused symbol o' in
      let plan = if forced then forced_plan symbol else decided in
      let decision_id = concat symbol (concat "-" now) in
      let j' =
        (write b (write_decision (some decision_id) symbol now (dump decision_id plan)) j).1 in
      (
        record {
          plan = record plan { decision_id = some decision_id };
          decision_id = decision_id;
          forced_no_trade = forced;
        },
        o',
        j',
        messages decision_id symbol plan,
      )
