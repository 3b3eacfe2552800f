-- ===== src/Execution/Decide/Safe.antt =====
-- A plan that trades has passed the evaluator, the sizer and the risk manager.
use aimos.Prelude.{
  ◌≡◌, refl, sym, ◌∙◌, ◌⊎◌, inl, inr, true, false, false≢true, Option, some, List, [], Bool-cases,
  Option-cases, or_else, On, absent, present, On-some, ap, subst,
}
use aimos.Prelude.Floats.{Floats, ◌<?◌, IsStrict}
use aimos.Schemas.{is_no_trade, TradePlan, MarketUnderstanding, ExecContext}
use aimos.Execution.Risk.{RiskState, check}
use aimos.Execution.Risk.Gates.{WithinLimits, check_passes_iff, check_result}
use aimos.Execution.Evaluator.{evaluate}
use aimos.Execution.Choice.{IsChosen, evaluate_chooses}
use aimos.Execution.Sizer.{SizingInputs, SizingResult, size}
use aimos.Execution.Sizer.Sized.{IsSized, IsRejected, size_within_caps}
use aimos.Execution.Decide.{
  ExecutionLayer, no_inputs, no_risk, collect, or_idle, new_risk_pct, finish, choose, decide,
}

module _ {F : Type 0} ⦃fl : Floats F⦄ (layer : ExecutionLayer F) (mu : MarketUnderstanding F)
    (ctx : ExecContext F) (inputs : SizingInputs F) (state : RiskState F) where
  -- The plan is a candidate worth taking, whose size keeps to every cap, and it keeps every limit of
  -- the risk manager while the kill switch is off.
  pub record IsSafe (candidates : List (TradePlan F)) (p : TradePlan F) : Type 0 where
    pub winner : TradePlan F
    pub chosen : IsChosen layer.evaluator mu candidates winner
    pub score_reached : (winner.score <? layer.evaluator.min_trade_score) ≡ false
    pub result : SizingResult F
    pub sized : IsSized layer.sizer winner ctx inputs result p
    pub no_kill_switch : state.kill_switch ≡ false
    pub limits : WithinLimits layer.risk_manager p mu ctx state (new_risk_pct p ctx)

  abbrev Trades : List (TradePlan F) → TradePlan F → Type 0
  Trades candidates p = (is_no_trade p.action ≡ true) ⊎ IsSafe candidates p

  check-Trades :
      (candidates : List (TradePlan F))
      → (p : TradePlan F)
      → ((state.kill_switch ≡ false)
          → WithinLimits layer.risk_manager p mu ctx state (new_risk_pct p ctx)
          → IsSafe candidates p)
      → Trades candidates (check layer.risk_manager p mu ctx state (new_risk_pct p ctx)).plan
  check-Trades candidates p safe =
      elim (check_result layer.risk_manager p mu ctx state (new_risk_pct p ctx)) [
        | inl (_, passed, same) ↦ subst (Trades candidates) (sym same) (
            let (off, kept) =
              (check_passes_iff layer.risk_manager p mu ctx state (new_risk_pct p ctx)).0 passed in
            elim kept [ inl idle ↦ inl idle | inr limits ↦ inr (safe off limits) ])
        | inr (v, _, _, idle, _, _, _, _) ↦ inl (ap is_no_trade idle)
      ]

  finish-Trades :
      (candidates : List (TradePlan F))
      → (winner : TradePlan F) → IsChosen layer.evaluator mu candidates winner
      → (winner.score <? layer.evaluator.min_trade_score) ≡ false
      → (x : SizingResult F × TradePlan F)
      → IsRejected layer.sizer winner ctx inputs x.0 x.1
        ⊎ IsSized layer.sizer winner ctx inputs x.0 x.1
      → Trades candidates (finish layer mu ctx state winner x)
  unfolding finish
  finish-Trades candidates winner chosen reached (result, p) (inl h) = rw (h.rejected) (inl refl)
  finish-Trades candidates winner chosen reached (result, p) (inr h) = rw (h.placed.accepted) (
      check-Trades candidates p (λ off limits. record {
        winner = winner;
        chosen = chosen;
        score_reached = reached;
        result = result;
        sized = h;
        no_kill_switch = off;
        limits = limits;
      }))

  choose-Trades :
      IsStrict fl
      → (candidates : List (TradePlan F))
      → On (Trades candidates) (choose layer mu ctx inputs state candidates)
  unfolding choose
  choose-Trades strict candidates =
      let winner = evaluate layer.evaluator candidates mu in
      elim (evaluate_chooses layer.evaluator mu candidates) [
        | inl idle ↦ rw (choose, idle) (present (inl idle))
        | inr (chosen, reached) ↦ elim (Bool-cases (is_no_trade winner.action)) [
          | inl idle ↦ rw (choose, idle) (present (inl idle))
          | inr trades ↦ elim (Option-cases (size layer.sizer winner ctx inputs)) [
            | inl e ↦ rw (choose, trades, e) absent
            | inr (x, e) ↦
                rw (choose, trades, e)
                  (present (
                    finish-Trades candidates winner chosen reached x
                      (size_within_caps layer.sizer winner ctx inputs strict x e)))
          ]
        ]
      ]

module _ {F : Type 0} ⦃fl : Floats F⦄ (layer : ExecutionLayer F) (mu : MarketUnderstanding F)
    (ctx : ExecContext F) (inputs : Option (SizingInputs F)) (state : Option (RiskState F)) where
  -- Where `<` is a strict order: when the decision is a plan that trades, that plan is one of the
  -- plugins' proposals, worth taking and scored at the minimum or above; its size is finite, above zero, no
  -- less than the exchange's minimum and no more than each cap; the kill switch is off and the plan
  -- keeps every limit of the risk manager.
  pub decide-IsSafe :
      IsStrict fl
      → (candidates : List (TradePlan F)) → (p : TradePlan F)
      → collect layer.plugins mu ctx [] ≡ some candidates
      → decide layer mu ctx inputs state ≡ some p
      → is_no_trade p.action ≡ false
      → IsSafe layer mu ctx
          (or_else inputs no_inputs)
          (or_else state no_risk)
          (or_idle mu candidates)
          p
  unfolding decide
  decide-IsSafe strict candidates p collected decided trades =
      let here =
        choose layer mu ctx (or_else inputs no_inputs) (or_else state no_risk)
          (or_idle mu candidates) in
      let same : here ≡ some p = rw (decide, collected) refl ∙ decided in
      elim (On-some
        (choose-Trades layer mu ctx (or_else inputs no_inputs) (or_else state no_risk) strict
          (or_idle mu candidates))
        same) [ inl idle ↦ absurd (false≢true (sym trades ∙ idle)) | inr safe ↦ safe ]
