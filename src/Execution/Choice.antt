-- ===== src/Execution/Choice.antt =====
-- What the evaluator selects.
use mathlib.Core.List.{Memᴰ}
use aimos.Prelude.{
  ◌≡◌, refl, ◌⊎◌, inl, inr, true, false, Option, none, some, List, [], ◌∷◌, ◌++◌, arith, All,
  All-append, Bool-cases, Option-cases, or_else,
}
use aimos.Prelude.Floats.{Floats, ◌<?◌, ◌≤?◌, nat}
use aimos.Schemas.{is_no_trade, TradePlan, MarketUnderstanding}
use aimos.Execution.Evaluator.{
  EvaluatorCfg, risk_bps, expected_value, cost_fraction_exceeded, drop_reason, scored_as, baseline,
  score_all, best_from, synthetic_no_trade, pick, evaluate,
}

module _ {F : Type 0} ⦃fl : Floats F⦄ (cfg : EvaluatorCfg F) (mu : MarketUnderstanding F) where
  -- A candidate that trades, with a usable stop, costs within the fraction and a finite expected
  -- value above zero.
  pub record IsWorthTaking (c : TradePlan F) : Type 0 where
    pub trades : is_no_trade c.action ≡ false
    pub stop_usable : (risk_bps c ≤? nat 0) ≡ false
    pub costs_fit : cost_fraction_exceeded cfg c ≡ false
    pub ev_finite : fl.is_finite (expected_value c cfg.losing_r) ≡ true
    pub ev_positive : (expected_value c cfg.losing_r ≤? nat 0) ≡ false

  drop_reason-IsWorthTaking :
      (c : TradePlan F) → is_no_trade c.action ≡ false → drop_reason cfg c ≡ none → IsWorthTaking c
  unfolding drop_reason
  drop_reason-IsWorthTaking c e h = ground (arith, h)

  -- The plan is one of the candidates with the score of the evaluator.
  pub record IsChosen (all : List (TradePlan F)) (p : TradePlan F) : Type 0 where
    pub candidate : TradePlan F
    pub member : Memᴰ candidate all
    pub worth : IsWorthTaking candidate
    pub scored : p ≡ scored_as cfg mu candidate

  abbrev IsGood : List (TradePlan F) → TradePlan F → Type 0
  IsGood all p = (is_no_trade p.action ≡ true) ⊎ IsChosen all p

  abbrev IsIdle : Option (TradePlan F) → Type 0
  IsIdle none = Unit
  IsIdle (some p) = is_no_trade p.action ≡ true

  score_all-IsGood :
      (all cs scored : List (TradePlan F)) (idle : Option (TradePlan F))
      → ((c : TradePlan F) → Memᴰ c cs → Memᴰ c all)
      → All (IsGood all) scored
      → IsIdle idle
      → All (IsGood all) (score_all cfg mu cs scored idle).0
        × IsIdle (score_all cfg mu cs scored idle).1
  unfolding score_all
  score_all-IsGood all [] scored idle sub h k = (h, k)
  score_all-IsGood all (c ∷ cs) scored idle sub h k =
      let sub' : (d : TradePlan F) → Memᴰ d cs → Memᴰ d all = λ d m. sub d (Memᴰ.tail m) in
      elim (Bool-cases (is_no_trade c.action)) [
        | inl e ↦ rw (e) (
            score_all-IsGood all cs (scored ++ baseline cfg c ∷ []) (some (baseline cfg c)) sub'
              (All-append (IsGood all) scored (baseline cfg c ∷ []) h (inl e, tt)) e)
        | inr e ↦ elim (Option-cases (drop_reason cfg c)) [
          | inl d ↦
              let good : IsChosen all (scored_as cfg mu c) = record {
                candidate = c;
                member = sub c (Memᴰ.head refl);
                worth = drop_reason-IsWorthTaking c e d;
                scored = refl;
              } in
              rw (e, d)
                (score_all-IsGood all cs (scored ++ scored_as cfg mu c ∷ []) idle sub'
                  (All-append (IsGood all) scored (scored_as cfg mu c ∷ []) h (inr good, tt)) k)
          | inr (r, d) ↦ rw (e, d) (score_all-IsGood all cs scored idle sub' h k)
        ]
      ]

  best_from-keeps :
      (P : TradePlan F → Type 0) (best : TradePlan F) (cs : List (TradePlan F))
      → P best
      → All P cs
      → P (best_from best cs)
  best_from-keeps P best [] h _ = h
  best_from-keeps P best (c ∷ cs) h hs = elim (Bool-cases (best.score <? c.score)) [
    | inl e ↦ rw (e) (best_from-keeps P c cs hs.0 hs.1)
    | inr e ↦ rw (e) (best_from-keeps P best cs h hs.1)
  ]

  idle_plan :
      (idle : Option (TradePlan F))
      → IsIdle idle
      → is_no_trade (or_else idle (synthetic_no_trade cfg mu)).action ≡ true
  idle_plan none _ = refl
  idle_plan (some p) h = h

  pick-IsChosen :
      (all scored : List (TradePlan F)) (idle : Option (TradePlan F))
      → All (IsGood all) scored
      → IsIdle idle
      → (is_no_trade (pick cfg mu (scored, idle)).action ≡ true)
        ⊎ (IsChosen all (pick cfg mu (scored, idle))
            × (((pick cfg mu (scored, idle)).score <? cfg.min_trade_score) ≡ false))
  unfolding pick
  pick-IsChosen all [] idle h k = inl (idle_plan idle k)
  pick-IsChosen all (c ∷ cs) idle h k =
      let best = best_from c cs in
      elim (Bool-cases (is_no_trade best.action)) [
        | inl e ↦ rw (e) (inl e)
        | inr e ↦ elim (Bool-cases (best.score <? cfg.min_trade_score)) [
          | inl low ↦ rw (e, low) (inl (idle_plan idle k))
          | inr high ↦
              rw (e, high)
                (elim (best_from-keeps (IsGood all) c cs h.0 h.1) [
                  | inl e' ↦ inl e'
                  | inr good ↦ inr (good, high)
                ])
        ]
      ]

  -- The evaluator's plan either trades nothing, or it is one of the candidates with its score, that
  -- candidate trades with a usable stop, costs within the fraction and a finite expected value above
  -- zero, and the score is not below the minimum.
  pub evaluate_chooses :
      (candidates : List (TradePlan F))
      → let p = evaluate cfg candidates mu in
        (is_no_trade p.action ≡ true)
        ⊎ (IsChosen candidates p × ((p.score <? cfg.min_trade_score) ≡ false))
  unfolding evaluate
  evaluate_chooses candidates =
      let (good, idle) = score_all-IsGood candidates candidates [] none (λ _ m. m) tt tt in
      pick-IsChosen candidates (score_all cfg mu candidates [] none).0
        (score_all cfg mu candidates [] none).1 good idle
