-- ===== src/Execution/Trade/Events.antt =====
-- The events that a position has over its life.
use aimos.Prelude.{
  ℕ, ◌+◌, ◌≤◌, ◌≡◌, Bool, true, false, List, [], ◌∷◌, ◌++◌, arith, count_if, count_if-append,
  if◌then◌else◌,
}
use aimos.Prelude.Floats.{Floats}
use aimos.Schemas.{Position}
use aimos.Execution.Trade.{
  TradeCfg, ManagementState, ManagementEvent, breakeven, partial_tp, Tick, breakeven_rule,
  partial_rule, trail_rule, manage, step, r_multiple, liquidity,
}

module _ {F : Type 0} where
  abbrev pub is_breakeven : ManagementEvent F → Bool
  is_breakeven e = elim e.kind [ breakeven _ ↦ true | _ ↦ false ]

  abbrev pub is_partial : ManagementEvent F → Bool
  is_partial e = elim e.kind [ partial_tp _ ↦ true | _ ↦ false ]

abbrev pub flag : Bool → ℕ
flag b = if b then 1 else 0

module _ {F : Type 0} ⦃fl : Floats F⦄ (cfg : TradeCfg F) (p : Position F) where
  -- One break-even event for each time that the flag goes up, and none else; likewise for the partial.
  abbrev Counted : List (ManagementEvent F) → ManagementState F → ManagementState F → Type 0
  Counted es s s' =
      (count_if is_breakeven es + flag s.breakeven_done ≡ flag s'.breakeven_done)
      × (count_if is_partial es + flag s.partial_done ≡ flag s'.partial_done)

  Counted-breakeven :
      (t : Tick F) (r : F) (s : ManagementState F)
      → Counted (breakeven_rule cfg p t.now r s).0 s (breakeven_rule cfg p t.now r s).1
  unfolding breakeven_rule
  Counted-breakeven t r s = ground arith

  Counted-partial :
      (t : Tick F) (r : F) (s : ManagementState F)
      → Counted (partial_rule cfg p t.now r s).0 s (partial_rule cfg p t.now r s).1
  unfolding partial_rule
  Counted-partial t r s = ground arith

  Counted-trail :
      (t : Tick F) (r : F) (s : ManagementState F)
      → Counted (trail_rule cfg p t r s).0 s (trail_rule cfg p t r s).1
  unfolding trail_rule
  Counted-trail t r s = ground arith

  liquidity_count :
      (t : Tick F)
      → (count_if is_breakeven (liquidity cfg p t) ≡ 0)
        × (count_if is_partial (liquidity cfg p t) ≡ 0)
  unfolding liquidity
  liquidity_count t = ground arith

  Counted-append :
      (xs ys : List (ManagementEvent F)) (s s1 s2 : ManagementState F)
      → Counted xs s s1
      → Counted ys s1 s2
      → Counted (xs ++ ys) s s2
  Counted-append xs ys s s1 s2 h k = (
    omega (arith, count_if-append is_breakeven xs ys, h.0, k.0),
    omega (arith, count_if-append is_partial xs ys, h.1, k.1),
  )

  Counted-manage :
      (t : Tick F) (r : F) (s : ManagementState F)
      → Counted (manage cfg p t r s).0 s (manage cfg p t r s).1
  unfolding manage
  Counted-manage t r s =
      let (e1, s1) = breakeven_rule cfg p t.now r s in
      let (e2, s2) = partial_rule cfg p t.now r s1 in
      let (e3, s3) = trail_rule cfg p t r s2 in
      Counted-append e1 (e2 ++ (e3 ++ liquidity cfg p t)) s s1 s3 (Counted-breakeven t r s) (
        Counted-append e2 (e3 ++ liquidity cfg p t) s1 s2 s3 (Counted-partial t r s1) (
          Counted-append e3 (liquidity cfg p t) s2 s3 s3 (Counted-trail t r s2)
            (omega (arith, liquidity_count t))))

  Counted-step :
      (t : Tick F) (s : ManagementState F) → Counted (step cfg p t s).0 s (step cfg p t s).1
  unfolding step
  Counted-step t s = ground (arith, Counted-manage t (r_multiple p t.price s) s)

  -- The events of a series of calls, the state of each call going on to the next.
  abbrev pub run_events : List (Tick F) → ManagementState F → List (ManagementEvent F)
  run_events [] s = []
  run_events (t ∷ ts) s = (step cfg p t s).0 ++ run_events ts (step cfg p t s).1

  -- Over any series of calls a position has at most one break-even and at most one partial
  -- take-profit, and none of a kind that its state says is done.
  pub at_most_once :
      (ts : List (Tick F)) (s : ManagementState F)
      → (count_if is_breakeven (run_events ts s) + flag s.breakeven_done ≤ 1)
        × (count_if is_partial (run_events ts s) + flag s.partial_done ≤ 1)
  at_most_once [] s = ground arith
  at_most_once (t ∷ ts) s =
      let s' = (step cfg p t s).1 in
      let es = (step cfg p t s).0 in
      (
        omega (
          arith,
          count_if-append is_breakeven es (run_events ts s'),
          (Counted-step t s).0,
          (at_most_once ts s').0,
        ),
        omega (
          arith,
          count_if-append is_partial es (run_events ts s'),
          (Counted-step t s).1,
          (at_most_once ts s').1,
        ),
      )
