-- ===== src/Execution/Trade/Stops.antt =====
-- The stop of a managed position.
use aimos.Prelude.{◌≡◌, ◌⊎◌, true, List, [], ◌∷◌, arith, inl, inr, if◌then◌else◌}
use aimos.Prelude.Int.{ℤ}
use aimos.Prelude.Floats.{Floats, ◌<?◌}
use aimos.Schemas.{Action, is_long, Position}
use aimos.Execution.Trade.{
  TradeCfg, ManagementState, Tick, breakeven_rule, partial_rule, trail_rule, manage, step,
  r_multiple,
}

module _ {F : Type 0} ⦃fl : Floats F⦄ where
  -- `b` is a stop nearer to the price than `a`: above it for a long position, below it for a short one.
  abbrev pub Tighter : Action → F → F → Type 0
  Tighter side a b = (if is_long side then a <? b else b <? a) ≡ true

  -- From the stop `a` to the stop `b` by tightening, any number of times.
  pub data Tightened (side : Action) (a : F) : F → Type 0 where
    same : Tightened side a a
    more : {b c : F} → Tightened side a b → Tighter side b c → Tightened side a c

  module _ (cfg : TradeCfg F) (p : Position F) where
    trail_rule_stop :
        (t : Tick F) (r : F) (s : ManagementState F)
        → ((trail_rule cfg p t r s).1.breakeven_done ≡ s.breakeven_done)
          × (((trail_rule cfg p t r s).1.current_stop ≡ s.current_stop)
              ⊎ Tighter p.side s.current_stop (trail_rule cfg p t r s).1.current_stop)
    unfolding trail_rule
    trail_rule_stop t r s = ground arith

    early_rules_stop :
        (now : ℤ) (r : F) (s : ManagementState F)
        → s.breakeven_done ≡ true
        → let s2 = (partial_rule cfg p now r (breakeven_rule cfg p now r s).1).1 in
          (s2.breakeven_done ≡ true) × (s2.current_stop ≡ s.current_stop)
    unfolding breakeven_rule partial_rule
    early_rules_stop now r s h = ground arith

    manage_stop :
        (t : Tick F) (r : F) (s : ManagementState F)
        → s.breakeven_done ≡ true
        → ((manage cfg p t r s).1.breakeven_done ≡ true)
          × (((manage cfg p t r s).1.current_stop ≡ s.current_stop)
              ⊎ Tighter p.side s.current_stop (manage cfg p t r s).1.current_stop)
    unfolding manage
    manage_stop t r s h =
        let e = early_rules_stop t.now r s h in
        let s2 = (partial_rule cfg p t.now r (breakeven_rule cfg p t.now r s).1).1 in
        rw (← e.1) (ground (arith, trail_rule_stop t r s2, e.0))

    -- Of a position past its break-even no call moves the stop away from the price.
    pub step_stop :
        (t : Tick F) (s : ManagementState F)
        → s.breakeven_done ≡ true
        → ((step cfg p t s).1.breakeven_done ≡ true)
          × (((step cfg p t s).1.current_stop ≡ s.current_stop)
              ⊎ Tighter p.side s.current_stop (step cfg p t s).1.current_stop)
    unfolding step
    step_stop t s h = ground (arith, manage_stop t (r_multiple p t.price s) s)

    -- The state after a series of calls.
    abbrev pub run : List (Tick F) → ManagementState F → ManagementState F
    run [] s = s
    run (t ∷ ts) s = run ts (step cfg p t s).1

    Tightened-step :
        (a : F) (t : Tick F) (s : ManagementState F)
        → s.breakeven_done ≡ true
        → Tightened p.side a s.current_stop
        → Tightened p.side a (step cfg p t s).1.current_stop
    Tightened-step a t s h d = elim (step_stop t s h).1 [ inl e ↦ rw e d | inr m ↦ more d m ]

    run_from :
        (a : F) (ts : List (Tick F)) (s : ManagementState F)
        → s.breakeven_done ≡ true
        → Tightened p.side a s.current_stop
        → Tightened p.side a (run ts s).current_stop
    run_from a [] s h d = d
    run_from a (t ∷ ts) s h d =
        run_from a ts (step cfg p t s).1 (step_stop t s h).0 (Tightened-step a t s h d)

    -- Once a position is past its break-even, its stop only ever moves towards the price: over any
    -- series of calls it goes up for a long position and down for a short one, or stays.
    pub stop_never_widens :
        (ts : List (Tick F)) (s : ManagementState F)
        → s.breakeven_done ≡ true
        → Tightened p.side s.current_stop (run ts s).current_stop
    stop_never_widens ts s h = run_from s.current_stop ts s h same
