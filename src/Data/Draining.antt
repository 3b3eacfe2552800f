-- ===== src/Data/Draining.antt =====
-- What a drain releases.
use text.Mathlib.TextPositions.{eq_refl}
use aimos.Prelude.{
  ℕ, String, ◌≡◌, ◌∙◌, ap, refl, ◌⊎◌, inl, inr, ◌+◌, Option, none, some, List, [], ◌++◌, map, arith,
  length, Bool-cases, Option-cases, or_else,
}
use aimos.Prelude.Dict.{lookup, lookup-insert}
use aimos.Prelude.Floats.{Floats}
use aimos.Data.RateLimit.{
  Pending, Budgeter, queue_of, is_backing_off, restore_ceiling, drain_queue, drain,
}
use aimos.Data.Released.{drain_queue_lem, restore-queues}

abbrev First : List Pending → ℕ → Option (List String) → List Pending → ℕ → Type 0
First queue count answer left count' =
    (taken : List Pending) × (taken ++ left ≡ queue)
    × (count' ≡ count + length taken)
    × ((answer ≡ none) ⊎ (answer ≡ some (map (λ p. p.weight_class) taken)))

module _ {F : Type 0} ⦃fl : Floats F⦄ where
  restore-metrics :
      (exchange : String) (now : ℕ) (b : Budgeter F)
      → (restore_ceiling exchange now b).metrics.granted ≡ b.metrics.granted
  unfolding restore_ceiling
  restore-metrics exchange now b = ground arith

  drain-First :
      (exchange : String) (now : ℕ) (b : Budgeter F)
      → let b0 = restore_ceiling exchange now b in
        let (answer, b') = drain exchange now b in
        First
          (queue_of exchange b0)
          b0.metrics.granted
          answer
          (queue_of exchange b')
          b'.metrics.granted
  unfolding drain
  drain-First exchange now b =
      let b0 = restore_ceiling exchange now b in
      elim (Bool-cases (is_backing_off exchange now b0)) [
        | inl waits ↦ rw (waits, drain) ([], refl, omega arith, inr refl)
        | inr free ↦ elim (Option-cases (lookup exchange b0.queues)) [
          | inl e ↦ rw (free, drain) (rw (e) ([], rw (e) refl, omega arith, inr refl))
          | inr (queue, e) ↦
              let (_, left, b1) = drain_queue exchange now queue [] b0 in
              let (same, (taken, split, count, answer)) =
                drain_queue_lem exchange now queue [] b0 in
              rw (free, drain)
                (rw (e) (
                  rw (lookup-insert exchange exchange left b1.queues, eq_refl)
                    (taken, split, count, answer)))
        ]
      ]

  -- A drain releases a first part of the queue of its exchange, in the order of the queue: the rest
  -- stays as it was, the counter of grants goes up by the number released, and the answer names their
  -- classes, unless some request had no bucket.
  pub drain_lem :
      (exchange : String) (now : ℕ) (b : Budgeter F)
      → let (answer, b') = drain exchange now b in
        (taken : List Pending) × (taken ++ queue_of exchange b' ≡ queue_of exchange b)
        × (b'.metrics.granted ≡ b.metrics.granted + length taken)
        × ((answer ≡ none) ⊎ (answer ≡ some (map (λ p. p.weight_class) taken)))
  drain_lem exchange now b =
      let (taken, split, count, answer) = drain-First exchange now b in
      (
        taken,
        split ∙ ap (λ qs. or_else (lookup exchange qs) []) (restore-queues exchange now b),
        omega (arith, count, restore-metrics exchange now b),
        answer,
      )
