-- ===== src/Data/Released.antt =====
-- What the loop of a drain releases.
use mathlib.Core.List.{append-nil, append_assoc}
use aimos.Prelude.{
  ℕ, suc, String, ◌≡◌, ◌∙◌, ap, refl, ◌⊎◌, inl, inr, ◌+◌, Option, none, some, List, [], ◌∷◌, ◌++◌,
  map, arith, length, Bool-cases, Option-cases,
}
use aimos.Prelude.Floats.{Floats, nat}
use aimos.Data.RateLimit.{
  Pending, Budgeter, bucket_of, try_consume, restore_ceiling, grant, drain_queue,
}

module _ {F : Type 0} where
  module _ ⦃fl : Floats F⦄ where
    -- A first part of the queue is released, the rest stays, and the counter goes up by as many. The
    -- answer is what was granted before with the classes of that part, unless there was a KeyError.
    abbrev pub Released :
        List Pending
        → List String
        → Budgeter F
        → Option (List String) × List Pending × Budgeter F
        → Type 0
    Released queue granted b (answer, left, b') =
        (b'.queues ≡ b.queues)
        × ((taken : List Pending) × (taken ++ left ≡ queue)
            × (b'.metrics.granted ≡ b.metrics.granted + length taken)
            × ((answer ≡ none) ⊎ (answer ≡ some (granted ++ map (λ p. p.weight_class) taken))))

    Released-cons :
        (p : Pending) (queue : List Pending) (granted : List String) (b b1 : Budgeter F)
        (res : Option (List String) × List Pending × Budgeter F)
        → b1.queues ≡ b.queues
        → b1.metrics.granted ≡ suc b.metrics.granted
        → Released queue (granted ++ p.weight_class ∷ []) b1 res
        → Released (p ∷ queue) granted b res
    Released-cons p queue granted b b1 res q g (same, (taken, split, count, answer)) = (
      same ∙ q,
      (
        p ∷ taken,
        ap (λ xs. p ∷ xs) split,
        omega (arith, g, count),
        elim answer [
          | inl raised ↦ inl raised
          | inr e ↦ inr (
              rw (append_assoc granted (p.weight_class ∷ []) (map (λ p. p.weight_class) taken)) at
                e)
        ],
      ),
    )

    pub drain_queue_lem :
        (exchange : String) (now : ℕ) (queue : List Pending) (granted : List String)
        (b : Budgeter F)
        → Released queue granted b (drain_queue exchange now queue granted b)
    unfolding drain_queue
    drain_queue_lem exchange now [] granted b =
        (refl, ([], refl, omega arith, inr (rw append-nil refl)))
    drain_queue_lem exchange now (p ∷ queue) granted b =
        elim (Option-cases (bucket_of exchange p.weight_class b.buckets)) [
          | inl e ↦ rw (e, drain_queue) (refl, ([], refl, omega arith, inl refl))
          | inr (k, e) ↦
              let (ok, k') = try_consume (nat p.cost) now k in
              let b1 = grant exchange p.weight_class k' b in
              elim (Bool-cases ok) [
                | inl served ↦
                    rw (e, drain_queue)
                      (rw (served) (
                        Released-cons p queue granted b b1
                          (drain_queue exchange now queue (granted ++ p.weight_class ∷ []) b1) refl
                          refl
                          (drain_queue_lem exchange now queue (granted ++ p.weight_class ∷ []) b1)))
                | inr short ↦
                    rw (e, drain_queue)
                      (rw (short) (refl, ([], refl, omega arith, inr (rw append-nil refl))))
              ]
        ]

    pub restore-queues :
        (exchange : String) (now : ℕ) (b : Budgeter F)
        → (restore_ceiling exchange now b).queues ≡ b.queues
    unfolding restore_ceiling
    restore-queues exchange now b = ground arith
