-- ===== src/Core/Delivery.antt =====
-- Who is called on a publication.
use aimos.Prelude.{ℕ, ◌≡◌, refl, ap, ◌∙◌, Bool, List, [], ◌∷◌, map}
use aimos.Core.Bus.{Topic, EventBus, Reaction, deliver, publish, call_all}

abbrev pub called_one : ℕ × Bool → ℕ
called_one c = c.0

module _ {P : Type 0} (react : ℕ → Topic → P → Reaction) where
  deliver_calls :
      (t : Topic) (payload : P) (fns : List ℕ) (bus : EventBus)
      → (deliver react t payload fns bus).0 ≡ map (λ fn. (fn, (react fn t payload).has_raised)) fns
  unfolding deliver
  deliver_calls t payload [] bus = refl
  deliver_calls t payload (fn ∷ fns) bus =
      ap (λ called. (fn, (react fn t payload).has_raised) ∷ called)
        (deliver_calls t payload fns (call_all (react fn t payload).calls bus))

  -- A publication calls each subscriber that the topic has when it begins once, in the order of their
  -- subscription, whichever of them raise and whatever they do to the bus meanwhile.
  pub publish_calls :
      (t : Topic) (payload : P) (bus : EventBus)
      → map called_one (publish react t payload bus).0 ≡ bus t
  unfolding publish
  publish_calls t payload bus =
      ap (map called_one) (deliver_calls t payload (bus t) bus) ∙ names (bus t)
    where
      names :
          (fns : List ℕ)
          → map called_one (map (λ fn. (fn, (react fn t payload).has_raised)) fns) ≡ fns
      names [] = refl
      names (fn ∷ fns) = ap (λ gs. fn ∷ gs) (names fns)
