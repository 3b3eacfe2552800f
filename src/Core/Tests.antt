-- ===== src/Core/Tests.antt =====
-- The event bus and the registry at a few names.
use aimos.Prelude.{ℕ, ◌≡◌, refl, String, true, none, some, [], ◌∷◌, map, is_some, if◌then◌else◌}
use aimos.Prelude.Dict.{lookup}
use aimos.Core.Bus.{
  Topic, decision, risk_alert, EventBus, new_bus, subscribe, unsubscribe, unsubscribes, Reaction,
  publish, subscriber_count,
}
use aimos.Core.Delivery.{called_one, publish_calls}
use aimos.Core.Evidence.{is_registered, require_registered, semantics, feature_index}
use aimos.Core.Layout.{feature_index_lem, semantics_iff_registered}

abbrev two : EventBus
two = subscribe decision 8 (subscribe decision 7 new_bus)

-- The first subscriber takes the second one off the list, and raises.
abbrev hostile : ℕ → Topic → String → Reaction
hostile _ _ _ = record { calls = unsubscribes decision 8 ∷ []; has_raised = true }

publish_calls_example : map called_one (publish hostile decision "payload" two).0 ≡ two decision
publish_calls_example = publish_calls hostile decision "payload" two

two_test : two decision ≡ 7 ∷ 8 ∷ []
unfolding subscribe
two_test = refl

one_left_test : (publish hostile decision "payload" two).1 decision ≡ 7 ∷ []
unfolding publish aimos.Core.Bus.deliver subscribe unsubscribe
one_left_test = refl

feature_index_lem_test : lookup "bos" feature_index ≡ some 1
feature_index_lem_test = feature_index_lem 1 "bos" refl

semantics_iff_registered_test :
    (is_some (semantics "factor_12") ≡ is_registered "factor_12")
    × (require_registered "factor_12"
        ≡ (if is_registered "factor_12" then some "factor_12" else none))
semantics_iff_registered_test = semantics_iff_registered "factor_12"
