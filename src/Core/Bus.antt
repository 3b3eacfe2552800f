-- ===== src/Core/Bus.antt =====
-- The event bus: aimos/core/bus.py. A subscriber is a number by which it is compared. What it does when
-- it is called, with the topic and the payload, is an argument: the calls that it makes on the bus
-- itself, and whether it raises then.
use aimos.Prelude.{ℕ, Bool, List, [], ◌∷◌, ◌++◌, length, any_of, ◌==◌, if◌then◌else◌}

pub data Topic : Type 0 where
  decision trade_opened trade_closed management_event regime_change : Topic
  tier_change risk_alert venue_status agent_event system_health : Topic

abbrev topic_place : Topic → ℕ
topic_place decision = 0
topic_place trade_opened = 1
topic_place trade_closed = 2
topic_place management_event = 3
topic_place regime_change = 4
topic_place tier_change = 5
topic_place risk_alert = 6
topic_place venue_status = 7
topic_place agent_event = 8
topic_place system_health = 9

abbrev pub same_topic : Topic → Topic → Bool
same_topic a b = topic_place a == topic_place b

-- `_subs`: the subscribers of each topic, in the order of the calls of `subscribe`.
abbrev pub EventBus : Type 0
EventBus = Topic → List ℕ

abbrev pub new_bus : EventBus
new_bus _ = []

abbrev set_subs : Topic → List ℕ → EventBus → EventBus
set_subs t fns bus u = if same_topic t u then fns else bus u

unfoldable pub subscribe : Topic → ℕ → EventBus → EventBus
subscribe t fn bus = set_subs t (bus t ++ fn ∷ []) bus

-- `list.remove`, of the first that is equal
unfoldable pub remove : ℕ → List ℕ → List ℕ
remove fn [] = []
remove fn (g ∷ gs) = let rest = remove fn gs in if g == fn then gs else g ∷ rest

unfoldable pub unsubscribe : Topic → ℕ → EventBus → EventBus
unfolding remove
unsubscribe t fn bus =
    if any_of (λ g. g == fn) (bus t) then set_subs t (remove fn (bus t)) bus else bus

abbrev pub subscriber_count : Topic → EventBus → ℕ
subscriber_count t bus = length (bus t)

-- A call that a subscriber makes on the bus.
pub data BusCall : Type 0 where
  subscribes unsubscribes : Topic → ℕ → BusCall

abbrev pub call : BusCall → EventBus → EventBus
call (subscribes t fn) bus = subscribe t fn bus
call (unsubscribes t fn) bus = unsubscribe t fn bus

abbrev pub call_all : List BusCall → EventBus → EventBus
call_all [] bus = bus
call_all (c ∷ cs) bus = call_all cs (call c bus)

-- What a subscriber does to the bus when it is called: it subscribes and unsubscribes, and returns or
-- raises. A subscriber that publishes in its turn is not modelled.
pub record Reaction : Type 0 where
  pub calls : List BusCall
  pub has_raised : Bool

module _ {P : Type 0} (react : ℕ → Topic → P → Reaction) where
  -- The loop of `publish` over the copied list: who was called, with whether it raised, which is only
  -- logged, and the bus as it is then.
  unfoldable pub deliver : Topic → P → List ℕ → EventBus → List (ℕ × Bool) × EventBus
  deliver t payload [] bus = ([], bus)
  deliver t payload (fn ∷ fns) bus =
      let r = react fn t payload in
      let (called, bus') = deliver t payload fns (call_all r.calls bus) in
      ((fn, r.has_raised) ∷ called, bus')

  unfoldable pub publish : Topic → P → EventBus → List (ℕ × Bool) × EventBus
  publish t payload bus = deliver t payload (bus t) bus
