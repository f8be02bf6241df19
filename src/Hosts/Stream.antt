-- ===== src/Hosts/Stream.antt =====
-- broker/app/api/v1/host_events.py: the stream of events to one administrator, a generator over a
-- subscription. The generators run in turns: whoever publishes, subscribes, reads or leaves does so
-- between two reads of this stream.
pub mod Unread
pub mod Order
use smart_classroom.Prelude.{
  ℕ, ◌≡◌, ◌≢◌, Bool, List, [], ◌∷◌, ◌++◌, Option, none, some, ◌==◌, String, if◌then◌else◌, map, inl,
  inr,
}
use smart_classroom.Hosts.Events.{
  Event, Subscriber, HostEventBroker, publish, subscribe, unsubscribe,
}

-- A dict that the generator yields to sse-starlette.
pub record Message : Type 0 where
  pub event : String
  pub data_text : String

abbrev pub ready : Message
ready = record { event = "ready"; data_text = "{}" }

-- The queue under a key.
unfoldable pub queue_in : ℕ → List Subscriber → Option (List Event)
queue_in k [] = none
queue_in k (s ∷ rest) = let later = queue_in k rest in if s.key == k then some s.queue else later

abbrev pub queue_of : ℕ → HostEventBroker → Option (List Event)
queue_of k b = queue_in k (b.subscribers ++ b.detached)

unfoldable pub put_back : ℕ → List Event → List Subscriber → List Subscriber
put_back k q [] = []
put_back k q (s ∷ rest) =
    let later = put_back k q rest in if s.key == k then record s { queue = q } ∷ rest else s ∷ later

-- `await queue.get()`: none while the generator's own queue is empty, whether or not it is
-- still in the broker's list.
unfoldable pub get : ℕ → HostEventBroker → Option (Event × HostEventBroker)
get k b = elim (queue_of k b) [
  | none ↦ none
  | some q ↦ elim q [
    | [] ↦ none
    | e ∷ q' ↦ some (
      e,
      record b { subscribers = put_back k q' b.subscribers; detached = put_back k q' b.detached },
    )
  ]
]

-- What one turn of the `async for` comes to: it waits, it leaves the loop, or it yields.
pub data Turn : Type 0 where
  waits : Turn
  leaves : HostEventBroker → Turn
  yields : Event → HostEventBroker → Turn

-- `disconnected` is `await request.is_disconnected()`; as the loop is left the subscription is closed.
unfoldable pub turn : ℕ → Bool → HostEventBroker → Turn
turn k disconnected b = elim (get k b) [
  | none ↦ waits
  | some (e, b') ↦ if disconnected then leaves (unsubscribe k b') else yields e b'
]

module _ (dumps : Event → String) where
  -- The event's kind is "host.status" for every event that is published.
  abbrev pub message_of : Event → Message
  message_of e = record { event = "host.status"; data_text = dumps e }

  -- All that `_generator` has yielded once it has read `events`.
  unfoldable pub generated : List Event → List Message
  generated events = ready ∷ map message_of events
