-- ===== src/Hosts/Events.antt =====
-- broker/app/services/host_events.py: the fan-out of status events to the subscribers' queues.
-- A queue is an `asyncio.Queue(maxsize=QUEUE_MAXSIZE)`, a list with its oldest event first; `key`
-- is the queue's identity, by which `list.remove` finds it.
use smart_classroom.Prelude.{
  ℕ, suc, Bool, true, false, List, [], ◌∷◌, ◌++◌, Option, none, some, ◌==◌, ltb, String,
  if◌then◌else◌, length, map,
}
use smart_classroom.Domain.Rows.{HostStatus}

pub record Event : Type 0 where
  pub host_id : ℕ
  pub hostname : String
  pub old : HostStatus
  pub new : HostStatus
  pub reason : String
  pub ts : ℕ

pub record Subscriber : Type 0 where
  pub key : ℕ
  pub queue : List Event

-- `detached` are the queues of the generators that run on after `close` has cleared the list: they are
-- out of the reach of `publish`, while their generators still read what is left in them.
pub record HostEventBroker : Type 0 where
  pub subscribers : List Subscriber
  pub detached : List Subscriber
  pub closed : Bool
  pub next_key : ℕ

abbrev pub queue_maxsize : ℕ
queue_maxsize = 100

abbrev pub new_broker : HostEventBroker
new_broker = record { subscribers = []; detached = []; closed = false; next_key = 0 }

-- `queue.put_nowait(event)`: none for QueueFull.
abbrev pub put_nowait : List Event → Event → Option (List Event)
put_nowait q event = if ltb (length q) queue_maxsize then some (q ++ event ∷ []) else none

-- `with contextlib.suppress(Exception): queue.get_nowait()`
abbrev pub drop_oldest : List Event → List Event
drop_oldest [] = []
drop_oldest (x ∷ q) = q

-- One round of the loop of `publish`; if the second put fails too the event is dropped.
unfoldable pub enqueue : Event → List Event → List Event
enqueue event q = elim (put_nowait q event) [
  | some q' ↦ q'
  | none ↦ elim (put_nowait (drop_oldest q) event) [ some q' ↦ q' | none ↦ drop_oldest q ]
]

abbrev pub deliver : Event → Subscriber → Subscriber
deliver event s = record s { queue = enqueue event s.queue }

unfoldable pub publish : Event → HostEventBroker → HostEventBroker
publish event b =
    if b.closed then b else record b { subscribers = map (deliver event) b.subscribers }

-- The part of `subscribe` before its first `yield`; the result is the new queue's identity.
unfoldable pub subscribe : HostEventBroker → ℕ × HostEventBroker
subscribe b = (
  b.next_key,
  record b {
    subscribers = b.subscribers ++ record { key = b.next_key; queue = [] } ∷ [];
    next_key = suc b.next_key;
  },
)

unfoldable pub remove_key : ℕ → List Subscriber → List Subscriber
remove_key k [] = []
remove_key k (s ∷ rest) = if s.key == k then rest else s ∷ remove_key k rest

-- The `finally` of `subscribe`; with the generator its queue is gone, wherever it was.
unfoldable pub unsubscribe : ℕ → HostEventBroker → HostEventBroker
unsubscribe k b = record b {
  subscribers = remove_key k b.subscribers;
  detached = remove_key k b.detached;
}

unfoldable pub close : HostEventBroker → HostEventBroker
close b = record b { subscribers = []; detached = b.subscribers ++ b.detached; closed = true }

unfoldable pub subscriber_count : HostEventBroker → ℕ
subscriber_count b = length b.subscribers
