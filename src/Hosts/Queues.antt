-- ===== src/Hosts/Queues.antt =====
-- What a subscriber has in its queue: of the events since it subscribed, the latest, in order.
use smart_classroom.Prelude.{
  ℕ, ◌+◌, ◌-◌, ◌≤◌, ◌<◌, ◌≡◌, refl, sym, ap, ◌∙◌, false, List, [], ◌∷◌, ◌++◌, arith, length, map,
  drop, length-append, drop-append, length-drop, drop-drop, All, Bool-cases, inl, inr,
}
use mathlib.Core.List.{append-nil, append_assoc}
use mathlib.Core.Path.{ap₂}
use native.Mathlib.Decide.{dec_lt}
use smart_classroom.Hosts.Events.{
  Event, Subscriber, HostEventBroker, queue_maxsize, enqueue, publish, deliver, subscribe, close,
  subscriber_count,
}

-- The last `n` entries.
abbrev pub keep_last {ℓ} : {A : Type ℓ} → ℕ → List A → List A
keep_last n xs = drop (length xs - n) xs

enqueue-short : (e : Event) (q : List Event) → length q < queue_maxsize → enqueue e q ≡ q ++ e ∷ []
unfolding enqueue
enqueue-short e q h = ground arith

enqueue-full :
    (e : Event) (q : List Event) → length q ≡ queue_maxsize → enqueue e q ≡ drop 1 q ++ e ∷ []
unfolding enqueue
enqueue-full e [] h = absurd (omega arith)
enqueue-full e (x ∷ q) h = ground arith

-- A put into a queue within its bound keeps the latest entries and drops at most the oldest.
pub enqueue-keep_last :
    (e : Event) (q : List Event)
    → length q ≤ queue_maxsize
    → enqueue e q ≡ keep_last queue_maxsize (q ++ e ∷ [])
enqueue-keep_last e q h = elim (dec_lt (length q) queue_maxsize) [
  | yes short ↦
      let none_lost : length (q ++ e ∷ []) - queue_maxsize ≡ 0 =
        omega (arith, length-append q (e ∷ [])) in
      rw none_lost (enqueue-short e q short)
  | no full ↦
      let one_lost : length (q ++ e ∷ []) - queue_maxsize ≡ 1 =
        omega (arith, length-append q (e ∷ [])) in
      rw one_lost (enqueue-full e q (omega arith) ∙ sym (drop-append 1 q (e ∷ []) (omega arith)))
]

length-keep_last : {A : Type 0} (n : ℕ) (xs : List A) → length (keep_last n xs) ≤ n
length-keep_last n xs = omega (arith, length-drop (length xs - n) xs)

-- Forgetting early forgets the same.
keep_last-append :
    {A : Type 0} (n : ℕ) (xs ys : List A)
    → keep_last n (keep_last n xs ++ ys) ≡ keep_last n (xs ++ ys)
keep_last-append n xs ys =
    let k = length xs - n in
    let m = length (drop k xs ++ ys) - n in
    let sum : k + m ≡ length (xs ++ ys) - n =
      omega (arith, length-append (drop k xs) ys, length-append xs ys, length-drop k xs) in
    ap (drop m) (sym (drop-append k xs ys (omega arith)))
    ∙ drop-drop m k (xs ++ ys)
    ∙ ap (λ i. drop i (xs ++ ys)) sum

enqueue_all : List Event → List Event → List Event
enqueue_all [] q = q
enqueue_all (e ∷ es) q = enqueue_all es (enqueue e q)

enqueue_all-keep_last :
    (es q : List Event)
    → length q ≤ queue_maxsize
    → enqueue_all es q ≡ keep_last queue_maxsize (q ++ es)
unfolding enqueue_all
enqueue_all-keep_last [] q h =
    let none_lost : length (q ++ []) - queue_maxsize ≡ 0 = omega (arith, length-append q []) in
    rw none_lost (sym (append-nil q))
enqueue_all-keep_last (e ∷ es) q h =
    let one = enqueue-keep_last e q h in
    enqueue_all-keep_last es (enqueue e q) (rw one (length-keep_last queue_maxsize (q ++ e ∷ [])))
    ∙ ap (λ x. keep_last queue_maxsize (x ++ es)) one
    ∙ keep_last-append queue_maxsize (q ++ e ∷ []) es
    ∙ ap (keep_last queue_maxsize) (append_assoc q (e ∷ []) es)

-- A burst of events, one after the other.
pub publish_all : List Event → HostEventBroker → HostEventBroker
publish_all [] b = b
publish_all (e ∷ es) b = publish_all es (publish e b)

abbrev hears : List Event → Subscriber → Subscriber
hears es s = record s { queue = enqueue_all es s.queue }

map-hears :
    (e : Event) (es : List Event) (ss : List Subscriber)
    → map (hears es) (map (deliver e) ss) ≡ map (hears (e ∷ es)) ss
unfolding enqueue_all
map-hears e es [] = refl
map-hears e es (s ∷ ss) = ap (λ rest. hears (e ∷ es) s ∷ rest) (map-hears e es ss)

map-hears_nil : (ss : List Subscriber) → map (hears []) ss ≡ ss
unfolding enqueue_all
map-hears_nil [] = refl
map-hears_nil (s ∷ ss) = ap (λ rest. s ∷ rest) (map-hears_nil ss)

publish_all-hears :
    (es : List Event) (b : HostEventBroker)
    → b.closed ≡ false
    → (publish_all es b).subscribers ≡ map (hears es) b.subscribers
unfolding publish_all publish
publish_all-hears [] b h = sym (map-hears_nil b.subscribers)
publish_all-hears (e ∷ es) b h =
    let one : publish e b ≡ record b { subscribers = map (deliver e) b.subscribers } = rw h in
    ap (λ c. (publish_all es c).subscribers) one
    ∙ publish_all-hears es (record b { subscribers = map (deliver e) b.subscribers }) h
    ∙ map-hears e es b.subscribers

-- The bound of every queue.
abbrev pub IsBounded : HostEventBroker → Type 0
IsBounded b = All (λ s. length s.queue ≤ queue_maxsize) b.subscribers

abbrev pub latest : List Event → Subscriber → Subscriber
latest es s = record s { queue = keep_last queue_maxsize (s.queue ++ es) }

hears-latest :
    (es : List Event) (ss : List Subscriber)
    → All (λ s. length s.queue ≤ queue_maxsize) ss
    → map (hears es) ss ≡ map (latest es) ss
hears-latest es [] h = refl
hears-latest es (s ∷ ss) h =
    ap₂ (λ q rest. record s { queue = q } ∷ rest) (enqueue_all-keep_last es s.queue h.0)
      (hears-latest es ss h.1)

-- While the broker is open and no queue is beyond its bound, a burst of events leaves each subscriber
-- with what it had not read followed by the burst, cut to the latest hundred, in order.
pub publish_all-keep_last :
    (es : List Event) (b : HostEventBroker)
    → b.closed ≡ false
    → IsBounded b
    → (publish_all es b).subscribers ≡ map (latest es) b.subscribers
publish_all-keep_last es b h v = publish_all-hears es b h ∙ hears-latest es b.subscribers v

bounded_map :
    (e : Event) (ss : List Subscriber)
    → All (λ s. length s.queue ≤ queue_maxsize) ss
    → All (λ s. length s.queue ≤ queue_maxsize) (map (deliver e) ss)
bounded_map e [] h = tt
bounded_map e (s ∷ ss) h = (
  rw (enqueue-keep_last e s.queue h.0) (length-keep_last queue_maxsize (s.queue ++ e ∷ [])),
  bounded_map e ss h.1,
)

-- If no queue holds more than its bound, none does after an event is published.
pub publish-IsBounded : (e : Event) (b : HostEventBroker) → IsBounded b → IsBounded (publish e b)
unfolding publish
publish-IsBounded e b h = elim (Bool-cases b.closed) [
  | inl c ↦ rw c h
  | inr o ↦ rw o (bounded_map e b.subscribers h)
]

-- A subscription taken after `close` is registered, and no event ever reaches it.
pub subscribe_after_close :
    (b : HostEventBroker) (es : List Event)
    → let b' = (subscribe (close b)).1 in
      (subscriber_count b' ≡ 1)
      × ((publish_all es b').subscribers ≡ record { key = b.next_key; queue = [] } ∷ [])
unfolding subscribe close subscriber_count publish_all publish
subscribe_after_close b es = (refl, deaf es)
  where
    deaf :
        (xs : List Event)
        → (publish_all xs (subscribe (close b)).1).subscribers
          ≡ record { key = b.next_key; queue = [] } ∷ []
    deaf [] = refl
    deaf (e ∷ xs) = deaf xs
