-- ===== src/Hosts/Stream/Order.antt =====
-- Whatever turns the other generators take, a stream hears events in the order in which they were
-- published, none of them twice.
use smart_classroom.Prelude.{
  ℕ, ◌≡◌, ◌≢◌, refl, sym, subst, ap, ◌∙◌, Bool, List, [], ◌∷◌, ◌++◌, append_assoc, some, inl, inr,
  arith, Bool-cases, Option-cases,
}
use mathlib.Core.List.{Sublist, sublist-append_left}
use mathlib.Core.List.Sublist
use smart_classroom.Hosts.Events.{Event, HostEventBroker, publish, subscribe, unsubscribe, close}
use smart_classroom.Hosts.Stream.{queue_in, put_back, get, yields, turn}
use smart_classroom.Hosts.Stream.Unread.{
  unread, has_key, queues, unread-deliver, unread-join, unread-append, unread-remove,
  unread-put_back, unread-taken_of,
}

-- A stream in the middle of its run: the broker, what was published since it subscribed, and what it
-- has read.
pub record Watch : Type 0 where
  pub broker : HostEventBroker
  pub published : List Event
  pub sent : List Event

-- The turns of a run. An event that the stream takes as it finds its client gone is lost; the other
-- streams have keys of their own.
pub data Move (k : ℕ) : Watch → Watch → Type 0 where
  publishes :
      {w : Watch} (e : Event)
      → Move k w (record w { broker = publish e w.broker; published = w.published ++ e ∷ [] })
  reads :
      {w : Watch} (disconnected : Bool) (e : Event) {b : HostEventBroker}
      → turn k disconnected w.broker ≡ yields e b
      → Move k w (record w { broker = b; sent = w.sent ++ e ∷ [] })
  joins : {w : Watch} → Move k w (record w { broker = (subscribe w.broker).1 })
  another_leaves :
      {w : Watch} (j : ℕ) → j ≢ k → Move k w (record w { broker = unsubscribe j w.broker })
  another_reads :
      {w : Watch} (j : ℕ) (disconnected : Bool) (e : Event) {b : HostEventBroker}
      → j ≢ k
      → turn j disconnected w.broker ≡ yields e b
      → Move k w (record w { broker = b })
  closes : {w : Watch} → Move k w (record w { broker = close w.broker })

pub data Run (k : ℕ) (w : Watch) : Watch → Type 0 where
  begun : Run k w w
  followed : {u v : Watch} → Run k w u → Move k u v → Run k w v

-- What was sent, with what is still to be read, is part of what was published, in its order.
abbrev pub InOrder : ℕ → Watch → Type 0
InOrder k w = Sublist (w.sent ++ unread k (queues w.broker)) w.published

turn_lem :
    (k : ℕ) (d : Bool) (e : Event) (b b' : HostEventBroker)
    → turn k d b ≡ yields e b'
    → (q : List Event) × (queue_in k (queues b) ≡ some (e ∷ q))
      × (b'.subscribers ≡ put_back k q b.subscribers)
      × (b'.detached ≡ put_back k q b.detached)
unfolding turn get
turn_lem k d e b b' h = elim (Option-cases (queue_in k (queues b))) [
  | inl n ↦ absurd (ground (arith, n))
  | inr ([], n) ↦ absurd (ground (arith, n))
  | inr (x ∷ q, n) ↦ (q, ground (arith, n), ground (arith, n), ground (arith, n))
]

published-InOrder :
    (k : ℕ) (e : Event) (w : Watch)
    → InOrder k w
    → InOrder k (record w { broker = publish e w.broker; published = w.published ++ e ∷ [] })
unfolding publish
published-InOrder k e w h = elim (Bool-cases w.broker.closed) [
  | inl c ↦ rw c (Sublist.trans h (sublist-append_left w.published (e ∷ [])))
  | inr o ↦ rw o (
      Sublist.trans
        (Sublist.append (Sublist.refl w.sent)
          (unread-deliver k e w.broker.subscribers w.broker.detached))
        (subst (λ xs. Sublist xs (w.published ++ e ∷ [])) (append_assoc w.sent _ (e ∷ []))
          (Sublist.append h (Sublist.refl (e ∷ [])))))
]

-- A turn that leaves this stream's queue alone.
same-InOrder :
    (k : ℕ) (w : Watch) (b : HostEventBroker)
    → unread k (queues b) ≡ unread k (queues w.broker)
    → InOrder k w
    → InOrder k (record w { broker = b })
same-InOrder k w b e h = subst (λ xs. Sublist (w.sent ++ xs) w.published) (sym e) h

read-InOrder :
    (k : ℕ) (d : Bool) (e : Event) (w : Watch) (b : HostEventBroker)
    → turn k d w.broker ≡ yields e b
    → InOrder k w
    → InOrder k (record w { broker = b; sent = w.sent ++ e ∷ [] })
read-InOrder k d e w b t h =
    let (q, found, rest, apart) = turn_lem k d e w.broker b t in
    let (was, now) = unread-taken_of k e q w.broker.subscribers w.broker.detached found in
    let same : (w.sent ++ e ∷ []) ++ unread k (queues b) ≡ w.sent ++ unread k (queues w.broker) =
      rw (rest, apart, now, was) (append_assoc w.sent (e ∷ []) q) in
    subst (λ xs. Sublist xs w.published) (sym same) h

Move-InOrder : {k : ℕ} {w v : Watch} → Move k w v → InOrder k w → InOrder k v
unfolding subscribe unsubscribe close
Move-InOrder {k} {w} (publishes e) h = published-InOrder k e w h
Move-InOrder {k} {w} (reads d e t) h = read-InOrder k d e w _ t h
Move-InOrder {k} {w} joins h =
    Sublist.trans
      (Sublist.append (Sublist.refl w.sent)
        (unread-join k w.broker.next_key w.broker.subscribers w.broker.detached))
      h
Move-InOrder {k} {w} (another_leaves j n) h =
    same-InOrder k w (unsubscribe j w.broker)
      (let (r, i) = unread-remove k j w.broker.subscribers n in
        unread-append k _ w.broker.subscribers _ w.broker.detached r i
          (unread-remove k j w.broker.detached n).0)
      h
Move-InOrder {k} {w} (another_reads j d e {b = b} n t) h =
    let (q, found, rest, apart) = turn_lem j d e w.broker b t in
    let (r, i) = unread-put_back k j q w.broker.subscribers n in
    same-InOrder k w b
      (unread-append k b.subscribers w.broker.subscribers b.detached w.broker.detached
        (ap (unread k) rest ∙ r) (ap (has_key k) rest ∙ i)
        (ap (unread k) apart ∙ (unread-put_back k j q w.broker.detached n).0))
      h
Move-InOrder {k} {w} closes h = same-InOrder k w (close w.broker) refl h

Run-InOrder : {k : ℕ} {w v : Watch} → Run k w v → InOrder k w → InOrder k v
Run-InOrder begun h = h
Run-InOrder (followed run move) h = Move-InOrder move (Run-InOrder run h)

-- A stream that has just subscribed, under a key that no other has.
abbrev pub opened : HostEventBroker → Watch
opened b = record { broker = (subscribe b).1; published = []; sent = [] }

-- From its subscription on, under a key under which no other queue holds an event, and whatever turns
-- the publishers and the other streams take, a closing of the broker included, a stream has sent some of the events that were published since, in the
-- order in which they were published.
pub Run-sent :
    (b : HostEventBroker) (w : Watch)
    → unread b.next_key (queues b) ≡ []
    → Run b.next_key (opened b) w
    → Sublist w.sent w.published
unfolding subscribe
Run-sent b w new run =
    let none_yet : Sublist (unread b.next_key (queues (subscribe b).1)) [] =
      subst (Sublist _) new (unread-join b.next_key b.next_key b.subscribers b.detached) in
    Sublist.trans (sublist-append_left w.sent _) (Run-InOrder run none_yet)
