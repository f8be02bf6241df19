-- ===== src/Hosts/Stream/Unread.antt =====
-- What a stream has not read yet, and what the turns of the others do to it.
use smart_classroom.Prelude.{
  ℕ, ◌≡◌, ◌≢◌, refl, sym, ◌∙◌, Bool, List, [], ◌∷◌, ◌++◌, some, ◌==◌, if◌then◌else◌, map, inl, inr,
  arith, Bool-cases, ltb, length, ◌⊎◌, true, false,
}
use mathlib.Core.List.{Sublist, nil-sublist, sublist-cons_self, sublist-append_left}
use mathlib.Core.List.Sublist
use smart_classroom.Hosts.Events.{
  Event, Subscriber, HostEventBroker, queue_maxsize, drop_oldest, enqueue, deliver, remove_key,
}
use smart_classroom.Hosts.Stream.{queue_in, put_back}

enqueue-cases :
    (e : Event) (q : List Event)
    → (enqueue e q ≡ q ++ e ∷ [])
      ⊎ ((enqueue e q ≡ drop_oldest q ++ e ∷ []) ⊎ (enqueue e q ≡ drop_oldest q))
unfolding enqueue
enqueue-cases e q = elim (Bool-cases (ltb (length q) queue_maxsize)) [
  | inl h ↦ inl (ground (arith, h))
  | inr h ↦ elim (Bool-cases (ltb (length (drop_oldest q)) queue_maxsize)) [
    | inl f ↦ inr (inl (ground (arith, h, f)))
    | inr f ↦ inr (inr (ground (arith, h, f)))
  ]
]

older : (q : List Event) → Sublist (drop_oldest q) q
older [] = Sublist.refl []
older (x ∷ q) = sublist-cons_self x q

-- A put loses at most the oldest event, and moves none.
enqueue-Sublist : (e : Event) (q : List Event) → Sublist (enqueue e q) (q ++ e ∷ [])
enqueue-Sublist e q = elim (enqueue-cases e q) [
  | inl h ↦ rw h (Sublist.refl _)
  | inr (inl h) ↦ rw h (Sublist.append (older q) (Sublist.refl _))
  | inr (inr h) ↦ rw h (Sublist.trans (older q) (sublist-append_left q (e ∷ [])))
]

-- What a subscriber has not read yet.
abbrev pub unread : ℕ → List Subscriber → List Event
unread k [] = []
unread k (s ∷ rest) = let later = unread k rest in if s.key == k then s.queue else later

abbrev pub has_key : ℕ → List Subscriber → Bool
has_key k [] = false
has_key k (s ∷ rest) = let later = has_key k rest in if s.key == k then true else later

unread-if :
    (k : ℕ) (xs ys : List Subscriber)
    → unread k (xs ++ ys) ≡ (if has_key k xs then unread k xs else unread k ys)
unread-if k [] ys = refl
unread-if k (s ∷ rest) ys = ground (arith, unread-if k rest ys)

-- All the queues that generators read.
abbrev pub queues : HostEventBroker → List Subscriber
queues b = b.subscribers ++ b.detached

pub unread-deliver :
    (k : ℕ) (e : Event) (ss ds : List Subscriber)
    → Sublist (unread k (map (deliver e) ss ++ ds)) (unread k (ss ++ ds) ++ e ∷ [])
unread-deliver k e [] ds = sublist-append_left (unread k ds) (e ∷ [])
unread-deliver k e (s ∷ rest) ds = elim (Bool-cases (s.key == k)) [
  | inl h ↦ rw h (enqueue-Sublist e s.queue)
  | inr h ↦ rw h (unread-deliver k e rest ds)
]

-- A queue that joins is empty.
pub unread-join :
    (k j : ℕ) (ss ds : List Subscriber)
    → Sublist (unread k ((ss ++ record { key = j; queue = [] } ∷ []) ++ ds)) (unread k (ss ++ ds))
unread-join k j [] ds = elim (Bool-cases (j == k)) [
  | inl h ↦ rw h (nil-sublist (unread k ds))
  | inr h ↦ rw h (Sublist.refl (unread k ds))
]
unread-join k j (s ∷ rest) ds = elim (Bool-cases (s.key == k)) [
  | inl h ↦ rw h (Sublist.refl s.queue)
  | inr h ↦ rw h (unread-join k j rest ds)
]

pub unread-append :
    (k : ℕ) (xs xs' ys ys' : List Subscriber)
    → unread k xs ≡ unread k xs'
    → has_key k xs ≡ has_key k xs'
    → unread k ys ≡ unread k ys'
    → unread k (xs ++ ys) ≡ unread k (xs' ++ ys')
unread-append k xs xs' ys ys' p h q = unread-if k xs ys ∙ (rw (p, h, q) (sym (unread-if k xs' ys')))

pub unread-remove :
    (k j : ℕ) (ss : List Subscriber)
    → j ≢ k
    → (unread k (remove_key j ss) ≡ unread k ss) × (has_key k (remove_key j ss) ≡ has_key k ss)
unfolding remove_key
unread-remove k j [] n = (refl, refl)
unread-remove k j (s ∷ rest) n =
    let (r, h) = unread-remove k j rest n in (ground (arith, r), ground (arith, h))

pub unread-put_back :
    (k j : ℕ) (q : List Event) (ss : List Subscriber)
    → j ≢ k
    → (unread k (put_back j q ss) ≡ unread k ss) × (has_key k (put_back j q ss) ≡ has_key k ss)
unfolding put_back
unread-put_back k j q [] n = (refl, refl)
unread-put_back k j q (s ∷ rest) n =
    let (r, h) = unread-put_back k j q rest n in (ground (arith, r), ground (arith, h))

unread-taken :
    (k : ℕ) (e : Event) (q : List Event) (ss : List Subscriber)
    → queue_in k ss ≡ some (e ∷ q)
    → (unread k ss ≡ e ∷ q) × (unread k (put_back k q ss) ≡ q)
unfolding queue_in put_back
unread-taken k e q [] h = absurd (ground arith)
unread-taken k e q (s ∷ rest) h = elim (Bool-cases (s.key == k)) [
  | inl f ↦ (ground arith, ground arith)
  | inr f ↦ let r = unread-taken k e q rest (ground arith) in (ground (arith, r), ground (arith, r))
]

pub unread-taken_of :
    (k : ℕ) (e : Event) (q : List Event) (ss ds : List Subscriber)
    → queue_in k (ss ++ ds) ≡ some (e ∷ q)
    → (unread k (ss ++ ds) ≡ e ∷ q) × (unread k (put_back k q ss ++ put_back k q ds) ≡ q)
unfolding queue_in put_back
unread-taken_of k e q [] ds h = unread-taken k e q ds h
unread-taken_of k e q (s ∷ rest) ds h = elim (Bool-cases (s.key == k)) [
  | inl f ↦ (ground arith, ground arith)
  | inr f ↦
      let r = unread-taken_of k e q rest ds (ground arith) in (ground (arith, r), ground (arith, r))
]
