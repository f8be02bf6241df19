-- ===== src/Reservation/Placed.antt =====
-- What the table of reservations promises to its readers: each row is for a host that exists, over a
-- range that has bounds. Hosts come and change, but none goes.
use smart_classroom.Prelude.{
  ℕ, ◌<◌, ◌≡◌, ◌≢◌, refl, sym, subst, inl, inr, Bool, true, List, [], ◌∷◌, none, some, arith, ◌==◌,
  is_some, select_one, exists_where, update_where, All, All-map, All-update_where, Bool-cases,
}
use smart_classroom.Domain.Range.{TimeRange, empty, bounded, tstzrange, bounds}
use smart_classroom.Domain.Rows.{Host, Reservation}
use smart_classroom.Domain.Db.{Db}
use smart_classroom.Reservation.Booked.{Booked}
use smart_classroom.Reservation.Access.{set_canceled}

abbrev pub HasHost : List Host → ℕ → Type 0
HasHost hosts i = exists_where (λ (h : Host). h.id == i) hosts ≡ true

abbrev pub IsPlaced : List Host → Reservation → Type 0
IsPlaced hosts r = HasHost hosts r.host_id × (is_some (bounds r.time_range) ≡ true)

abbrev pub ArePlaced : Db → Type 0
ArePlaced db = All (IsPlaced db.hosts) db.reservations

-- Every host of the one table is in the other.
abbrev pub Grows : List Host → List Host → Type 0
Grows hosts hosts' = (i : ℕ) → HasHost hosts i → HasHost hosts' i

pub Grows-refl : (hosts : List Host) → Grows hosts hosts
Grows-refl hosts i h = h

pub insert-Grows : (h : Host) (hosts : List Host) → Grows hosts (h ∷ hosts)
unfolding exists_where
insert-Grows h hosts i e = ground (arith, e)

pub update-Grows :
    (p : Host → Bool) (f : Host → Host)
    → ((h : Host) → (f h).id ≡ h.id)
    → (hosts : List Host) → Grows hosts (update_where p f hosts)
unfolding update_where exists_where
update-Grows p f same [] i e = e
update-Grows p f same (h ∷ hosts) i e = elim (Bool-cases (h.id == i)) [
  | inl q ↦ ground (arith, q, same h)
  | inr q ↦ ground (arith, q, same h, update-Grows p f same hosts i (ground arith))
]

pub Grows-ArePlaced :
    (hosts hosts' : List Host) (rows : List Reservation)
    → Grows hosts hosts'
    → All (IsPlaced hosts) rows
    → All (IsPlaced hosts') rows
Grows-ArePlaced hosts hosts' rows grows v =
    All-map (IsPlaced hosts) (IsPlaced hosts') (λ r k. (grows r.host_id k.0, k.1)) rows v

has_host :
    (hosts : List Host) (i : ℕ)
    → select_one (λ (h : Host). h.id == i) hosts ≢ none
    → HasHost hosts i
unfolding select_one exists_where
has_host [] i n = absurd (n refl)
has_host (h ∷ hosts) i n = elim (Bool-cases (h.id == i)) [
  | inl q ↦ ground (arith, q)
  | inr q ↦ ground (arith, q, has_host hosts i (λ e. n (ground (arith, q, e))))
]

pub found_host :
    (hosts : List Host) (i : ℕ)
    → HasHost hosts i
    → (h : Host) × (select_one (λ (h : Host). h.id == i) hosts ≡ some h)
unfolding select_one exists_where
found_host [] i e = absurd (ground arith)
found_host (h ∷ hosts) i e = elim (Bool-cases (h.id == i)) [
  | inl q ↦ (h, rw q refl)
  | inr q ↦ let (k, f) = found_host hosts i (ground arith) in (k, ground (arith, q, f))
]

range-bounds :
    (s e : ℕ) (x : TimeRange) → s < e → tstzrange s e ≡ some x → is_some (bounds x) ≡ true
unfolding tstzrange
range-bounds s e empty o h = absurd (ground arith)
range-bounds s e (bounded a b) o h = refl

pub Booked-ArePlaced :
    (db db' : Db) (u h s e : ℕ) (r : Reservation)
    → Booked db u h s e r db'
    → s < e
    → ArePlaced db
    → ArePlaced db'
Booked-ArePlaced db db' u h s e r b o v =
    let here : IsPlaced db.hosts r =
      (rw b.place (has_host db.hosts h b.host_known), range-bounds s e r.time_range o b.range) in
    rw b.rows (subst (λ hs. All (IsPlaced hs) (r ∷ db.reservations)) (sym b.same_hosts) (here, v))

pub canceled-ArePlaced :
    (now : ℕ) (p : Reservation → Bool) (hosts : List Host) (rows : List Reservation)
    → All (IsPlaced hosts) rows
    → All (IsPlaced hosts) (update_where p (set_canceled now) rows)
canceled-ArePlaced now p hosts rows v =
    All-update_where (IsPlaced hosts) p (set_canceled now) (λ r k. k) rows v
