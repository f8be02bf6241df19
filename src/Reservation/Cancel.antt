-- ===== src/Reservation/Cancel.antt =====
-- Cancellation: what it answers, that it can be repeated, and that it gives the slot back.
use smart_classroom.Prelude.{
  ℕ, ◌≡◌, refl, sym, subst, ◌⊎◌, inl, inr, true, false, List, [], ◌∷◌, none, some, arith,
  exists_where, exists_where-some, select_one, update_where, All, All-map, All-lookup, ◌&&◌, IsIn,
  select_one-holds, Bool-cases, Option-cases, ◌==◌,
}
use smart_classroom.Domain.Range.{TimeRange, empty, bounded, overlaps}
use smart_classroom.Domain.Rows.{User, Reservation, is_active_status, is_canceled}
use smart_classroom.Domain.Db.{Db, ok, err, get_reservation_row, not_owner, reservation_not_found}
use smart_classroom.Reservation.Booking.{clashes, new_row}
use smart_classroom.Reservation.Access.{
  can_access, set_canceled, cancel_reservation, soft_delete, assert_can_access,
}
use smart_classroom.Reservation.Overlap.{NoOverlap, Apart, Disjoint}

pub cancel-missing :
    (now : ℕ) (user : User) (i : ℕ) (db : Db)
    → get_reservation_row i db ≡ none
    → cancel_reservation now user i db ≡ err reservation_not_found
unfolding cancel_reservation
cancel-missing now user i db e = ground arith

pub cancel-stranger :
    (now : ℕ) (user : User) (i : ℕ) (db : Db) (r : Reservation)
    → get_reservation_row i db ≡ some r
    → can_access r user ≡ false
    → cancel_reservation now user i db ≡ err not_owner
unfolding cancel_reservation assert_can_access
cancel-stranger now user i db r e a = ground arith

pub cancel-again :
    (now : ℕ) (user : User) (i : ℕ) (db : Db) (r : Reservation)
    → get_reservation_row i db ≡ some r
    → can_access r user ≡ true
    → is_canceled r.status ≡ true
    → cancel_reservation now user i db ≡ ok (r, db)
unfolding cancel_reservation assert_can_access
cancel-again now user i db r e a c = ground arith

-- The row that an UPDATE by id leaves under that id.
select_one-update :
    (i now : ℕ) (rows : List Reservation) (r : Reservation)
    → select_one (λ x. x.id == i) rows ≡ some r
    → select_one (λ x. x.id == i) (update_where (λ x. x.id == r.id) (set_canceled now) rows)
      ≡ some (set_canceled now r)
unfolding select_one update_where
select_one-update i now [] r e = cc
select_one-update i now (x ∷ rows) r e = ground (arith, select_one-update i now rows r)

-- A cancellation that succeeded answers the same when it is repeated on the database that it left,
-- and then changes nothing.
pub cancel-idempotent :
    (now later : ℕ) (user : User) (i : ℕ) (db db' : Db) (r : Reservation)
    → cancel_reservation now user i db ≡ ok (r, db')
    → cancel_reservation later user i db' ≡ ok (r, db')
unfolding cancel_reservation assert_can_access soft_delete
cancel-idempotent now later user i db db' r e = elim (Option-cases (get_reservation_row i db)) [
  | inl q ↦ ground arith
  | inr (x, q) ↦ ground (arith, select_one-update i now db.reservations x q)
]

overlaps-Disjoint : (p q : TimeRange) → Disjoint p q → overlaps p q ≡ false
overlaps-Disjoint empty q d = refl
overlaps-Disjoint (bounded a b) empty d = refl
overlaps-Disjoint (bounded a b) (bounded u v) d = ground arith

overlaps-Disjoint_symm : (p q : TimeRange) → Disjoint q p → overlaps p q ≡ false
overlaps-Disjoint_symm empty q d = refl
overlaps-Disjoint_symm (bounded a b) empty d = refl
overlaps-Disjoint_symm (bounded a b) (bounded u v) d = ground arith

Apart-clashes :
    (r c x : Reservation)
    → is_active_status r.status ≡ true
    → c.host_id ≡ r.host_id
    → c.time_range ≡ r.time_range
    → Apart r x ⊎ Apart x r
    → clashes c x ≡ false
Apart-clashes r c x a h t v =
    elim (Bool-cases (is_active_status x.status && (c.host_id == x.host_id))) [
      | inl e ↦
          let b : is_active_status x.status ≡ true = ground arith in
          let k : r.host_id ≡ x.host_id = ground arith in
          let away : overlaps r.time_range x.time_range ≡ false = elim v [
            | inl w ↦ overlaps-Disjoint r.time_range x.time_range (w a b k)
            | inr w ↦ overlaps-Disjoint_symm r.time_range x.time_range (w b a (sym k))
          ] in
          let away' : overlaps c.time_range x.time_range ≡ false = rw t away in ground arith
      | inr e ↦ ground arith
    ]

-- A row that the UPDATE canceled clashes with nothing.
canceled_is_free : (c x : Reservation) → is_active_status x.status ≡ false → clashes c x ≡ false
canceled_is_free c x e = ground arith

freed :
    (now : ℕ) (r c : Reservation) (rows : List Reservation)
    → is_active_status r.status ≡ true
    → c.host_id ≡ r.host_id
    → c.time_range ≡ r.time_range
    → All (λ x. (x ≡ r) ⊎ (Apart r x ⊎ Apart x r)) rows
    → All (λ x. clashes c x ≡ false) (update_where (λ x. x.id == r.id) (set_canceled now) rows)
unfolding update_where
freed now r c [] a h t v = tt
freed now r c (x ∷ rows) a h t v = (
  elim (Bool-cases (x.id == r.id)) [
    | inl e ↦ rw e (canceled_is_free c (set_canceled now x) refl)
    | inr e ↦ rw e (Apart-clashes r c x a h t (other e v.0))
  ],
  freed now r c rows a h t v.1,
)
  where
    other : (x.id == r.id) ≡ false → (x ≡ r) ⊎ (Apart r x ⊎ Apart x r) → Apart r x ⊎ Apart x r
    other e (inl q) = absurd (ground arith)
    other e (inr w) = w

-- In a table without overlaps a row is apart from every other.
Apart-from_all :
    (r : Reservation) (rows : List Reservation)
    → NoOverlap rows
    → IsIn r rows
    → All (λ x. (x ≡ r) ⊎ (Apart r x ⊎ Apart x r)) rows
Apart-from_all r [] v m = tt
Apart-from_all r (x ∷ rows) v (inl e) =
    (inl (sym e), All-map _ _ (λ y a. inr (inl (subst (λ z. Apart z y) (sym e) a))) rows v.0)
Apart-from_all r (x ∷ rows) v (inr m) =
    (inr (inr (All-lookup (Apart x) rows v.0 m)), Apart-from_all r rows v.1 m)

is_active-not_canceled :
    (r : Reservation) → is_active_status r.status ≡ true → is_canceled r.status ≡ false
is_active-not_canceled r a = ground arith

cancel-active :
    (now : ℕ) (user : User) (i : ℕ) (db db' : Db) (r r' : Reservation)
    → get_reservation_row i db ≡ some r
    → is_active_status r.status ≡ true
    → cancel_reservation now user i db ≡ ok (r', db')
    → db'.reservations ≡ update_where (λ x. x.id == r.id) (set_canceled now) db.reservations
unfolding cancel_reservation assert_can_access soft_delete
cancel-active now user i db db' r r' g a e = ground (arith, is_active-not_canceled r)

-- Canceling an active reservation gives its slot back: in a table without overlaps nothing then
-- clashes with a new row for the same host and time.
pub cancel-frees :
    (now : ℕ) (user : User) (i new_id user_id : ℕ) (db db' : Db) (r r' : Reservation)
    → NoOverlap db.reservations
    → get_reservation_row i db ≡ some r
    → is_active_status r.status ≡ true
    → cancel_reservation now user i db ≡ ok (r', db')
    → exists_where (clashes (new_row new_id user_id r.host_id r.time_range)) db'.reservations
      ≡ false
cancel-frees now user i new_id user_id db db' r r' v g a e =
    subst (λ rows. exists_where (clashes candidate) rows ≡ false) (sym updated)
      (exists_where-some (clashes candidate) _ (
        freed now r candidate db.reservations a refl refl (
          Apart-from_all r db.reservations v
            (select_one-holds (λ x. x.id == i) db.reservations g).0)))
  where
    candidate : Reservation
    candidate = new_row new_id user_id r.host_id r.time_range

    updated : db'.reservations ≡ update_where (λ x. x.id == r.id) (set_canceled now) db.reservations
    updated = cancel-active now user i db db' r r' g a e
