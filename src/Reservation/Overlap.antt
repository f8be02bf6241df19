-- ===== src/Reservation/Overlap.antt =====
-- No two active reservations of one host share an instant: the promise of the exclusion
-- constraint, stated without it, and that every writer of the table keeps it.
use smart_classroom.Prelude.{
  ℕ, ◌≤◌, ◌≡◌, refl, ◌⊎◌, inl, inr, Bool, true, false, List, [], ◌∷◌, arith, update_where,
  exists_where-none, All, All-map, All-update_where, Bool-cases, ◌==◌, subst, sym,
}
use smart_classroom.Domain.Time.{DateTime}
use smart_classroom.Domain.Range.{TimeRange, empty, bounded}
use smart_classroom.Domain.Settings.{Settings}
use smart_classroom.Domain.Rows.{User, Reservation, is_active_status}
use smart_classroom.Domain.Db.{Db, ok}
use smart_classroom.Reservation.Booking.{clashes, create_reservation}
use smart_classroom.Reservation.Booked.{Booked}
use smart_classroom.Reservation.Access.{
  set_canceled, cancel_reservation, soft_delete, assert_can_access,
}
use smart_classroom.Reservation.Policy.{create_reservation-Accepted}

abbrev pub Disjoint : TimeRange → TimeRange → Type 0
Disjoint empty _ = Unit
Disjoint (bounded a b) empty = Unit
Disjoint (bounded a b) (bounded c d) = (b ≤ c) ⊎ (d ≤ a)

abbrev pub Apart : Reservation → Reservation → Type 0
Apart r s =
    is_active_status r.status ≡ true
    → is_active_status s.status ≡ true
    → r.host_id ≡ s.host_id
    → Disjoint r.time_range s.time_range

abbrev pub NoOverlap : List Reservation → Type 0
NoOverlap [] = Unit
NoOverlap (r ∷ rows) = All (Apart r) rows × NoOverlap rows

Disjoint-of :
    (x y : TimeRange) (r s : Reservation)
    → x ≡ r.time_range
    → y ≡ s.time_range
    → is_active_status r.status ≡ true
    → is_active_status s.status ≡ true
    → r.host_id ≡ s.host_id
    → clashes r s ≡ false
    → Disjoint x y
Disjoint-of empty y r s ex ey a b h c = tt
Disjoint-of (bounded p q) empty r s ex ey a b h c = tt
Disjoint-of (bounded p q) (bounded u v) r s ex ey a b h c = ground arith

clashes-Apart : (r s : Reservation) → clashes r s ≡ false → Apart r s
clashes-Apart r s c a b h = Disjoint-of r.time_range s.time_range r s refl refl a b h c

pub Booked-NoOverlap :
    (db db' : Db) (u h s e : ℕ) (r : Reservation)
    → Booked db u h s e r db'
    → NoOverlap db.reservations
    → NoOverlap db'.reservations
Booked-NoOverlap db db' u h s e r b v = subst NoOverlap (sym b.rows) (
  All-map _ (Apart r) (clashes-Apart r) db.reservations
      (exists_where-none (clashes r) db.reservations b.free),
  v,
)

Apart-canceled : (now : ℕ) (r s : Reservation) → Apart r s → Apart r (set_canceled now s)
Apart-canceled now r s h a b e = cc

canceled-Apart : (now : ℕ) (r s : Reservation) → Apart r s → Apart (set_canceled now r) s
canceled-Apart now r s h a b e = cc

update-NoOverlap :
    (now : ℕ) (p : Reservation → Bool) (rows : List Reservation)
    → NoOverlap rows
    → NoOverlap (update_where p (set_canceled now) rows)
unfolding update_where
update-NoOverlap now p [] v = tt
update-NoOverlap now p (r ∷ rows) v =
    let others = All-update_where (Apart r) p (set_canceled now) (Apart-canceled now r) rows v.0 in
    let rest = update-NoOverlap now p rows v.1 in
    elim (Bool-cases (p r)) [
      | inl e ↦
          rw e
            (All-map (Apart r) (Apart (set_canceled now r)) (canceled-Apart now r) _ others, rest)
      | inr e ↦ rw e (others, rest)
    ]

-- If no two active reservations of a host overlap, then that is so after `create_reservation` has
-- granted another.
pub create_reservation-NoOverlap :
    (settings : Settings) (t u : ℕ) (user : User) (host_id : ℕ) (s e : DateTime) (db : Db)
    {r : Reservation} {db' : Db}
    → NoOverlap db.reservations
    → create_reservation settings t u user host_id s e db ≡ ok (r, db')
    → NoOverlap db'.reservations
create_reservation-NoOverlap settings t u user host_id s e db {r} {db'} v h =
    Booked-NoOverlap db db' user.id host_id _ _ r
      (create_reservation-Accepted settings t u user host_id s e db h).booked v

-- What a cancellation does to the table.
pub cancel-rows :
    (now : ℕ) (user : User) (i : ℕ) (db : Db) {r : Reservation} {db' : Db}
    → cancel_reservation now user i db ≡ ok (r, db')
    → (db'.reservations ≡ db.reservations)
      ⊎ (db'.reservations ≡ update_where (λ x. x.id == r.id) (set_canceled now) db.reservations)
unfolding cancel_reservation soft_delete assert_can_access
cancel-rows now user i db h = ground arith

-- If no two active reservations of a host overlap, then that is so after a cancellation.
pub cancel_reservation-NoOverlap :
    (now : ℕ) (user : User) (i : ℕ) (db : Db) {r : Reservation} {db' : Db}
    → NoOverlap db.reservations
    → cancel_reservation now user i db ≡ ok (r, db')
    → NoOverlap db'.reservations
cancel_reservation-NoOverlap now user i db v h = elim (cancel-rows now user i db h) [
  | inl e ↦ subst NoOverlap (sym e) v
  | inr e ↦ subst NoOverlap (sym e) (update-NoOverlap now _ db.reservations v)
]
