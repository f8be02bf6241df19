-- ===== src/Reservation/Booked.antt =====
-- What a booking that goes through has done, step by step.
use smart_classroom.Prelude.{
  ℕ, suc, ◌≡◌, Bool, true, false, ◌∷◌, none, some, exists_where, select_one, arith, ◌≢◌,
}
use smart_classroom.Domain.Time.{DateTime, instant}
use smart_classroom.Domain.Range.{TimeRange, tstzrange}
use smart_classroom.Domain.Audit.{
  AuditEntry, reservation_create, by_user, reservation_target, success, booked,
}
use smart_classroom.Domain.Rows.{User, Reservation, confirmed}
use smart_classroom.Domain.Db.{Db, ok, err, get_user, get_host, reservation_conflict, log_row}
use smart_classroom.Reservation.Booking.{clashes, new_row, insert_reservation, book}

pub record Booked (db : Db) (user_id host_id s e : ℕ) (r : Reservation) (db' : Db) : Type 0 where
  pub range : tstzrange s e ≡ some r.time_range
  pub owner : r.user_id ≡ user_id
  pub place : r.host_id ≡ host_id
  pub active : r.status ≡ confirmed
  pub new_id : r.id ≡ db.next_reservation_id
  pub free : exists_where (clashes r) db.reservations ≡ false
  pub rows : db'.reservations ≡ r ∷ db.reservations
  pub counter : db'.next_reservation_id ≡ suc db.next_reservation_id
  pub same_users : db'.users ≡ db.users
  pub same_hosts : db'.hosts ≡ db.hosts
  pub same_tokens : db'.tokens ≡ db.tokens
  pub same_token_id : db'.next_token_id ≡ db.next_token_id
  pub user_known : get_user user_id db ≢ none
  pub host_known : get_host host_id db ≢ none

pub book-Booked :
    (user : User) (host_id : ℕ) (s e : DateTime) (b : Bool) (db : Db) {r : Reservation} {db' : Db}
    → book user host_id s e b db ≡ ok (r, db')
    → Booked db user.id host_id (instant s) (instant e) r db'
unfolding book insert_reservation select_one
book-Booked user host_id s e b db h = ground arith

-- A booking goes through whenever the range is one, no active row clashes and both keys exist.
pub book_complete :
    (user : User) (host_id : ℕ) (s e : DateTime) (b : Bool) (range : TimeRange) (db : Db)
    → tstzrange (instant s) (instant e) ≡ some range
    → exists_where (clashes (new_row db.next_reservation_id user.id host_id range)) db.reservations
      ≡ false
    → get_user user.id db ≢ none
    → get_host host_id db ≢ none
    → (db' : Db) × (book user host_id s e b db
        ≡ ok (new_row db.next_reservation_id user.id host_id range, db'))
unfolding book insert_reservation select_one
book_complete user host_id s e b range db h free u k = (
  record db {
    reservations = new_row db.next_reservation_id user.id host_id range ∷ db.reservations;
    next_reservation_id = suc db.next_reservation_id;
    audit_logs = log_row entry db ∷ db.audit_logs;
  },
  ground arith,
)
  where
    entry : AuditEntry
    entry = record {
      action = reservation_create;
      actor_user_id = some user.id;
      actor_kind = by_user;
      target_kind = some reservation_target;
      target_id = some db.next_reservation_id;
      result = success;
      detail = booked host_id (instant s) (instant e) b;
      auth_provider = some user.provider;
    }

-- With the same conditions but a clash, the booking is refused as a conflict.
pub book-conflict :
    (user : User) (host_id : ℕ) (s e : DateTime) (b : Bool) (range : TimeRange) (db : Db)
    → tstzrange (instant s) (instant e) ≡ some range
    → exists_where (clashes (new_row db.next_reservation_id user.id host_id range)) db.reservations
      ≡ true
    → book user host_id s e b db ≡ err reservation_conflict
unfolding book insert_reservation
book-conflict user host_id s e b range db h full = ground arith
