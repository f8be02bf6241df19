-- ===== src/Reservation/Policy.antt =====
-- The booking policy as an independent specification, and the checks that implement it.
use smart_classroom.Prelude.{
  ℕ, ◌+◌, ◌-◌, ◌*◌, ◌/◌, ◌%◌, ◌≤◌, ◌<◌, ◌≡◌, ◌≢◌, ◌↔◌, exists_where, true, false, arith, none, some,
}
use smart_classroom.Domain.Time.{
  DateTime, instant, minute, day, half_hour, is_naive, is_grid_aligned, start_of_day, add_delta,
}
use smart_classroom.Domain.Range.{bounded, tstzrange}
use smart_classroom.Domain.Settings.{Settings}
use smart_classroom.Domain.Rows.{User, Reservation, Host}
use smart_classroom.Domain.Db.{Db, ok, err, get_host, get_user, bind-same, reservation_conflict}
use smart_classroom.Reservation.Window.{validate_window, validate_host_exists}
use smart_classroom.Reservation.Quota.{validate_quota, concurrent_count, daily_usage}
use smart_classroom.Reservation.Booking.{clashes, new_row, create_reservation, book}
use smart_classroom.Reservation.Booked.{Booked, book-Booked, book_complete, book-conflict}

-- With half-hour slots: aware, and a whole number of half hours on the wall clock.
pub grid_aligned_half_hour :
    (dt : DateTime)
    → (is_grid_aligned dt 30 ≡ true) ↔ ((is_naive dt ≡ false) × (dt.wall % half_hour ≡ 0))
unfolding is_grid_aligned
grid_aligned_half_hour dt = ground arith

pub record IsBookable (settings : Settings) (now : ℕ) (s e : DateTime) : Type 0 where
  pub aligned_start : is_grid_aligned s settings.reservation_slot_minutes ≡ true
  pub aligned_end : is_grid_aligned e settings.reservation_slot_minutes ≡ true
  pub ordered : instant s < instant e
  pub short : instant e ≤ instant s + settings.max_reservation_duration_minutes * minute
  pub future : now ≤ instant s
  pub near : instant s ≤ now + settings.reservation_lookahead_days * day

pub validate_window_sound :
    (settings : Settings) (now : ℕ) (s e : DateTime) (db : Db) {r : Unit {0} × Db}
    → validate_window settings now s e db ≡ ok r
    → IsBookable settings now s e × (r.1 ≡ db)
unfolding validate_window
validate_window_sound settings now s e db h = ground arith

aligned-aware : (dt : DateTime) (n : ℕ) → is_grid_aligned dt n ≡ true → is_naive dt ≡ false
unfolding is_grid_aligned
aligned-aware dt n h = ground arith

pub validate_window_complete :
    (settings : Settings) (now : ℕ) (s e : DateTime) (db : Db)
    → IsBookable settings now s e
    → validate_window settings now s e db ≡ ok (tt, db)
unfolding validate_window
validate_window_complete settings now s e db v = ground (
  arith,
  aligned-aware s settings.reservation_slot_minutes,
  aligned-aware e settings.reservation_slot_minutes,
)

abbrev pub day_from : DateTime → ℕ
day_from s = instant (start_of_day s)

abbrev pub day_to : DateTime → ℕ
day_to s = instant (add_delta (start_of_day s) day)

-- What the quota check lets through.
pub record IsWithinQuota (settings : Settings) (now : ℕ) (user : User) (s e : DateTime) (db : Db)
    : Type 0 where
  pub few : concurrent_count user.id now db.reservations < settings.max_concurrent_reservations
  pub brief :
      daily_usage user.id (day_from s) (day_to s) db.reservations + (instant e - instant s) / minute
      ≤ settings.max_reservation_hours_per_day * 60

pub validate_quota_sound :
    (settings : Settings) (now : ℕ) (user : User) (s e : DateTime) (db : Db) {r : Unit {0} × Db}
    → validate_quota settings now user s e db ≡ ok r
    → IsWithinQuota settings now user s e db × (r.1 ≡ db)
unfolding validate_quota
validate_quota_sound settings now user s e db h = ground arith

pub validate_quota_complete :
    (settings : Settings) (now : ℕ) (user : User) (s e : DateTime) (db : Db)
    → IsWithinQuota settings now user s e db
    → validate_quota settings now user s e db ≡ ok (tt, db)
unfolding validate_quota
validate_quota_complete settings now user s e db v = ground arith

pub validate_host_exists_sound :
    (host_id : ℕ) (db : Db) {h : Host} {db' : Db}
    → validate_host_exists host_id db ≡ ok (h, db')
    → (get_host host_id db ≡ some h) × (db' ≡ db)
unfolding validate_host_exists
validate_host_exists_sound host_id db e = ground arith

-- The policy as a whole, for a request that `create_reservation` answers with a row.
pub record Accepted (settings : Settings) (now_window now_quota : ℕ) (user : User) (host_id : ℕ)
    (s e : DateTime) (db : Db) (r : Reservation) (db' : Db) : Type 0 where
  pub bookable : IsBookable settings now_window s e
  pub within : IsWithinQuota settings now_quota user s e db
  pub booked : Booked db user.id host_id (instant s) (instant e) r db'

-- Whatever `create_reservation` grants meets the window rules and the quota, and is the one new row
-- of the table: confirmed, for the given user, host and range, and clear of every active row.
pub create_reservation-Accepted :
    (settings : Settings) (t u : ℕ) (user : User) (host_id : ℕ) (s e : DateTime) (db : Db)
    {r : Reservation} {db' : Db}
    → create_reservation settings t u user host_id s e db ≡ ok (r, db')
    → Accepted settings t u user host_id s e db r db'
unfolding create_reservation
create_reservation-Accepted settings t u user host_id s e db h =
    let (a, ea, ha) =
      bind-same (validate_window settings t s e) _ db
        (λ a d q. (validate_window_sound settings t s e db q).1) h in
    let (b, eb, hb) =
      bind-same (validate_host_exists host_id) _ db
        (λ a d q. (validate_host_exists_sound host_id db q).1) ha in
    let (c, ec, hc) =
      bind-same (validate_quota settings u user s e) _ db
        (λ a d q. (validate_quota_sound settings u user s e db q).1) hb in
    record {
      bookable = (validate_window_sound settings t s e db ea).0;
      within = (validate_quota_sound settings u user s e db ec).0;
      booked = book-Booked user host_id s e false db hc;
    }

-- The range of an ordered pair of instants.
pub tstzrange-ordered : (s e : ℕ) → s < e → tstzrange s e ≡ some (bounded s e)
unfolding tstzrange
tstzrange-ordered s e h = ground arith

module _ (settings : Settings) (t u : ℕ) (user : User) (host_id : ℕ) (s e : DateTime) (db : Db)
    (v : IsBookable settings t s e) (q : IsWithinQuota settings u user s e db)
    (h : get_host host_id db ≢ none) where
  abbrev pub requested : Reservation
  requested = new_row db.next_reservation_id user.id host_id (bounded (instant s) (instant e))

  -- Past the checks, the booking decides.
  reaches_book :
      create_reservation settings t u user host_id s e db ≡ book user host_id s e false db
  unfolding create_reservation validate_host_exists
  reaches_book = ground (
    arith,
    validate_window_complete settings t s e db v,
    validate_quota_complete settings u user s e db q,
  )

  -- A request within the window rules and the quota, for a known host and user, is granted if no active
  -- reservation of the host clashes with it.
  pub create_reservation_complete :
      get_user user.id db ≢ none
      → exists_where (clashes requested) db.reservations ≡ false
      → (db' : Db) × (create_reservation settings t u user host_id s e db ≡ ok (requested, db'))
  create_reservation_complete k free =
      rw reaches_book
        (book_complete user host_id s e false _ db (tstzrange-ordered _ _ v.ordered) free k h)

  -- A request within the window rules and the quota, for a known host, is refused as a conflict if an
  -- active reservation of the host clashes with it.
  pub create_reservation-conflict :
      exists_where (clashes requested) db.reservations ≡ true
      → create_reservation settings t u user host_id s e db ≡ err reservation_conflict
  create_reservation-conflict full =
      rw reaches_book
        (book-conflict user host_id s e false _ db (tstzrange-ordered _ _ v.ordered) full)
