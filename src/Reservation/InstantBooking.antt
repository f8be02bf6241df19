-- ===== src/Reservation/InstantBooking.antt =====
-- `create_instant_reservation` as a whole.
use smart_classroom.Prelude.{
  ℕ, ◌-◌, ◌%◌, ◌≤◌, ◌≡◌, ◌≢◌, refl, ◌⊎◌, inl, inr, Bool, true, false, not, List, [], ◌∷◌, Option,
  none, some, arith, All, exists_where-some,
}
use smart_classroom.Domain.Time.{utc, second}
use smart_classroom.Domain.Range.{TimeRange, empty, bounded, tstzrange}
use smart_classroom.Domain.Settings.{Settings}
use smart_classroom.Domain.Rows.{User, Reservation, Host, is_active_status, is_idle}
use smart_classroom.Domain.Db.{
  Db, ok, get_host, get_user, bind-same, raise_if, raise_if-ok, host_not_available,
}
use smart_classroom.Reservation.Window.{validate_host_exists}
use smart_classroom.Reservation.Quota.{validate_quota}
use smart_classroom.Reservation.Booking.{
  clashes, new_row, instant_window, next_reservation_start, create_instant_reservation,
}
use smart_classroom.Reservation.Booked.{Booked, book-Booked, book_complete}
use smart_classroom.Reservation.Policy.{
  IsWithinQuota, validate_host_exists_sound, validate_quota_sound, validate_quota_complete,
  tstzrange-ordered,
}
use smart_classroom.Reservation.Instant.{
  is_next, NotBefore, NoneBefore, next_reservation_start-least, instant_window-holds,
  instant_window-cut, instant_window-eq,
}

-- The window that the service computes from the table.
abbrev pub window_for : ℕ → ℕ → Db → ℕ × ℕ
window_for now host_id db = instant_window now (next_reservation_start host_id now db.reservations)

pub record InstantlyAccepted (settings : Settings) (now now_quota : ℕ) (user : User) (host_id : ℕ)
    (db : Db) (r : Reservation) (db' : Db) : Type 0 where
  pub host : Host
  pub host_found : get_host host_id db ≡ some host
  pub host_idle : is_idle host.status ≡ true
  pub within :
      IsWithinQuota settings now_quota user
        (utc (window_for now host_id db).0)
        (utc (window_for now host_id db).1)
        db
  pub booked :
      Booked db user.id host_id (window_for now host_id db).0 (window_for now host_id db).1 r db'

not-not : (b : Bool) → not b ≡ false → b ≡ true
not-not true h = refl
not-not false h = cc

-- Whatever `create_instant_reservation` grants is on an idle host and within the quota, and is the one
-- new row of the table: the computed window, clear of every active row.
pub create_instant-Accepted :
    (settings : Settings) (t u : ℕ) (user : User) (host_id : ℕ) (db : Db) {r : Reservation}
    {db' : Db}
    → create_instant_reservation settings t u user host_id db ≡ ok (r, db')
    → InstantlyAccepted settings t u user host_id db r db'
unfolding create_instant_reservation
create_instant-Accepted settings t u user host_id db h =
    let (a, ea, ha) =
      bind-same (validate_host_exists host_id) _ db
        (λ a d q. (validate_host_exists_sound host_id db q).1) h in
    let (b, eb, hb) =
      bind-same (raise_if (not (is_idle a.status)) host_not_available) _ db
        (λ _ d q. (raise_if-ok (not (is_idle a.status)) host_not_available db q).1) ha in
    let (c, ec, hc) =
      bind-same
        (validate_quota settings u user (utc (window_for t host_id db).0)
          (utc (window_for t host_id db).1))
        _ db (λ a d q. (validate_quota_sound settings u user _ _ db q).1) hb in
    record {
      host = a;
      host_found = (validate_host_exists_sound host_id db ea).0;
      host_idle =
          not-not (is_idle a.status)
            (raise_if-ok (not (is_idle a.status)) host_not_available db eb).0;
      within = (validate_quota_sound settings u user _ _ db ec).0;
      booked = book-Booked user host_id _ _ true db hc;
    }

-- A row that an instant use at `now` cannot meet: it is over, or it is a coming reservation that
-- the window is cut at.
abbrev pub Ended : ℕ → TimeRange → Type 0
Ended t empty = Unit
Ended t (bounded a b) = b ≤ t

abbrev pub LeavesRoom : ℕ → ℕ → Reservation → Type 0
LeavesRoom host_id now r =
    is_active_status r.status ≡ true
    → r.host_id ≡ host_id
    → Ended (now - now % second) r.time_range ⊎ (is_next host_id now r ≡ true)

-- Every window ends by the next reservation.
window-NotBefore :
    (now : ℕ) (o : Option ℕ) (x : TimeRange)
    → NotBefore o x
    → Ended (now - now % second) x ⊎ NotBefore (some (instant_window now o).1) x
window-NotBefore now o empty h = inl tt
window-NotBefore now none (bounded a b) h = absurd h
window-NotBefore now (some t) (bounded a b) h = inr (omega (arith, instant_window-cut now t))

no_clash :
    (now host_id new_id user_id : ℕ) (o : Option ℕ) (range x : TimeRange) (r : Reservation)
    → x ≡ r.time_range
    → tstzrange (instant_window now o).0 (instant_window now o).1 ≡ some range
    → Ended (now - now % second) x ⊎ NotBefore (some (instant_window now o).1) x
    → clashes (new_row new_id user_id host_id range) r ≡ false
unfolding tstzrange
no_clash now host_id new_id user_id o range empty r ex e q = ground arith
no_clash now host_id new_id user_id o range (bounded a b) r ex e q =
    ground (arith, instant_window-eq now o)

-- So the exclusion constraint lets the row of the computed window in.
table_has_room :
    (now host_id new_id user_id : ℕ) (o : Option ℕ) (range : TimeRange)
    → tstzrange (instant_window now o).0 (instant_window now o).1 ≡ some range
    → (rows : List Reservation) → NoneBefore host_id now o rows
    → All (LeavesRoom host_id now) rows
    → All (λ r. clashes (new_row new_id user_id host_id range) r ≡ false) rows
table_has_room now host_id new_id user_id o range e [] n v = tt
table_has_room now host_id new_id user_id o range e (r ∷ rows) n v =
    (one, table_has_room now host_id new_id user_id o range e rows n.1 v.1)
  where
    room :
        is_active_status r.status ≡ true
        → r.host_id ≡ host_id
        → clashes (new_row new_id user_id host_id range) r ≡ false
    room a h = elim (v.0 a h) [
      | inl over ↦ no_clash now host_id new_id user_id o range r.time_range r refl e (inl over)
      | inr next ↦
          no_clash now host_id new_id user_id o range r.time_range r refl e
            (window-NotBefore now o r.time_range (n.0 next))
    ]

    one : clashes (new_row new_id user_id host_id range) r ≡ false
    one = ground (arith, room)

-- Instant use of an idle host succeeds, and takes the computed window, if the user exists and is
-- within the quota, and every active reservation of the host is over or yet to start.
pub instant_use_succeeds :
    (settings : Settings) (t u : ℕ) (user : User) (host_id : ℕ) (db : Db) (h : Host)
    → get_host host_id db ≡ some h
    → is_idle h.status ≡ true
    → get_user user.id db ≢ none
    → IsWithinQuota settings u user
        (utc (window_for t host_id db).0)
        (utc (window_for t host_id db).1)
        db
    → All (LeavesRoom host_id t) db.reservations
    → (db' : Db) × (create_instant_reservation settings t u user host_id db
        ≡ ok (
          new_row db.next_reservation_id user.id host_id
              (bounded (window_for t host_id db).0 (window_for t host_id db).1),
          db',
        ))
unfolding create_instant_reservation validate_host_exists
instant_use_succeeds settings t u user host_id db h e i k q v =
    let w = window_for t host_id db in
    let open_window = instant_window-holds t host_id db.reservations in
    let range = tstzrange-ordered w.0 w.1 (omega arith) in
    let free = exists_where-some _ db.reservations (
      table_has_room t host_id db.next_reservation_id user.id _ _ range db.reservations
        (next_reservation_start-least host_id t db.reservations) v) in
    let (db', done) =
      book_complete user host_id (utc w.0) (utc w.1) true _ db range free k (λ n. ground arith) in
    (db', ground (arith, done, validate_quota_complete settings u user (utc w.0) (utc w.1) db q))
