-- ===== src/Reservation/Booking.antt =====
-- `create_reservation` and `create_instant_reservation` of broker/app/services/reservation.py,
-- with the INSERT under the constraints of broker/alembic/versions/0001_initial.py.
use smart_classroom.Prelude.{
  ℕ, suc, ◌+◌, ◌-◌, ◌%◌, Bool, true, false, ◌&&◌, not, List, [], ◌∷◌, Option, none, some, ltb, ◌==◌,
  min, is_none, if◌then◌else◌, exists_where,
}
use smart_classroom.Domain.Time.{DateTime, instant, utc, second, half_hour}
use smart_classroom.Domain.Range.{TimeRange, empty, bounded, tstzrange, overlaps, lower_after}
use smart_classroom.Domain.Settings.{Settings}
use smart_classroom.Domain.Rows.{
  User, Reservation, confirmed, is_active_status, is_confirmed, is_idle,
}
use smart_classroom.Domain.Audit.{reservation_create, by_user, reservation_target, success, booked}
use smart_classroom.Domain.Db.{
  M, pure, ◌>>=◌, ◌>>◌, raise_if, gets, modify, or_raise, get_user, get_host, get_reservation_row,
  write_audit, database_error, range_bounds, foreign_key, reservation_conflict, host_not_available,
  runtime_error,
}
use smart_classroom.Reservation.Window.{validate_window, validate_host_exists}
use smart_classroom.Reservation.Quota.{validate_quota}

-- `reservations_no_overlap`: EXCLUDE (host_id WITH =, time_range WITH &&) among active rows.
abbrev pub clashes : Reservation → Reservation → Bool
clashes r s =
    (is_active_status r.status && is_active_status s.status)
    && ((r.host_id == s.host_id) && overlaps r.time_range s.time_range)

-- The values of the INSERT.
abbrev pub new_row : ℕ → ℕ → ℕ → TimeRange → Reservation
new_row new_id user_id host_id range = record {
  id = new_id;
  user_id = user_id;
  host_id = host_id;
  time_range = range;
  status = confirmed;
  canceled_at = none;
}

-- INSERT INTO reservations ... RETURNING id. The exclusion constraint is checked as the row goes
-- in, the foreign keys at the end of the statement.
unfoldable pub insert_reservation : ℕ → ℕ → ℕ → ℕ → M ℕ
insert_reservation user_id host_id s e = do
  range ← or_raise (tstzrange s e) (database_error range_bounds)
  new_id ← gets (λ db. db.next_reservation_id)
  let row = new_row new_id user_id host_id range
  raise_if (← gets (λ db. exists_where (clashes row) db.reservations)) reservation_conflict
  raise_if (← gets (λ db. is_none (get_user user_id db))) (database_error foreign_key)
  raise_if (← gets (λ db. is_none (get_host host_id db))) (database_error foreign_key)
  modify
      (λ db. record db { reservations = row ∷ db.reservations; next_reservation_id = suc new_id })
  pure new_id

-- The part that both services share: the INSERT, the row read back, and the audit entry.
unfoldable pub book : User → ℕ → DateTime → DateTime → Bool → M Reservation
book user host_id starts_at ends_at instant_use = do
  new_id ← insert_reservation user.id host_id (instant starts_at) (instant ends_at)
  reservation ← or_raise (← gets (get_reservation_row new_id)) runtime_error
  write_audit (record {
    action = reservation_create;
    actor_user_id = some user.id;
    actor_kind = by_user;
    target_kind = some reservation_target;
    target_id = some reservation.id;
    result = success;
    detail = booked host_id (instant starts_at) (instant ends_at) instant_use;
    auth_provider = some user.provider;
  })
  pure reservation

-- The two arguments after the settings are the clock as `_validate_window` and `_validate_quota`
-- read it.
unfoldable pub create_reservation :
    Settings → ℕ → ℕ → User → ℕ → DateTime → DateTime → M Reservation
create_reservation settings now_window now_quota user host_id starts_at ends_at = do
  validate_window settings now_window starts_at ends_at
  validate_host_exists host_id
  validate_quota settings now_quota user starts_at ends_at
  book user host_id starts_at ends_at false

-- `INSTANT_USE_DURATION`: two hours and a half.
abbrev pub instant_use_duration : ℕ
instant_use_duration = 9_000_000_000

-- `_instant_window`
unfoldable pub instant_window : ℕ → Option ℕ → ℕ × ℕ
instant_window now next_reservation_at =
    let starts_at = now - now % second in
    let target = now + instant_use_duration in
    let floored = target - target % half_hour in
    let ends_at = floored + half_hour in
    elim next_reservation_at [
      | none ↦ (starts_at, ends_at)
      | some next ↦ (starts_at, if ltb next ends_at then next else ends_at)
    ]

abbrev pub lower_of : TimeRange → Option ℕ
lower_of empty = none
lower_of (bounded a b) = some a

-- SQL's `min`, which passes over NULL.
abbrev pub least : Option ℕ → Option ℕ → Option ℕ
least none o = o
least (some a) none = some a
least (some a) (some b) = some (min a b)

-- `_next_reservation_start`
unfoldable pub next_reservation_start : ℕ → ℕ → List Reservation → Option ℕ
next_reservation_start host_id after [] = none
next_reservation_start host_id after (r ∷ rows) =
    let rest = next_reservation_start host_id after rows in
    if (r.host_id == host_id) && (is_confirmed r.status && lower_after r.time_range after)
    then least (lower_of r.time_range) rest
    else rest

unfoldable pub create_instant_reservation : Settings → ℕ → ℕ → User → ℕ → M Reservation
create_instant_reservation settings now now_quota user host_id = do
  host ← validate_host_exists host_id
  raise_if (not (is_idle host.status)) host_not_available
  next_start ← gets (λ db. next_reservation_start host_id now db.reservations)
  let window = instant_window now next_start
  validate_quota settings now_quota user (utc window.0) (utc window.1)
  book user host_id (utc window.0) (utc window.1) true
