-- ===== src/Api/Queries.antt =====
-- The endpoints of broker/app/api/v1/reservations.py and hosts.py that only read.
use smart_classroom.Prelude.{
  ℕ, ◌%◌, Bool, ◌&&◌, ◌||◌, not, List, [], ◌∷◌, map, Option, none, some, ◌==◌, leb, is_none,
  if◌then◌else◌,
}
use smart_classroom.Domain.Time.{DateTime, instant, is_naive, minute_of, second_of, microsecond_of}
use smart_classroom.Domain.Settings.{Settings}
use smart_classroom.Domain.Rows.{User, Host, Reservation, ReservationStatus}
use smart_classroom.Domain.Db.{
  M, pure, ◌>>=◌, ◌>>◌, raise_if, raise, gets, invalid_window, naive_datetime, unaligned_bounds,
  half_open_query, not_before,
}
use smart_classroom.Reservation.Access.{get_reservation, list_reservations, reservation_bounds}
use smart_classroom.Reservation.Available.{
  list_instant_available_hosts, list_slot_available_hosts, order_by_id,
}
use smart_classroom.Reservation.Calendar.{CalendarMatrix, build_calendar_matrix}
use smart_classroom.Api.Http.{hide_reservation}
use smart_classroom.Api.Reservations.{rescue}
pub mod Availability

-- `ReservationRead`; `created_at` is left out, as in the rows.
pub record ReservationRead : Type 0 where
  pub id : ℕ
  pub user_id : ℕ
  pub host_id : ℕ
  pub starts_at : ℕ
  pub ends_at : ℕ
  pub status : ReservationStatus
  pub canceled_at : Option ℕ

-- `_to_read`
unfoldable pub to_read : Reservation → M ReservationRead
to_read r = do
  at ← reservation_bounds r
  pure (record {
    id = r.id;
    user_id = r.user_id;
    host_id = r.host_id;
    starts_at = at.0;
    ends_at = at.1;
    status = r.status;
    canceled_at = r.canceled_at;
  })

unfoldable pub to_read_all : List Reservation → M (List ReservationRead)
to_read_all [] = pure []
to_read_all (r ∷ rows) = do first ← to_read r; rest ← to_read_all rows; pure (first ∷ rest)

-- The bounds are the points in time of the two query parameters.
unfoldable pub list_reservations_endpoint :
    User → Option ℕ → Option ℕ → Option ℕ → Option ℕ → M (List ReservationRead)
list_reservations_endpoint viewer from to host_id user_id = do
  to_read_all (← gets (list_reservations viewer from to host_id user_id))

unfoldable pub calendar_endpoint :
    Settings → DateTime → DateTime → Option ℕ → User → M CalendarMatrix
calendar_endpoint settings from to host_id viewer =
    build_calendar_matrix settings from to host_id viewer

unfoldable pub get_reservation_endpoint : User → ℕ → M ReservationRead
get_reservation_endpoint user reservation_id = do
  reservation ← rescue hide_reservation (get_reservation user reservation_id)
  to_read reservation

unfoldable pub list_hosts_endpoint : M (List Host)
list_hosts_endpoint = gets (λ db. order_by_id db.hosts)

-- `_ensure_grid_aligned`
unfoldable pub ensure_grid_aligned : DateTime → ℕ → M (Unit {0})
ensure_grid_aligned dt slot_minutes = do
  raise_if (is_naive dt) (invalid_window naive_datetime)
  raise_if
      (not (
        (minute_of dt.wall % slot_minutes == 0)
        && ((second_of dt.wall == 0) && (microsecond_of dt.wall == 0))))
      (invalid_window unaligned_bounds)

-- `HostAvailable`: the host, and `available_until` if it is for use at once.
abbrev pub HostAvailable : Type 0
HostAvailable = Host × Option ℕ

unfoldable pub list_available_hosts_endpoint :
    ℕ → Option DateTime → Option DateTime → M (List HostAvailable)
list_available_hosts_endpoint now none none =
    gets (λ db. map (λ row. (row.0, some row.1)) (list_instant_available_hosts now db))
list_available_hosts_endpoint now none (some to) = raise (invalid_window half_open_query)
list_available_hosts_endpoint now (some from) none = raise (invalid_window half_open_query)
list_available_hosts_endpoint now (some from) (some to) = do
  ensure_grid_aligned from 30
  ensure_grid_aligned to 30
  raise_if (leb (instant to) (instant from)) (invalid_window not_before)
  gets (λ db. map (λ h. (h, none)) (list_slot_available_hosts (instant from) (instant to) db))
