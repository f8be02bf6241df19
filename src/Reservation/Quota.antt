-- ===== src/Reservation/Quota.antt =====
-- `_validate_quota` of broker/app/services/reservation.py: how many reservations a user may hold
-- at once, and how many minutes on the day, in the request's own zone, on which one starts.
use smart_classroom.Prelude.{
  ℕ, ◌+◌, ◌-◌, ◌*◌, ◌/◌, Bool, ◌&&◌, List, [], ◌∷◌, ltb, leb, ◌==◌, min, max, if◌then◌else◌,
  select_where, count_where,
}
use smart_classroom.Domain.Time.{DateTime, instant, minute, day, start_of_day, add_delta}
use smart_classroom.Domain.Range.{TimeRange, empty, bounded, overlaps, upper_after}
use smart_classroom.Domain.Settings.{Settings}
use smart_classroom.Domain.Rows.{User, Reservation, is_active_status}
use smart_classroom.Domain.Db.{
  M, ◌>>=◌, ◌>>◌, raise_if, gets, quota_exceeded, concurrent, daily_minutes,
}

-- The WHERE clause of the first query.
abbrev pub is_upcoming : ℕ → ℕ → Reservation → Bool
is_upcoming user_id now r =
    (r.user_id == user_id) && (is_active_status r.status && upper_after r.time_range now)

-- The WHERE clause of the second; `tstzrange(:from_, :to_, '[)')` is a range of one day.
abbrev pub is_on_day : ℕ → ℕ → ℕ → Reservation → Bool
is_on_day user_id day_start day_end r =
    (r.user_id == user_id)
    && (is_active_status r.status && overlaps r.time_range (bounded day_start day_end))

-- One round of the loop over the rows: the minutes of the part that lies on the day. A row whose
-- bounds are None is skipped.
unfoldable pub clipped_minutes : ℕ → ℕ → TimeRange → ℕ
clipped_minutes day_start day_end empty = 0
clipped_minutes day_start day_end (bounded lower upper) =
    let clipped_lower = max lower day_start in
    let clipped_upper = min upper day_end in
    if ltb clipped_lower clipped_upper then (clipped_upper - clipped_lower) / minute else 0

unfoldable pub used_minutes : ℕ → ℕ → List Reservation → ℕ
used_minutes day_start day_end [] = 0
used_minutes day_start day_end (r ∷ rows) =
    clipped_minutes day_start day_end r.time_range + used_minutes day_start day_end rows

unfoldable pub concurrent_count : ℕ → ℕ → List Reservation → ℕ
concurrent_count user_id now = count_where (is_upcoming user_id now)

unfoldable pub daily_usage : ℕ → ℕ → ℕ → List Reservation → ℕ
daily_usage user_id day_start day_end rows =
    used_minutes day_start day_end (select_where (is_on_day user_id day_start day_end) rows)

unfoldable pub validate_quota : Settings → ℕ → User → DateTime → DateTime → M (Unit {0})
validate_quota settings now user starts_at ends_at = do
  count ← gets (λ db. concurrent_count user.id now db.reservations)
  raise_if (leb settings.max_concurrent_reservations count)
      (quota_exceeded concurrent count settings.max_concurrent_reservations)
  let day_start = start_of_day starts_at
  let day_end = add_delta day_start day
  let new_duration_minutes = (instant ends_at - instant starts_at) / minute
  used ← gets (λ db. daily_usage user.id (instant day_start) (instant day_end) db.reservations)
  raise_if (ltb (settings.max_reservation_hours_per_day * 60) (used + new_duration_minutes))
      (quota_exceeded daily_minutes used (settings.max_reservation_hours_per_day * 60))
