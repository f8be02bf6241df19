-- ===== src/Reservation/Window.antt =====
-- `_validate_window` and `_validate_host_exists` of broker/app/services/reservation.py. The clock
-- reading `now` is an argument; the checks come in the source's order.
use smart_classroom.Prelude.{ℕ, ◌+◌, ◌-◌, ◌*◌, ◌||◌, not, ltb, leb}
use smart_classroom.Domain.Time.{DateTime, instant, minute, day, is_naive, is_grid_aligned}
use smart_classroom.Domain.Settings.{Settings}
use smart_classroom.Domain.Rows.{Host}
use smart_classroom.Domain.Db.{
  M, ◌>>=◌, ◌>>◌, raise_if, gets, or_raise, get_host, invalid_window, host_not_found,
  naive_datetime, unaligned_start, unaligned_end, not_before, too_long, in_the_past,
  beyond_lookahead,
}

unfoldable pub validate_window : Settings → ℕ → DateTime → DateTime → M (Unit {0})
validate_window settings now starts_at ends_at = do
  let slot_minutes = settings.reservation_slot_minutes
  raise_if (is_naive starts_at || is_naive ends_at) (invalid_window naive_datetime)
  raise_if (not (is_grid_aligned starts_at slot_minutes)) (invalid_window unaligned_start)
  raise_if (not (is_grid_aligned ends_at slot_minutes)) (invalid_window unaligned_end)
  raise_if (leb (instant ends_at) (instant starts_at)) (invalid_window not_before)
  raise_if
      (ltb (settings.max_reservation_duration_minutes * minute)
        (instant ends_at - instant starts_at))
      (invalid_window too_long)
  raise_if (ltb (instant starts_at) now) (invalid_window in_the_past)
  raise_if (ltb (now + settings.reservation_lookahead_days * day) (instant starts_at))
      (invalid_window beyond_lookahead)

unfoldable pub validate_host_exists : ℕ → M Host
validate_host_exists host_id = do or_raise (← gets (get_host host_id)) host_not_found
