-- ===== src/Reservation/Limits.antt =====
-- The quota after a booking: the check is made before the INSERT, and its bound holds after it.
use smart_classroom.Prelude.{
  ℕ, ◌+◌, ◌-◌, ◌/◌, ◌==◌, ◌&&◌, Bool, false, List, [], ◌∷◌, ltb, min, max, if◌then◌else◌,
}
use smart_classroom.Domain.Time.{minute}
use smart_classroom.Domain.Range.{TimeRange, empty, bounded}
use smart_classroom.Domain.Settings.{Settings}
use smart_classroom.Domain.Rows.{Reservation, is_active_status}
use smart_classroom.Domain.Db.{Db}
use smart_classroom.Reservation.Booked.{Booked}

-- The two amounts, described by what they are of: the active reservations of the user that are not
-- over at an instant, and the minutes of all of them between two instants.
abbrev pub ends_after : ℕ → TimeRange → Bool
ends_after now empty = false
ends_after now (bounded a b) = ltb now b

pub held : ℕ → ℕ → List Reservation → ℕ
held u now [] = 0
held u now (r ∷ rows) =
    (if (r.user_id == u) && (is_active_status r.status && ends_after now r.time_range)
      then 1
      else 0)
    + held u now rows

abbrev pub share : ℕ → ℕ → TimeRange → ℕ
share from to empty = 0
share from to (bounded a b) = (min b to - max a from) / minute

pub minutes_between : ℕ → ℕ → ℕ → List Reservation → ℕ
minutes_between u from to [] = 0
minutes_between u from to (r ∷ rows) =
    (if (r.user_id == u) && is_active_status r.status then share from to r.time_range else 0)
    + minutes_between u from to rows
