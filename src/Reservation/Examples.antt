-- ===== src/Reservation/Examples.antt =====
-- The theorems on reservations at work in a small classroom.
use smart_classroom.Prelude.{
  ◌≡◌, refl, inl, inr, [], none, some, arith, select_one, select_where, update_where, count_where,
  exists_where, IsIn,
}
use smart_classroom.Domain.Time.{utc, is_grid_aligned}
use smart_classroom.Domain.Range.{bounded, tstzrange}
use smart_classroom.Domain.Settings.{default_settings}
use smart_classroom.Domain.Rows.{Reservation, canceled}
use smart_classroom.Domain.Db.{Db, Result, ok, err}
use smart_classroom.Samples.{at, student, lesson, classroom, with_lesson, db_of}
use smart_classroom.Reservation.Window.{validate_window, validate_host_exists}
use smart_classroom.Reservation.Quota.{
  validate_quota, clipped_minutes, used_minutes, concurrent_count, daily_usage,
}
use smart_classroom.Reservation.Booking.{
  new_row, insert_reservation, book, create_reservation, instant_window, next_reservation_start,
  create_instant_reservation,
}
use smart_classroom.Reservation.Access.{cancel_reservation, soft_delete, assert_can_access}
use smart_classroom.Reservation.Policy.{
  IsBookable, IsWithinQuota, Accepted, create_reservation-Accepted, create_reservation_complete,
}
use smart_classroom.Reservation.InstantBooking.{InstantlyAccepted, create_instant-Accepted}
use smart_classroom.Reservation.Calendar.{
  CalendarMatrix, CalendarSlot, occupied_slot, slot_delta_of, build_calendar_matrix, matrix,
  cursors, occupied_get, put_all, mark, mark_rows, slot_for, slots_of,
}
use smart_classroom.Reservation.Calendar.Slots.{Describes}
use smart_classroom.Reservation.Calendar.Matrix.{
  build_calendar_matrix-Describes, build_calendar_matrix-private,
}

-- The lesson is booked at nine.
abbrev booking : Result (Reservation × Db)
booking =
    create_reservation default_settings (at 18) (at 18) student 1 (utc (at 20)) (utc (at 22))
      classroom

abbrev booked_db : Db
booked_db = db_of booking

created : booking ≡ ok (lesson, booked_db)
unfolding create_reservation validate_window validate_host_exists validate_quota concurrent_count
    daily_usage used_minutes clipped_minutes book insert_reservation tstzrange is_grid_aligned
    select_one select_where count_where exists_where
created = refl

create_reservation-Accepted_example :
    Accepted default_settings
      (at 18)
      (at 18)
      student
      1
      (utc (at 20))
      (utc (at 22))
      classroom
      lesson
      booked_db
create_reservation-Accepted_example =
    create_reservation-Accepted default_settings (at 18) (at 18) student 1 (utc (at 20))
      (utc (at 22)) classroom created

-- Before the lesson is booked, and after: a request for the same hour.
bookable : IsBookable default_settings (at 18) (utc (at 20)) (utc (at 22))
bookable =
    (create_reservation-Accepted default_settings (at 18) (at 18) student 1 (utc (at 20))
      (utc (at 22)) classroom created).bookable

within : IsWithinQuota default_settings (at 18) student (utc (at 20)) (utc (at 22)) classroom
within =
    (create_reservation-Accepted default_settings (at 18) (at 18) student 1 (utc (at 20))
      (utc (at 22)) classroom created).within

within_again :
    IsWithinQuota default_settings (at 18) student (utc (at 20)) (utc (at 22)) with_lesson
unfolding concurrent_count daily_usage used_minutes clipped_minutes select_where count_where
within_again = record { few = omega arith; brief = omega arith }

create_reservation_complete_example :
    (db' : Db) × (create_reservation default_settings
        (at 18)
        (at 18)
        student
        1
        (utc (at 20))
        (utc (at 22))
        classroom
      ≡ ok (lesson, db'))
unfolding exists_where select_one
create_reservation_complete_example =
    create_reservation_complete default_settings (at 18) (at 18) student 1 (utc (at 20))
      (utc (at 22)) classroom bookable within (λ e. cc) (λ e. cc) refl

-- The student cancels the lesson.
abbrev canceling : Result (Reservation × Db)
canceling = cancel_reservation (at 19) student 1 with_lesson

abbrev canceled_db : Db
canceled_db = db_of canceling

abbrev canceled_lesson : Reservation
canceled_lesson = record lesson { status = canceled; canceled_at = some (at 19) }

canceled_ok : canceling ≡ ok (canceled_lesson, canceled_db)
unfolding cancel_reservation soft_delete assert_can_access select_one update_where
canceled_ok = refl

-- Instant use at nine, an hour before the lesson.
abbrev instant_booking : Result (Reservation × Db)
instant_booking = create_instant_reservation default_settings (at 18) (at 18) student 1 with_lesson

abbrev until_lesson : Reservation
until_lesson = new_row 2 1 1 (bounded (at 18) (at 20))

instant_ok : instant_booking ≡ ok (until_lesson, db_of instant_booking)
unfolding create_instant_reservation next_reservation_start instant_window validate_host_exists
    validate_quota concurrent_count daily_usage used_minutes clipped_minutes book insert_reservation
    tstzrange select_one select_where count_where exists_where
instant_ok = refl

create_instant-Accepted_example :
    InstantlyAccepted default_settings
      (at 18)
      (at 18)
      student
      1
      with_lesson
      until_lesson
      (db_of instant_booking)
create_instant-Accepted_example =
    create_instant-Accepted default_settings (at 18) (at 18) student 1 with_lesson instant_ok

-- The morning from nine to noon, as the student sees it.
abbrev calendar_reply : Result (CalendarMatrix × Db)
calendar_reply =
    build_calendar_matrix default_settings (utc (at 18)) (utc (at 24)) none student with_lesson

abbrev calendar_of : Result (CalendarMatrix × Db) → CalendarMatrix
calendar_of (ok r) = r.0
calendar_of (err e) = record { from = 0; to = 0; slot_minutes = 0; slots = [] }

abbrev calendar : CalendarMatrix
calendar = calendar_of calendar_reply

abbrev first_half_hour : CalendarSlot
first_half_hour = record {
  starts_at = at 20;
  ends_at = at 21;
  host_id = 1;
  reservation_id = some 1;
  user_id = some 1;
  status = occupied_slot;
}

drawn : calendar_reply ≡ ok (calendar, with_lesson)
unfolding build_calendar_matrix matrix is_grid_aligned
drawn = refl

shown : IsIn first_half_hour calendar.slots
unfolding build_calendar_matrix matrix is_grid_aligned cursors occupied_get put_all mark mark_rows
    slot_for slots_of select_where
shown = inr (inr (inl refl))

build_calendar_matrix-Describes_example :
    Describes student
      (slot_delta_of default_settings)
      (at 18)
      (at 24)
      none
      with_lesson
      first_half_hour
build_calendar_matrix-Describes_example =
    build_calendar_matrix-Describes default_settings (utc (at 18)) (utc (at 24)) none student
      with_lesson with_lesson calendar first_half_hour (omega arith) drawn shown

build_calendar_matrix-private_example : 1 ≡ student.id
build_calendar_matrix-private_example =
    build_calendar_matrix-private default_settings (utc (at 18)) (utc (at 24)) none student
      with_lesson with_lesson calendar first_half_hour 1 (omega arith) drawn refl shown refl
