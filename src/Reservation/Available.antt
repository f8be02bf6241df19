-- ===== src/Reservation/Available.antt =====
-- Hosts that can be used at once or in a slot: `list_instant_available_hosts` of
-- broker/app/services/reservation.py and the slot mode of broker/app/api/v1/hosts.py.
use smart_classroom.Prelude.{
  ℕ, Bool, ◌&&◌, not, List, [], ◌∷◌, ◌==◌, leb, if◌then◌else◌, select_where, exists_where, map,
}
use smart_classroom.Domain.Range.{bounded, covers, overlaps}
use smart_classroom.Domain.Rows.{Host, Reservation, is_active_status, is_confirmed, is_idle}
use smart_classroom.Domain.Db.{Db}
use smart_classroom.Reservation.Booking.{next_reservation_start, instant_window}

-- The correlated NOT EXISTS of the query.
abbrev pub is_taken_now : ℕ → List Reservation → Host → Bool
is_taken_now now rows h =
    exists_where
      (λ r. (r.host_id == h.id) && (is_active_status r.status && covers r.time_range now)) rows

-- `ORDER BY h.id`
unfoldable pub insert_by_id : Host → List Host → List Host
insert_by_id h [] = h ∷ []
insert_by_id h (x ∷ xs) = if leb h.id x.id then h ∷ x ∷ xs else x ∷ insert_by_id h xs

unfoldable pub order_by_id : List Host → List Host
order_by_id [] = []
order_by_id (h ∷ hosts) = insert_by_id h (order_by_id hosts)

abbrev pub until : ℕ → List Reservation → Host → Host × ℕ
until now rows h = (h, (instant_window now (next_reservation_start h.id now rows)).1)

unfoldable pub list_instant_available_hosts : ℕ → Db → List (Host × ℕ)
list_instant_available_hosts now db = map (until now db.reservations) (
    order_by_id
      (select_where (λ h. is_idle h.status && not (is_taken_now now db.reservations h)) db.hosts))

-- The slot mode, `[from, to)`: only CONFIRMED reservations take a host out.
unfoldable pub list_slot_available_hosts : ℕ → ℕ → Db → List Host
list_slot_available_hosts from to db = order_by_id (
    select_where
      (λ h.
        is_idle h.status
        && not (
            exists_where
              (λ r.
                (r.host_id == h.id)
                && (is_confirmed r.status && overlaps r.time_range (bounded from to)))
              db.reservations))
      db.hosts)
