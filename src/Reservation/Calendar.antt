-- ===== src/Reservation/Calendar.antt =====
-- `build_calendar_matrix` of broker/app/services/reservation.py: the grid of slots and who holds
-- them. Datetimes of one zone are compared, hashed and subtracted by their instant, so a cursor is
-- an instant here. The query names no order, and the rows come in that of the table.
use smart_classroom.Prelude.{
  ℕ, zero, suc, ◌+◌, ◌-◌, ◌*◌, ◌%◌, Bool, true, false, ◌&&◌, ◌||◌, not, List, [], ◌∷◌, ◌++◌, map,
  Option, none, some, ltb, leb, ◌==◌, min, max, if◌then◌else◌, select_where,
}
use smart_classroom.Domain.Time.{DateTime, instant, is_naive, is_grid_aligned, minute}
use smart_classroom.Domain.Range.{TimeRange, bounded, overlaps, bounds}
use smart_classroom.Domain.Settings.{Settings}
use smart_classroom.Domain.Rows.{User, Host, Reservation, is_admin, is_active_status}
use smart_classroom.Domain.Db.{
  Db, M, pure, ◌>>=◌, ◌>>◌, raise_if, gets, invalid_window, naive_datetime, unaligned_bounds,
  not_before,
}
pub mod Cursors
pub mod Occupied
pub mod Slots
pub mod Matrix

-- The values of `cursor` in `while cursor < stop: ...; cursor += delta`, on fuel.
unfoldable pub cursors : ℕ → ℕ → ℕ → ℕ → List ℕ
cursors zero delta cursor stop = []
cursors (suc fuel) delta cursor stop = elim (ltb cursor stop) [
  | true ↦ cursor ∷ cursors fuel delta (cursor + delta) stop
  | false ↦ []
]

-- A step is at least one microsecond long, so the distance is fuel enough.
abbrev pub cursors_of : ℕ → ℕ → ℕ → List ℕ
cursors_of delta cursor stop = cursors (stop - cursor) delta cursor stop

-- `occupied`: a dictionary from a host and the start of a slot, the latest assignment in front.
abbrev pub Occupied : Type 0
Occupied = List ((ℕ × ℕ) × Reservation)

unfoldable pub occupied_get : ℕ → ℕ → Occupied → Option Reservation
occupied_get host_id cursor [] = none
occupied_get host_id cursor (((h, c), r) ∷ occupied) =
    if (h == host_id) && (c == cursor) then some r else occupied_get host_id cursor occupied

-- `occupied[(res.host_id, cursor)] = res` for each value of the cursor.
unfoldable pub put_all : Reservation → List ℕ → Occupied → Occupied
put_all r [] occupied = occupied
put_all r (c ∷ cs) occupied = put_all r cs (((r.host_id, c), r) ∷ occupied)

-- The cursor's first value: the later of both bounds, cut to the start of its slot.
abbrev pub first_cursor : ℕ → ℕ → ℕ → ℕ
first_cursor delta from lower =
    let cursor = max lower from in let offset = (cursor - from) % delta in cursor - offset

-- One round of the loop over the reservations; a row without bounds is skipped.
unfoldable pub mark : ℕ → ℕ → ℕ → Reservation → Occupied → Occupied
mark delta from to r occupied = elim (bounds r.time_range) [
  | none ↦ occupied
  | some (lower, upper) ↦
      put_all r (cursors_of delta (first_cursor delta from lower) (min upper to)) occupied
]

unfoldable pub mark_rows : ℕ → ℕ → ℕ → List Reservation → Occupied → Occupied
mark_rows delta from to [] occupied = occupied
mark_rows delta from to (r ∷ rows) occupied =
    mark_rows delta from to rows (mark delta from to r occupied)

pub data SlotStatus : Type 0 where
  open_slot occupied_slot : SlotStatus

pub record CalendarSlot : Type 0 where
  pub starts_at : ℕ
  pub ends_at : ℕ
  pub host_id : ℕ
  pub reservation_id : Option ℕ
  pub user_id : Option ℕ
  pub status : SlotStatus

-- The user is shown to themselves and to an admin.
abbrev pub shown_user : User → Reservation → Option ℕ
shown_user viewer r =
    if is_admin viewer.role || (r.user_id == viewer.id) then some r.user_id else none

unfoldable pub slot_for : User → ℕ → ℕ → ℕ → Option Reservation → CalendarSlot
slot_for viewer delta hid cursor none = record {
  starts_at = cursor;
  ends_at = cursor + delta;
  host_id = hid;
  reservation_id = none;
  user_id = none;
  status = open_slot;
}
slot_for viewer delta hid cursor (some cell) = record {
  starts_at = cursor;
  ends_at = cursor + delta;
  host_id = hid;
  reservation_id = some cell.id;
  user_id = shown_user viewer cell;
  status = occupied_slot;
}

abbrev pub slot_at : User → ℕ → Occupied → ℕ → ℕ → CalendarSlot
slot_at viewer delta occupied hid cursor =
    slot_for viewer delta hid cursor (occupied_get hid cursor occupied)

unfoldable pub slots_of : User → ℕ → Occupied → List ℕ → List ℕ → List CalendarSlot
slots_of viewer delta occupied starts [] = []
slots_of viewer delta occupied starts (hid ∷ host_ids) =
    map (slot_at viewer delta occupied hid) starts ++ slots_of viewer delta occupied starts host_ids

pub record CalendarMatrix : Type 0 where
  pub from : ℕ
  pub to : ℕ
  pub slot_minutes : ℕ
  pub slots : List CalendarSlot

abbrev pub is_host : Option ℕ → ℕ → Bool
is_host none i = true
is_host (some h) i = i == h

abbrev pub host_ids_of : Option ℕ → Db → List ℕ
host_ids_of none db = map (λ (h : Host). h.id) db.hosts
host_ids_of (some i) db = i ∷ []

-- The WHERE clauses of the query.
abbrev pub is_in_window : Option ℕ → ℕ → ℕ → Reservation → Bool
is_in_window host_id from to r =
    is_active_status r.status
    && (overlaps r.time_range (bounded from to) && is_host host_id r.host_id)

abbrev pub slot_delta_of : Settings → ℕ
slot_delta_of settings = settings.reservation_slot_minutes * minute

abbrev pub occupied_in : ℕ → Option ℕ → ℕ → ℕ → Db → Occupied
occupied_in delta host_id from to db =
    mark_rows delta from to (select_where (is_in_window host_id from to) db.reservations) []

-- What follows the checks.
unfoldable pub matrix : Settings → User → Option ℕ → ℕ → ℕ → Db → CalendarMatrix
matrix settings viewer host_id from to db = record {
  from = from;
  to = to;
  slot_minutes = settings.reservation_slot_minutes;
  slots =
      slots_of viewer (slot_delta_of settings)
        (occupied_in (slot_delta_of settings) host_id from to db)
        (cursors_of (slot_delta_of settings) from to) (host_ids_of host_id db);
}

unfoldable pub build_calendar_matrix :
    Settings → DateTime → DateTime → Option ℕ → User → M CalendarMatrix
build_calendar_matrix settings from to host_id viewer = do
  let slot_minutes = settings.reservation_slot_minutes
  raise_if (is_naive from || is_naive to) (invalid_window naive_datetime)
  raise_if (not (is_grid_aligned from slot_minutes) || not (is_grid_aligned to slot_minutes))
      (invalid_window unaligned_bounds)
  raise_if (leb (instant to) (instant from)) (invalid_window not_before)
  gets (matrix settings viewer host_id (instant from) (instant to))
