-- ===== src/Reservation/Calendar/Matrix.antt =====
-- The calendar against the table: every slot of the grid is there, and tells who holds it.
use smart_classroom.Prelude.{
  ℕ, ◌+◌, ◌*◌, ◌≤◌, ◌<◌, ◌≡◌, refl, sym, subst, ap, ◌∙◌, inl, inr, true, false, List, [], Option,
  none, some, arith, IsIn, All, All-lookup, All-IsIn, Bool-cases, min, select_where,
  select_where_sound, select_where_complete,
}
use smart_classroom.Domain.Time.{DateTime, instant}
use smart_classroom.Domain.Range.{TimeRange, empty, bounded, overlaps}
use smart_classroom.Domain.Settings.{Settings}
use smart_classroom.Domain.Rows.{User, Reservation, user, is_active_status}
use smart_classroom.Domain.Db.{Db, ok}
use smart_classroom.Reservation.Calendar.{
  occupied_get, CalendarSlot, CalendarMatrix, slot_for, slot_at, shown_user, cursors_of,
  host_ids_of, is_host, is_in_window, occupied_in, slot_delta_of, matrix, build_calendar_matrix,
}
use smart_classroom.Reservation.Calendar.Cursors.{cursors_sound, cursors_complete}
use smart_classroom.Reservation.Calendar.Occupied.{meets, mark_rows_sound, mark_rows-none}
use smart_classroom.Reservation.Calendar.Slots.{slots_sound, slots_complete, TellsHolder, Describes}

shared_window :
    (delta from to h c : ℕ) (x : TimeRange)
    → from ≤ c
    → overlaps x (bounded c (min (c + delta) to)) ≡ true
    → (overlaps x (bounded from to) ≡ true) × (overlaps x (bounded c (c + delta)) ≡ true)
shared_window delta from to h c empty low o = cc
shared_window delta from to h c (bounded a b) low o = (ground arith, ground arith)

host_filter :
    (host_id : Option ℕ) (db : Db) (h : ℕ)
    → IsIn h (host_ids_of host_id db)
    → is_host host_id h ≡ true
host_filter none db h m = refl
host_filter (some i) db h (inl e) = ground (arith, e)
host_filter (some i) db h (inr m) = absurd m

module _ (viewer : User) (delta from to h k : ℕ) (host_id : Option ℕ) (db : Db) (pos : 0 < delta)
    (inside : from + k * delta < to) (known : IsIn h (host_ids_of host_id db)) where
  abbrev c : ℕ
  c = from + k * delta

  abbrev rows : List Reservation
  rows = select_where (is_in_window host_id from to) db.reservations

  free :
      All (λ r. meets delta h c r ≡ false) rows
      → (r : Reservation) → IsIn r db.reservations
      → is_active_status r.status ≡ true
      → r.host_id ≡ h
      → overlaps r.time_range (bounded c (min (c + delta) to)) ≡ false
  free none_meets r m act own =
      elim (Bool-cases (overlaps r.time_range (bounded c (min (c + delta) to)))) [
        | inr e ↦ e
        | inl o ↦
            let (whole, slot) = shared_window delta from to h c r.time_range (omega arith) o in
            let filter = host_filter host_id db h known in
            let passes : is_in_window host_id from to r ≡ true =
              ground (arith, whole, act, own, filter) in
            let missed =
              All-lookup (λ x. meets delta h c x ≡ false) rows none_meets
                (select_where_complete (is_in_window host_id from to) r db.reservations m passes) in
            absurd (ground (arith, missed, own, slot))
      ]

  tells :
      (o : Option Reservation)
      → occupied_get h c (occupied_in delta host_id from to db) ≡ o
      → TellsHolder viewer to db (slot_for viewer delta h c o)
  unfolding slot_for occupied_get
  tells none e =
      let clear = (mark_rows-none delta from to h k pos inside rows [] e).1 in
      inl (refl, refl, refl, All-IsIn _ db.reservations (λ r m. free clear r m))
  tells (some r) e = elim (mark_rows_sound delta from to h k pos inside rows [] r e) [
    | inl q ↦ absurd (ground (arith, q))
    | inr (m, y) ↦
        let (there, passes) =
          select_where_sound (is_in_window host_id from to) r db.reservations m in
        inr
          (r, there, ground (arith, passes), ground (arith, y), ground (arith, y), refl, refl, refl)
  ]

  slot_for-place :
      (o : Option Reservation)
      → let s = slot_for viewer delta h c o in
        (s.starts_at ≡ c) × (s.ends_at ≡ c + delta) × (s.host_id ≡ h)
  unfolding slot_for
  slot_for-place none = (refl, refl, refl)
  slot_for-place (some r) = (refl, refl, refl)

  slot_at-Describes :
      Describes viewer delta from to host_id db
        (slot_at viewer delta (occupied_in delta host_id from to db) h c)
  slot_at-Describes =
      let o = occupied_get h c (occupied_in delta host_id from to db) in
      let (start, end, place) = slot_for-place o in
      record {
        steps = k;
        on_grid = start;
        in_window = omega (arith, start);
        long = omega (arith, start, end);
        host = subst (λ i. IsIn i (host_ids_of host_id db)) (sym place) known;
        holder = tells o refl;
      }

matrix-Describes :
    (settings : Settings) (viewer : User) (host_id : Option ℕ) (from to : ℕ) (db : Db)
    → 0 < settings.reservation_slot_minutes
    → (s : CalendarSlot) → IsIn s (matrix settings viewer host_id from to db).slots
    → Describes viewer (slot_delta_of settings) from to host_id db s
unfolding matrix
matrix-Describes settings viewer host_id from to db some_minutes s m =
    let delta = slot_delta_of settings in
    let (h, c, known, at, e) =
      slots_sound viewer delta (occupied_in delta host_id from to db) (cursors_of delta from to)
        (host_ids_of host_id db) s m in
    let (k, on, below) = cursors_sound _ delta from to c at in
    subst (Describes viewer delta from to host_id db)
      (ap (slot_at viewer delta (occupied_in delta host_id from to db) h) (sym on) ∙ sym e)
      (slot_at-Describes viewer delta from to h k host_id db (omega (arith, some_minutes))
        (omega (arith, on, below)) known)

built :
    (settings : Settings) (from to : DateTime) (host_id : Option ℕ) (viewer : User) (db db' : Db)
    (m : CalendarMatrix)
    → build_calendar_matrix settings from to host_id viewer db ≡ ok (m, db')
    → (matrix settings viewer host_id (instant from) (instant to) db ≡ m) × (db ≡ db')
unfolding build_calendar_matrix
built settings from to host_id viewer db db' m h = (ground arith, ground arith)

-- Every slot of a calendar that is returned starts on the grid within the window and belongs to a host
-- that was asked for; it is open only if no active reservation of the host meets its part of the
-- window, and otherwise names an active reservation of the host that meets it.
pub build_calendar_matrix-Describes :
    (settings : Settings) (from to : DateTime) (host_id : Option ℕ) (viewer : User) (db db' : Db)
    (m : CalendarMatrix) (s : CalendarSlot)
    → 0 < settings.reservation_slot_minutes
    → build_calendar_matrix settings from to host_id viewer db ≡ ok (m, db')
    → IsIn s m.slots
    → Describes viewer (slot_delta_of settings) (instant from) (instant to) host_id db s
build_calendar_matrix-Describes settings from to host_id viewer db db' m s some_minutes h at =
    let (same, _) = built settings from to host_id viewer db db' m h in
    matrix-Describes settings viewer host_id (instant from) (instant to) db some_minutes s
      (subst (λ (x : CalendarMatrix). IsIn s x.slots) (sym same) at)

-- Every host that was asked for has a slot at every step of the grid within the window.
pub build_calendar_matrix_complete :
    (settings : Settings) (from to : DateTime) (host_id : Option ℕ) (viewer : User) (db db' : Db)
    (m : CalendarMatrix) (h k : ℕ)
    → 0 < settings.reservation_slot_minutes
    → build_calendar_matrix settings from to host_id viewer db ≡ ok (m, db')
    → IsIn h (host_ids_of host_id db)
    → instant from + k * slot_delta_of settings < instant to
    → (s : CalendarSlot) × IsIn s m.slots
      × (s.host_id ≡ h)
      × (s.starts_at ≡ instant from + k * slot_delta_of settings)
unfolding matrix
build_calendar_matrix_complete settings from to host_id viewer db db' m h k some_minutes e known
      inside =
    let delta = slot_delta_of settings in
    let (same, _) = built settings from to host_id viewer db db' m e in
    let occupied = occupied_in delta host_id (instant from) (instant to) db in
    let pos : 0 < delta = omega (arith, some_minutes) in
    let at = cursors_complete _ delta (instant from) (instant to) k pos (omega arith) inside in
    let (start, _, place) =
      slot_for-place viewer delta (instant from) (instant to) h k host_id db pos inside known
        (occupied_get h (instant from + k * delta) occupied) in
    (
      slot_at viewer delta occupied h (instant from + k * delta),
      subst
          (λ (x : CalendarMatrix).
            IsIn (slot_at viewer delta occupied h (instant from + k * delta)) x.slots)
          same
          (slots_complete viewer delta occupied (cursors_of delta (instant from) (instant to))
            (host_ids_of host_id db) h _ known at),
      place,
      start,
    )

shown-own :
    (viewer : User) (r : Reservation) (u : ℕ)
    → viewer.role ≡ user
    → shown_user viewer r ≡ some u
    → u ≡ viewer.id
shown-own viewer r u p h = ground arith

-- A viewer who is no admin finds no user's id in the calendar but their own.
pub build_calendar_matrix-private :
    (settings : Settings) (from to : DateTime) (host_id : Option ℕ) (viewer : User) (db db' : Db)
    (m : CalendarMatrix) (s : CalendarSlot) (u : ℕ)
    → 0 < settings.reservation_slot_minutes
    → build_calendar_matrix settings from to host_id viewer db ≡ ok (m, db')
    → viewer.role ≡ user
    → IsIn s m.slots
    → s.user_id ≡ some u
    → u ≡ viewer.id
build_calendar_matrix-private settings from to host_id viewer db db' m s u some_minutes h p at
      shown =
    let d =
      build_calendar_matrix-Describes settings from to host_id viewer db db' m s some_minutes h
        at in
    elim d.holder [
      | inl o ↦ absurd (ground (arith, o, shown))
      | inr (r, _, _, _, _, _, _, e) ↦ shown-own viewer r u p (sym e ∙ shown)
    ]
