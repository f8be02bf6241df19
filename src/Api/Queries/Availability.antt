-- ===== src/Api/Queries/Availability.antt =====
-- What the slot mode of the availability query answers.
use smart_classroom.Prelude.{
  ℕ, ◌<◌, ◌≡◌, ◌↔◌, refl, ap, subst, sym, ◌∙◌, inl, inr, Bool, true, false, ◌&&◌, ◌/◌, ◌%◌, ◌||◌,
  List, map, none, some, arith, ◌==◌, IsIn, IsIn-map, map-IsIn, exists_where, select_where_sound,
  select_where_complete, Bool-cases,
}
use smart_classroom.Domain.Time.{DateTime, instant, minute, is_naive, is_grid_aligned}
use smart_classroom.Domain.Range.{bounded, overlaps}
use smart_classroom.Domain.Rows.{Host, is_idle, is_confirmed}
use smart_classroom.Domain.Db.{Db, ok, bind-ok, WindowFault, invalid_window, raise_if, gets, ◌>>◌}
use smart_classroom.Reservation.Available.{list_slot_available_hosts}
use smart_classroom.Reservation.Availability.{ordered_sound, ordered_complete}
use smart_classroom.Api.Queries.{HostAvailable, ensure_grid_aligned, list_available_hosts_endpoint}

-- A confirmed reservation of the host overlaps the slot.
abbrev pub is_booked : ℕ → ℕ → Host → Db → Bool
is_booked from to h db =
    exists_where
      (λ r.
        (r.host_id == h.id) && (is_confirmed r.status && overlaps r.time_range (bounded from to)))
      db.reservations

listed :
    (from to : ℕ) (h : Host) (db : Db)
    → IsIn h (list_slot_available_hosts from to db)
      ↔ (IsIn h db.hosts × (is_idle h.status ≡ true) × (is_booked from to h db ≡ false))
unfolding list_slot_available_hosts
listed from to h db = (
  λ m.
      let (k, e) = select_where_sound _ h db.hosts (ordered_sound h _ m) in
      (k, ground arith, ground arith),
  λ r. ordered_complete h _ (select_where_complete _ h db.hosts r.0 (ground (arith, r.1, r.2))),
)

half_hours : (m : ℕ) → (m % 60 % 30 == 0) ≡ (m % 60 == 0 || m % 60 == 30)
half_hours m = ground arith

aligned :
    (dt : DateTime) (db : Db) {r : Unit {0} × Db}
    → ensure_grid_aligned dt 30 db ≡ ok r
    → (r.1 ≡ db) × (is_grid_aligned dt 30 ≡ true)
unfolding ensure_grid_aligned is_grid_aligned
aligned dt db h = elim (Bool-cases (is_naive dt)) [
  | inl e ↦ absurd (ground (arith, e))
  | inr e ↦ ground (arith, e, half_hours (dt.wall / minute))
]

guarded :
    (b : Bool) (fault : WindowFault) (f : Db → List HostAvailable) (db db' : Db)
    (rows : List HostAvailable)
    → (raise_if b (invalid_window fault) >> gets f) db ≡ ok (rows, db')
    → (b ≡ false) × (db' ≡ db) × (rows ≡ f db)
guarded true fault f db db' rows h = absurd (ground arith)
guarded false fault f db db' rows h = (refl, ground arith, ground arith)

listed_row :
    (hosts : List Host) (h : Host)
    → IsIn {A = HostAvailable} (h, none) (map (λ h. (h, none)) hosts) ↔ IsIn h hosts
listed_row hosts h = (
  λ m.
      let (x, k, e) = IsIn-map _ _ hosts m in
      subst (λ y. IsIn y hosts) (sym (ap (λ (p : HostAvailable). p.0) e)) k,
  map-IsIn (λ h. (h, none)) h hosts,
)

-- If the availability query with both bounds answers, it changes nothing, the start is before the
-- end, both lie on the grid of 30 minutes, and the answer lists exactly the idle hosts that no
-- confirmed reservation takes in the slot.
pub list_available_hosts_endpoint-slot :
    (now : ℕ) (from to : DateTime) (db db' : Db) (rows : List HostAvailable)
    → list_available_hosts_endpoint now (some from) (some to) db ≡ ok (rows, db')
    → (db' ≡ db)
      × (instant from < instant to)
      × (is_grid_aligned from 30 ≡ true)
      × (is_grid_aligned to 30 ≡ true)
      × ((h : Host)
          → IsIn (h, none) rows ↔ (
              IsIn h db.hosts
              × (is_idle h.status ≡ true)
              × (is_booked (instant from) (instant to) h db ≡ false)))
unfolding list_available_hosts_endpoint
list_available_hosts_endpoint-slot now from to db db' rows h =
    let (p, e, k) = bind-ok (ensure_grid_aligned from 30) _ db h in
    let (q, f, l) = bind-ok (ensure_grid_aligned to 30) _ p.1 k in
    let (here, from_aligned) = aligned from db e in
    let (there, to_aligned) = aligned to p.1 f in
    let (order, kept, answer) = guarded _ _ _ q.1 db' rows l in
    let same : q.1 ≡ db = there ∙ here in
    let found : rows
        ≡ map (λ h. (h, none)) (list_slot_available_hosts (instant from) (instant to) db) =
      answer
      ∙ ap (λ d. map (λ h. (h, none)) (list_slot_available_hosts (instant from) (instant to) d))
          same in
    (
      kept ∙ same,
      ground (arith, order),
      from_aligned,
      to_aligned,
      λ host.
          let row = listed_row (list_slot_available_hosts (instant from) (instant to) db) host in
          let rule = listed (instant from) (instant to) host db in
          (
            λ m. rule.0 (row.0 (subst (IsIn (host, none)) found m)),
            λ r. subst (IsIn (host, none)) (sym found) (row.1 (rule.1 r)),
          ),
    )
