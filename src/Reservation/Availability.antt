-- ===== src/Reservation/Availability.antt =====
-- `list_instant_available_hosts`: what its answer promises of a host.
use smart_classroom.Prelude.{
  ℕ, ◌<◌, ◌≡◌, sym, ap, ◌∙◌, ◌⊎◌, inl, inr, true, false, ◌&&◌, List, [], ◌∷◌, arith, IsIn,
  Bool-cases, if◌then◌else◌, leb, map, All, exists_where-none, select_where_sound, ◌==◌,
}
use smart_classroom.Domain.Range.{covers}
use smart_classroom.Domain.Rows.{Host, Reservation, is_idle, is_active_status}
use smart_classroom.Domain.Db.{Db}
use smart_classroom.Reservation.Available.{
  is_taken_now, insert_by_id, order_by_id, until, list_instant_available_hosts,
}
use smart_classroom.Reservation.Instant.{instant_window-holds}
use smart_classroom.Reservation.InstantBooking.{window_for}

by_id_sound : (a h : Host) (xs : List Host) → IsIn a (insert_by_id h xs) → (a ≡ h) ⊎ IsIn a xs
unfolding insert_by_id
by_id_sound a h [] m = m
by_id_sound a h (x ∷ xs) m = elim (Bool-cases (leb h.id x.id)) [
  | inl e ↦ rw (e, if◌then◌else◌) at m
  | inr e ↦ pass (by_id_sound a h xs) (rw (e, if◌then◌else◌) at m)
]
  where
    pass :
        (IsIn a (insert_by_id h xs) → (a ≡ h) ⊎ IsIn a xs)
        → (a ≡ x) ⊎ IsIn a (insert_by_id h xs)
        → (a ≡ h) ⊎ ((a ≡ x) ⊎ IsIn a xs)
    pass ih (inl q) = inr (inl q)
    pass ih (inr q) = elim (ih q) [ inl e ↦ inl e | inr k ↦ inr (inr k) ]

pub ordered_sound : (a : Host) (xs : List Host) → IsIn a (order_by_id xs) → IsIn a xs
unfolding order_by_id
ordered_sound a [] m = m
ordered_sound a (x ∷ xs) m = elim (by_id_sound a x (order_by_id xs) m) [
  | inl e ↦ inl e
  | inr k ↦ inr (ordered_sound a xs k)
]

by_id_complete : (a h : Host) (xs : List Host) → (a ≡ h) ⊎ IsIn a xs → IsIn a (insert_by_id h xs)
unfolding insert_by_id
by_id_complete a h [] m = m
by_id_complete a h (x ∷ xs) m = elim (Bool-cases (leb h.id x.id)) [
  | inl e ↦ rw (e, if◌then◌else◌) m
  | inr e ↦
      rw (e, if◌then◌else◌)
        (elim m [
          | inl q ↦ inr (by_id_complete a h xs (inl q))
          | inr k ↦ elim k [ inl q ↦ inl q | inr j ↦ inr (by_id_complete a h xs (inr j)) ]
        ])
]

pub ordered_complete : (a : Host) (xs : List Host) → IsIn a xs → IsIn a (order_by_id xs)
unfolding order_by_id
ordered_complete a [] m = m
ordered_complete a (x ∷ xs) (inl q) = by_id_complete a x (order_by_id xs) (inl q)
ordered_complete a (x ∷ xs) (inr m) =
    by_id_complete a x (order_by_id xs) (inr (ordered_complete a xs m))

until_sound :
    (now : ℕ) (rows : List Reservation) (h : Host) (e : ℕ) (xs : List Host)
    → IsIn (h, e) (map (until now rows) xs)
    → IsIn h xs × ((h, e) ≡ until now rows h)
until_sound now rows h e [] m = absurd m
until_sound now rows h e (x ∷ xs) (inl q) =
    let same : h ≡ x = ap (λ (p : Host × ℕ). p.0) q in
    (inl same, q ∙ ap (until now rows) (sym same))
until_sound now rows h e (x ∷ xs) (inr m) = let r = until_sound now rows h e xs m in (inr r.0, r.1)

-- A host that is listed as available until `e` is in the table and idle, no active reservation of
-- it covers the present, and `e` is after the present and the end of the window that instant use
-- of it would take.
pub list_instant_available_hosts_lem :
    (now : ℕ) (db : Db) (h : Host) (e : ℕ)
    → IsIn (h, e) (list_instant_available_hosts now db)
    → IsIn h db.hosts
      × (is_idle h.status ≡ true)
      × All
          (λ r.
            ((r.host_id == h.id) && (is_active_status r.status && covers r.time_range now)) ≡ false)
          db.reservations
      × (e ≡ (window_for now h.id db).1)
      × (now < e)
unfolding list_instant_available_hosts
list_instant_available_hosts_lem now db h e m =
    let (k, q) = until_sound now db.reservations h e _ m in
    let (member, fits) = select_where_sound _ h db.hosts (ordered_sound h _ k) in
    let free : is_taken_now now db.reservations h ≡ false = ground arith in
    let at_end : e ≡ (window_for now h.id db).1 = ap (λ (p : Host × ℕ). p.1) q in
    (
      member,
      ground arith,
      exists_where-none _ db.reservations free,
      at_end,
      omega (arith, at_end, (instant_window-holds now h.id db.reservations).1),
    )
