-- ===== src/Api/Requests/Windows.antt =====
-- The schema of a reservation against the window check of the service.
use smart_classroom.Prelude.{
  ℕ, ◌<◌, ◌≡◌, ◌↔◌, ◌⊎◌, inl, inr, Bool, true, false, ◌&&◌, ◌||◌, [], ◌∷◌, arith, ◌==◌, leb,
  Bool-cases,
}
use smart_classroom.Domain.Time.{
  DateTime, instant, is_naive, is_grid_aligned, minute_of, second_of, microsecond_of,
}
use smart_classroom.Domain.Settings.{Settings}
use smart_classroom.Domain.Db.{
  Db, Result, ok, err, invalid_window, WindowFault, naive_datetime, unaligned_start, unaligned_end,
  not_before, too_long, in_the_past, beyond_lookahead, unaligned_bounds, unknown_host,
  half_open_query,
}
use smart_classroom.Reservation.Window.{validate_window}
use smart_classroom.Api.Requests.{
  Field, starts_at, ends_at, SchemaFault, naive, unaligned, ensure_grid, positive,
  ReservationCreate, valid, validate_order, validate_reservation_create,
}

-- The faults of `validate_window` that lie in the two times alone.
abbrev pub is_shape_fault : WindowFault → Bool
is_shape_fault naive_datetime = true
is_shape_fault unaligned_start = true
is_shape_fault unaligned_end = true
is_shape_fault not_before = true
is_shape_fault too_long = false
is_shape_fault in_the_past = false
is_shape_fault beyond_lookahead = false
is_shape_fault unaligned_bounds = false
is_shape_fault unknown_host = false
is_shape_fault half_open_query = false

abbrev pub is_misshapen : Result (Unit {0} × Db) → Bool
is_misshapen (ok r) = false
is_misshapen (err e) = elim e [ invalid_window fault ↦ is_shape_fault fault | _ ↦ false ]

grid_cases :
    (v : DateTime) (f : Field)
    → ((is_grid_aligned v 30 ≡ true) × (is_naive v ≡ false) × (ensure_grid v f ≡ []))
      ⊎ ((is_grid_aligned v 30 ≡ false) × (fault : SchemaFault) × (ensure_grid v f ≡ fault ∷ []))
unfolding ensure_grid is_grid_aligned
grid_cases v f = elim (Bool-cases (is_naive v)) [
  | inl e ↦ inr (ground (arith, e), naive f, ground (arith, e))
  | inr e ↦
      elim (Bool-cases (
        (minute_of v.wall == 0 || minute_of v.wall == 30)
        && (second_of v.wall == 0 && microsecond_of v.wall == 0))) [
          | inl g ↦ inl (ground (arith, e, g), e, ground (arith, e, g))
          | inr g ↦ inr (ground (arith, e, g), unaligned f, ground (arith, e, g))
        ]
]

misshapen_start :
    (settings : Settings) (now : ℕ) (s e : DateTime) (db : Db)
    → settings.reservation_slot_minutes ≡ 30
    → is_grid_aligned s 30 ≡ false
    → is_misshapen (validate_window settings now s e db) ≡ true
unfolding validate_window
misshapen_start settings now s e db slot h = rw slot (ground (arith, h))

misshapen_end :
    (settings : Settings) (now : ℕ) (s e : DateTime) (db : Db)
    → settings.reservation_slot_minutes ≡ 30
    → is_grid_aligned e 30 ≡ false
    → is_misshapen (validate_window settings now s e db) ≡ true
unfolding validate_window
misshapen_end settings now s e db slot h = rw slot (ground (arith, h))

well_shaped :
    (settings : Settings) (now : ℕ) (s e : DateTime) (db : Db)
    → settings.reservation_slot_minutes ≡ 30
    → (is_grid_aligned s 30 ≡ true) × (is_naive s ≡ false)
    → (is_grid_aligned e 30 ≡ true) × (is_naive e ≡ false)
    → is_misshapen (validate_window settings now s e db) ≡ leb (instant e) (instant s)
unfolding validate_window
well_shaped settings now s e db slot h k = rw slot (ground (arith, h.0, h.1, k.0, k.1))

-- At the default slot of 30 minutes the schema of a new reservation and the service agree: a body is
-- valid exactly if its host id is positive and `_validate_window` finds no fault in the times
-- themselves, which are a naive time, a time off the grid, and an end that is not after the start.
pub validate_reservation_create-validate_window :
    (settings : Settings) (now : ℕ) (self : ReservationCreate) (db : Db)
    → settings.reservation_slot_minutes ≡ 30
    → (validate_reservation_create self ≡ valid self) ↔ (
        (0 < self.host_id)
        × (is_misshapen (validate_window settings now self.starts_at self.ends_at db) ≡ false))
unfolding validate_reservation_create validate_order positive
validate_reservation_create-validate_window settings now self db slot =
    elim (Bool-cases (self.host_id == 0)) [
      | inl z ↦ (λ h. absurd (ground (arith, z)), λ r. absurd (ground (arith, z)))
      | inr z ↦ elim (grid_cases self.starts_at starts_at) [
        | inr (bad, fault, f) ↦
            let off = misshapen_start settings now self.starts_at self.ends_at db slot bad in
            (λ h. absurd (ground (arith, z, f)), λ r. absurd (ground (arith, off, r.1)))
        | inl (good, aware, f) ↦ elim (grid_cases self.ends_at ends_at) [
          | inr (bad, fault, g) ↦
              let off = misshapen_end settings now self.starts_at self.ends_at db slot bad in
              (λ h. absurd (ground (arith, z, f, g)), λ r. absurd (ground (arith, off, r.1)))
          | inl (good', aware', g) ↦
              let order =
                well_shaped settings now self.starts_at self.ends_at db slot (good, aware)
                  (good', aware') in
              (
                λ h. (ground (arith, z), ground (arith, z, f, g, order)),
                λ r. ground (arith, z, f, g, order, r.1),
              )
        ]
      ]
    ]
