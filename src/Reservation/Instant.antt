-- ===== src/Reservation/Instant.antt =====
-- Instant use: the window that the server computes, and why it finds its place in the table.
use smart_classroom.Prelude.{
  ℕ, ◌+◌, ◌-◌, ◌%◌, ◌≤◌, ◌<◌, ◌≡◌, refl, subst, inl, inr, Bool, true, false, ◌&&◌, List, [], ◌∷◌,
  Option, none, some, arith, All, Bool-cases, Option-cases, ◌==◌, All-map, if◌then◌else◌, min,
}
use smart_classroom.Domain.Time.{second, half_hour}
use smart_classroom.Domain.Range.{TimeRange, empty, bounded, lower_after}
use smart_classroom.Domain.Rows.{Reservation, is_confirmed}
use smart_classroom.Reservation.Booking.{
  instant_window, next_reservation_start, lower_of, instant_use_duration, least,
}

-- The start is `now` cut to the second.
pub instant_window-start :
    (now : ℕ) (next : Option ℕ)
    → let s = (instant_window now next).0 in (s ≤ now) × (now < s + second) × (s % second ≡ 0)
unfolding instant_window
instant_window-start now none = omega arith
instant_window-start now (some t) = omega arith

pub instant_window-eq :
    (now : ℕ) (next : Option ℕ) → (instant_window now next).0 ≡ now - now % second
unfolding instant_window
instant_window-eq now none = refl
instant_window-eq now (some t) = refl

-- With no reservation to come, the end is a half hour of the grid, two and a half to three hours on.
pub instant_window-free_end :
    (now : ℕ)
    → let e = (instant_window now none).1 in
      (now + instant_use_duration < e)
      × (e ≤ now + instant_use_duration + half_hour)
      × (e % half_hour ≡ 0)
unfolding instant_window
instant_window-free_end now = omega arith

-- With one, the window is the same but cut there.
pub instant_window-cut :
    (now next : ℕ) → (instant_window now (some next)).1 ≡ min next (instant_window now none).1
unfolding instant_window
instant_window-cut now next = ground arith

pub instant_window-open : (now next : ℕ) → now < next → now < (instant_window now (some next)).1
unfolding instant_window
instant_window-open now next h = ground arith

-- A row of the host that is CONFIRMED and still to start.
abbrev pub is_next : ℕ → ℕ → Reservation → Bool
is_next host_id after r =
    (r.host_id == host_id) && (is_confirmed r.status && lower_after r.time_range after)

-- What the query's answer says of one row's range.
abbrev pub NotBefore : Option ℕ → TimeRange → Type 0
NotBefore o empty = Unit
NotBefore none (bounded a b) = ⊥
NotBefore (some t) (bounded a b) = t ≤ a

NotBefore-least_left : (x : TimeRange) (o p : Option ℕ) → NotBefore o x → NotBefore (least o p) x
NotBefore-least_left empty o p h = tt
NotBefore-least_left (bounded a b) none p h = absurd h
NotBefore-least_left (bounded a b) (some t) none h = h
NotBefore-least_left (bounded a b) (some t) (some u) h = omega arith

NotBefore-least_right : (x : TimeRange) (o p : Option ℕ) → NotBefore p x → NotBefore (least o p) x
NotBefore-least_right empty o p h = tt
NotBefore-least_right (bounded a b) o none h = absurd h
NotBefore-least_right (bounded a b) none (some t) h = h
NotBefore-least_right (bounded a b) (some u) (some t) h = omega arith

NotBefore-lower_of : (x : TimeRange) → NotBefore (lower_of x) x
NotBefore-lower_of empty = tt
NotBefore-lower_of (bounded a b) = omega arith

abbrev pub NoneBefore : ℕ → ℕ → Option ℕ → List Reservation → Type 0
NoneBefore host_id after o = All (λ r. is_next host_id after r ≡ true → NotBefore o r.time_range)

false-ne-true : {b : Bool} → b ≡ false → b ≡ true → ⊥
false-ne-true p q = cc

-- The query's answer is no later than the start of any confirmed reservation of the host that starts
-- after the given time, and it is none only if there is no such reservation.
pub next_reservation_start-least :
    (host_id after : ℕ) (rows : List Reservation)
    → NoneBefore host_id after (next_reservation_start host_id after rows) rows
unfolding next_reservation_start
next_reservation_start-least host_id after [] = tt
next_reservation_start-least host_id after (r ∷ rows) =
    let rest = next_reservation_start host_id after rows in
    let first = lower_of r.time_range in
    let ih = next_reservation_start-least host_id after rows in
    elim (Bool-cases (is_next host_id after r)) [
      | inl e ↦
          let eq : least first rest ≡ next_reservation_start host_id after (r ∷ rows) = rw e in
          subst (λ o. NoneBefore host_id after o (r ∷ rows)) eq
            (
              (λ _. NotBefore-least_left r.time_range first rest (NotBefore-lower_of r.time_range)),
              All-map _ _ (λ x f q. NotBefore-least_right x.time_range first rest (f q)) rows ih,
            )
      | inr e ↦
          let eq : rest ≡ next_reservation_start host_id after (r ∷ rows) = rw e in
          subst (λ o. NoneBefore host_id after o (r ∷ rows)) eq
            ((λ q. absurd (false-ne-true e q)), ih)
    ]

after_lower :
    (x : TimeRange) (after : ℕ) (t : ℕ)
    → lower_after x after ≡ true
    → lower_of x ≡ some t
    → after < t
after_lower empty after t h e = cc
after_lower (bounded a b) after t h e = ground arith

least-after :
    (o p : Option ℕ) (after t : ℕ)
    → ((u : ℕ) → o ≡ some u → after < u)
    → ((u : ℕ) → p ≡ some u → after < u)
    → least o p ≡ some t
    → after < t
least-after none p after t f g e = g t e
least-after (some a) none after t f g e = f t e
least-after (some a) (some b) after t f g e = ground (arith, f a refl, g b refl)

-- It lies after the given time.
pub next_reservation_start-after :
    (host_id after : ℕ) (rows : List Reservation) (t : ℕ)
    → next_reservation_start host_id after rows ≡ some t
    → after < t
unfolding next_reservation_start
next_reservation_start-after host_id after [] t e = cc
next_reservation_start-after host_id after (r ∷ rows) t e =
    elim (Bool-cases (is_next host_id after r)) [
      | inl q ↦
          least-after (lower_of r.time_range) (next_reservation_start host_id after rows) after t
            (λ u. after_lower r.time_range after u (ground arith))
            (next_reservation_start-after host_id after rows) (rw (q, if◌then◌else◌) at e)
      | inr q ↦ next_reservation_start-after host_id after rows t (rw (q, if◌then◌else◌) at e)
    ]

-- The window computed from the table starts no later than `now` and ends after it.
pub instant_window-holds :
    (now host_id : ℕ) (rows : List Reservation)
    → let w = instant_window now (next_reservation_start host_id now rows) in
      (w.0 ≤ now) × (now < w.1)
instant_window-holds now host_id rows =
    elim (Option-cases (next_reservation_start host_id now rows)) [
      | inl e ↦ rw e ((instant_window-start now none).0, omega (arith, instant_window-free_end now))
      | inr (t, e) ↦ rw e (
        (instant_window-start now (some t)).0,
        instant_window-open now t (next_reservation_start-after host_id now rows t e),
      )
    ]
