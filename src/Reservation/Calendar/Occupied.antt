-- ===== src/Reservation/Calendar/Occupied.antt =====
-- What the dictionary of the calendar holds for a slot.
use smart_classroom.Prelude.{
  ℕ, ◌+◌, ◌*◌, ◌<◌, ◌≡◌, refl, sym, subst, ap, ◌∙◌, ◌⊎◌, inl, inr, Bool, true, false, ◌&&◌, List,
  [], ◌∷◌, none, some, arith, IsIn, All, Bool-cases, ◌==◌, min, if◌then◌else◌,
}
use smart_classroom.Domain.Range.{TimeRange, empty, bounded, overlaps, bounds}
use smart_classroom.Domain.Rows.{Reservation}
use smart_classroom.Reservation.Calendar.{
  Occupied, occupied_get, put_all, mark, mark_rows, cursors_of, first_cursor,
}
use smart_classroom.Reservation.Calendar.Cursors.{marked}

-- What is there stays under the same key when it is assigned again.
put_all_keeps :
    (r : Reservation) (h c : ℕ) (cs : List ℕ) (d : Occupied)
    → r.host_id ≡ h
    → occupied_get h c d ≡ some r
    → occupied_get h c (put_all r cs d) ≡ some r
unfolding put_all occupied_get
put_all_keeps r h c [] d own e = e
put_all_keeps r h c (x ∷ cs) d own e =
    put_all_keeps r h c cs (((r.host_id, x), r) ∷ d) own (ground (arith, e))

put_all_hit :
    (r : Reservation) (h c : ℕ) (cs : List ℕ) (d : Occupied)
    → r.host_id ≡ h
    → IsIn c cs
    → occupied_get h c (put_all r cs d) ≡ some r
unfolding put_all occupied_get
put_all_hit r h c [] d own m = absurd m
put_all_hit r h c (x ∷ cs) d own (inl e) =
    put_all_keeps r h c cs (((r.host_id, x), r) ∷ d) own (ground (arith, e, own))
put_all_hit r h c (x ∷ cs) d own (inr m) = put_all_hit r h c cs (((r.host_id, x), r) ∷ d) own m

put_all_miss :
    (r : Reservation) (h c : ℕ) (cs : List ℕ) (d : Occupied)
    → (r.host_id ≡ h → IsIn c cs → ⊥)
    → occupied_get h c (put_all r cs d) ≡ occupied_get h c d
unfolding put_all occupied_get
put_all_miss r h c [] d off = refl
put_all_miss r h c (x ∷ cs) d off =
    put_all_miss r h c cs (((r.host_id, x), r) ∷ d) (λ own m. off own (inr m))
    ∙ other (Bool-cases ((r.host_id == h) && (x == c)))
  where
    other :
        (((r.host_id == h) && (x == c)) ≡ true) ⊎ (((r.host_id == h) && (x == c)) ≡ false)
        → occupied_get h c (((r.host_id, x), r) ∷ d) ≡ occupied_get h c d
    other (inl e) = absurd (off (ground arith) (inl (ground arith)))
    other (inr e) = rw (e, occupied_get, if◌then◌else◌) refl

-- A reservation of the host that has an instant in common with the slot.
abbrev pub meets : ℕ → ℕ → ℕ → Reservation → Bool
meets delta h c r = (r.host_id == h) && overlaps r.time_range (bounded c (c + delta))

range_cases : (x : TimeRange) → (x ≡ empty) ⊎ ((a b : ℕ) × (x ≡ bounded a b))
range_cases empty = inl refl
range_cases (bounded a b) = inr (a, b, refl)

mark_empty :
    (delta from to : ℕ) (r : Reservation) (d : Occupied)
    → r.time_range ≡ empty
    → mark delta from to r d ≡ d
unfolding mark
mark_empty delta from to r d e = ground (arith, e)

mark_bounded :
    (delta from to a b : ℕ) (r : Reservation) (d : Occupied)
    → r.time_range ≡ bounded a b
    → mark delta from to r d ≡ put_all r (cursors_of delta (first_cursor delta from a) (min b to)) d
unfolding mark
mark_bounded delta from to a b r d e =
    let whole : bounds r.time_range ≡ some (a, b) = ap bounds e in rw (whole, mark) refl

module _ (delta from to h k : ℕ) (pos : 0 < delta) (inside : from + k * delta < to) where
  abbrev start_of : ℕ
  start_of = from + k * delta

  -- A round of the loop sets the slot exactly if the reservation meets it.
  mark-get :
      (r : Reservation) (d : Occupied)
      → occupied_get h start_of (mark delta from to r d)
        ≡ (if meets delta h start_of r then some r else occupied_get h start_of d)
  mark-get r d = elim (range_cases r.time_range) [
    | inl e ↦
        let miss : meets delta h start_of r ≡ false = ground (arith, e) in
        rw (miss, if◌then◌else◌) (ap (occupied_get h start_of) (mark_empty delta from to r d e))
    | inr (a, b, e) ↦
        let at_slot = marked delta from to a b k pos inside in
        elim (Bool-cases (meets delta h start_of r)) [
          | inl y ↦
              rw (y, if◌then◌else◌)
                (ap (occupied_get h start_of) (mark_bounded delta from to a b r d e)
                  ∙ put_all_hit r h start_of _ d (ground (arith, y))
                      (at_slot.1 (ground (arith, y, e), ground (arith, y, e))))
          | inr n ↦
              rw (n, if◌then◌else◌)
                (ap (occupied_get h start_of) (mark_bounded delta from to a b r d e)
                  ∙ put_all_miss r h start_of _ d (λ own m. ground (arith, n, e, own, at_slot.0 m)))
        ]
  ]

  -- The last reservation of the list that meets the slot, if any.
  pub mark_rows_sound :
      (rows : List Reservation) (d : Occupied) (r : Reservation)
      → occupied_get h start_of (mark_rows delta from to rows d) ≡ some r
      → (occupied_get h start_of d ≡ some r) ⊎ (IsIn r rows × (meets delta h start_of r ≡ true))
  unfolding mark_rows
  mark_rows_sound [] d r e = inl e
  mark_rows_sound (x ∷ rows) d r e = elim (mark_rows_sound rows (mark delta from to x d) r e) [
    | inr (m, y) ↦ inr (inr m, y)
    | inl g ↦ elim (Bool-cases (meets delta h start_of x)) [
      | inl y ↦
          let same : x ≡ r = ground (arith, y, g, mark-get x d) in
          inr (inl (sym same), subst (λ z. meets delta h start_of z ≡ true) same y)
      | inr n ↦ inl (ground (arith, n, g, mark-get x d))
    ]
  ]

  pub mark_rows-none :
      (rows : List Reservation) (d : Occupied)
      → occupied_get h start_of (mark_rows delta from to rows d) ≡ none
      → (occupied_get h start_of d ≡ none) × All (λ r. meets delta h start_of r ≡ false) rows
  unfolding mark_rows
  mark_rows-none [] d e = (e, tt)
  mark_rows-none (x ∷ rows) d e =
      let (g, others) = mark_rows-none rows (mark delta from to x d) e in
      let missed : meets delta h start_of x ≡ false = ground (arith, g, mark-get x d) in
      (ground (arith, g, mark-get x d), (missed, others))
