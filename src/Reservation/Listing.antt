-- ===== src/Reservation/Listing.antt =====
-- `list_reservations`: which rows it returns, in which order, and to whom.
use smart_classroom.Prelude.{
  ℕ, ◌≤◌, ◌≡◌, ◌↔◌, ◌⊎◌, inl, inr, true, false, List, [], ◌∷◌, Option, arith, All, All-map, IsIn,
  Bool-cases, select_where_sound, select_where_complete, if◌then◌else◌,
}
use smart_classroom.Domain.Range.{TimeRange, empty, bounded}
use smart_classroom.Domain.Rows.{User, Reservation, user}
use smart_classroom.Domain.Db.{Db}
use smart_classroom.Reservation.Access.{
  is_listed, list_reservations, order_by_start, insert_by_start, starts_by,
}

insert_sound :
    (a r : Reservation) (xs : List Reservation)
    → IsIn a (insert_by_start r xs)
    → (a ≡ r) ⊎ IsIn a xs
unfolding insert_by_start
insert_sound a r [] h = h
insert_sound a r (x ∷ xs) h = elim (Bool-cases (starts_by r.time_range x.time_range)) [
  | inl e ↦ rw (e, if◌then◌else◌) at h
  | inr e ↦ deeper (insert_sound a r xs) (rw (e, if◌then◌else◌) at h)
]
  where
    deeper :
        (IsIn a (insert_by_start r xs) → (a ≡ r) ⊎ IsIn a xs)
        → (a ≡ x) ⊎ IsIn a (insert_by_start r xs)
        → (a ≡ r) ⊎ IsIn a (x ∷ xs)
    deeper ih (inl q) = inr (inl q)
    deeper ih (inr q) = elim (ih q) [ inl z ↦ inl z | inr z ↦ inr (inr z) ]

insert_complete :
    (a r : Reservation) (xs : List Reservation)
    → (a ≡ r) ⊎ IsIn a xs
    → IsIn a (insert_by_start r xs)
unfolding insert_by_start
insert_complete a r [] h = h
insert_complete a r (x ∷ xs) h = elim (Bool-cases (starts_by r.time_range x.time_range)) [
  | inl e ↦ rw e h
  | inr e ↦ rw e (deeper (insert_complete a r xs) h)
]
  where
    deeper :
        ((a ≡ r) ⊎ IsIn a xs → IsIn a (insert_by_start r xs))
        → (a ≡ r) ⊎ IsIn a (x ∷ xs)
        → (a ≡ x) ⊎ IsIn a (insert_by_start r xs)
    deeper ih (inl q) = inr (ih (inl q))
    deeper ih (inr (inl q)) = inl q
    deeper ih (inr (inr q)) = inr (ih (inr q))

order_sound : (a : Reservation) (xs : List Reservation) → IsIn a (order_by_start xs) → IsIn a xs
unfolding order_by_start
order_sound a [] h = h
order_sound a (x ∷ xs) h = elim (insert_sound a x (order_by_start xs) h) [
  | inl e ↦ inl e
  | inr m ↦ inr (order_sound a xs m)
]

order_complete : (a : Reservation) (xs : List Reservation) → IsIn a xs → IsIn a (order_by_start xs)
unfolding order_by_start
order_complete a [] h = h
order_complete a (x ∷ xs) (inl e) = insert_complete a x _ (inl e)
order_complete a (x ∷ xs) (inr m) = insert_complete a x _ (inr (order_complete a xs m))

-- Each row starts no later than those after it; an empty range counts as the latest.
abbrev pub StartsBy : TimeRange → TimeRange → Type 0
StartsBy empty empty = Unit
StartsBy empty (bounded c d) = ⊥
StartsBy (bounded a b) empty = Unit
StartsBy (bounded a b) (bounded c d) = a ≤ c

abbrev pub IsOrdered : List Reservation → Type 0
IsOrdered [] = Unit
IsOrdered (r ∷ rows) = All (λ s. StartsBy r.time_range s.time_range) rows × IsOrdered rows

starts_by-StartsBy : (x y : TimeRange) → starts_by x y ≡ true → StartsBy x y
starts_by-StartsBy empty empty h = tt
starts_by-StartsBy empty (bounded c d) h = cc
starts_by-StartsBy (bounded a b) empty h = tt
starts_by-StartsBy (bounded a b) (bounded c d) h = ground arith

not-starts_by : (x y : TimeRange) → starts_by x y ≡ false → StartsBy y x
not-starts_by empty empty h = tt
not-starts_by empty (bounded c d) h = tt
not-starts_by (bounded a b) empty h = cc
not-starts_by (bounded a b) (bounded c d) h = ground arith

StartsBy-trans : (x y z : TimeRange) → StartsBy x y → StartsBy y z → StartsBy x z
StartsBy-trans empty empty z h k = k
StartsBy-trans empty (bounded c d) z h k = absurd h
StartsBy-trans (bounded a b) empty empty h k = tt
StartsBy-trans (bounded a b) empty (bounded c d) h k = absurd k
StartsBy-trans (bounded a b) (bounded c d) empty h k = tt
StartsBy-trans (bounded a b) (bounded c d) (bounded e f) h k = omega arith

All-insert {κ} :
    (P : Reservation → Type κ) (r : Reservation) (xs : List Reservation)
    → P r
    → All P xs
    → All P (insert_by_start r xs)
unfolding insert_by_start
All-insert P r [] h k = (h, tt)
All-insert P r (x ∷ xs) h k = elim (Bool-cases (starts_by r.time_range x.time_range)) [
  | inl e ↦ rw e (h, k)
  | inr e ↦ rw e (k.0, All-insert P r xs h k.1)
]

insert-IsOrdered :
    (r : Reservation) (xs : List Reservation) → IsOrdered xs → IsOrdered (insert_by_start r xs)
unfolding insert_by_start
insert-IsOrdered r [] h = (tt, tt)
insert-IsOrdered r (x ∷ xs) h = elim (Bool-cases (starts_by r.time_range x.time_range)) [
  | inl e ↦
      let first = starts_by-StartsBy r.time_range x.time_range e in
      rw e (
        (
          first,
          All-map _ _ (λ s. StartsBy-trans r.time_range x.time_range s.time_range first) xs h.0,
        ),
        h,
      )
  | inr e ↦
      rw e (
        All-insert _ r xs (not-starts_by r.time_range x.time_range e) h.0,
        insert-IsOrdered r xs h.1,
      )
]

order-IsOrdered : (xs : List Reservation) → IsOrdered (order_by_start xs)
unfolding order_by_start
order-IsOrdered [] = tt
order-IsOrdered (x ∷ xs) = insert-IsOrdered x (order_by_start xs) (order-IsOrdered xs)

module _ (viewer : User) (from to host_id user_id_filter : Option ℕ) (db : Db) where
  -- A row is returned exactly if it is in the table and passes the filters.
  pub list_reservations-IsIn :
      (r : Reservation)
      → IsIn r (list_reservations viewer from to host_id user_id_filter db)
        ↔ (IsIn r db.reservations × (is_listed viewer from to host_id user_id_filter r ≡ true))
  unfolding list_reservations
  list_reservations-IsIn r = (
    λ h. select_where_sound _ r db.reservations (order_sound r _ h),
    λ h. order_complete r _ (select_where_complete _ r db.reservations h.0 h.1),
  )

  -- The answer is in the order of starting times.
  pub list_reservations-IsOrdered :
      IsOrdered (list_reservations viewer from to host_id user_id_filter db)
  unfolding list_reservations
  list_reservations-IsOrdered = order-IsOrdered _

  listed-own :
      (r : Reservation)
      → viewer.role ≡ user
      → is_listed viewer from to host_id user_id_filter r ≡ true
      → r.user_id ≡ viewer.id
  listed-own r p h = ground arith

  -- A viewer who is no admin gets no row of another user, whatever filter the query names.
  pub list_reservations-private :
      (r : Reservation)
      → viewer.role ≡ user
      → IsIn r (list_reservations viewer from to host_id user_id_filter db)
      → r.user_id ≡ viewer.id
  list_reservations-private r p h = listed-own r p ((list_reservations-IsIn r).0 h).1
