-- ===== src/Reservation/Access.antt =====
-- Who may see and cancel a reservation: `_assert_can_access`, `cancel_reservation`,
-- `get_reservation`, `list_reservations`, `get_active_reservation_for_host` and
-- `reservation_bounds` of broker/app/services/reservation.py.
use smart_classroom.Prelude.{
  ℕ, Bool, true, false, ◌&&◌, ◌||◌, not, List, [], ◌∷◌, Option, none, some, leb, ◌==◌,
  if◌then◌else◌, select_where, select_one, update_where,
}
use smart_classroom.Domain.Range.{
  TimeRange, empty, bounded, covers, upper_after, lower_before, bounds,
}
use smart_classroom.Domain.Rows.{
  User, Reservation, canceled, is_admin, is_active_status, is_canceled, is_confirmed,
}
use smart_classroom.Domain.Audit.{
  reservation_cancel, by_user, reservation_target, success, canceled_by_admin,
}
use smart_classroom.Domain.Db.{
  Db, M, pure, ◌>>=◌, ◌>>◌, raise_if, gets, modify, or_raise, get_reservation_row, write_audit,
  not_owner, reservation_not_found, runtime_error,
}

abbrev pub can_access : Reservation → User → Bool
can_access r user = is_admin user.role || (r.user_id == user.id)

unfoldable pub assert_can_access : Reservation → User → M (Unit {0})
assert_can_access r user = do raise_if (not (can_access r user)) not_owner

unfoldable pub get_reservation : User → ℕ → M Reservation
get_reservation user reservation_id = do
  r ← or_raise (← gets (get_reservation_row reservation_id)) reservation_not_found
  assert_can_access r user
  pure r

-- `values(status="CANCELED", canceled_at=now)`
abbrev pub set_canceled : ℕ → Reservation → Reservation
set_canceled now r = record r { status = canceled; canceled_at = some now }

-- The UPDATE and its audit entry, for a reservation that is not canceled yet.
unfoldable pub soft_delete : ℕ → User → Reservation → M Reservation
soft_delete now user r = do
  modify (λ db. record db {
    reservations = update_where (λ x. x.id == r.id) (set_canceled now) db.reservations;
  })
  write_audit (record {
    action = reservation_cancel;
    actor_user_id = some user.id;
    actor_kind = by_user;
    target_kind = some reservation_target;
    target_id = some r.id;
    result = success;
    detail = canceled_by_admin (is_admin user.role);
    auth_provider = some user.provider;
  })
  pure (set_canceled now r)

unfoldable pub cancel_reservation : ℕ → User → ℕ → M Reservation
cancel_reservation now user reservation_id = do
  r ← or_raise (← gets (get_reservation_row reservation_id)) reservation_not_found
  assert_can_access r user
  if is_canceled r.status then pure r else soft_delete now user r

-- An optional clause of a WHERE.
abbrev pub unless_none : {A : Type 0} → Option A → (A → Bool) → Bool
unless_none none p = true
unless_none (some a) p = p a

-- The WHERE clauses of `list_reservations`: a viewer who is no admin sees only their own rows,
-- whatever `user_id_filter` says.
abbrev pub is_listed : User → Option ℕ → Option ℕ → Option ℕ → Option ℕ → Reservation → Bool
is_listed viewer from to host_id user_id_filter r =
    is_active_status r.status
    && (if is_admin viewer.role
        then unless_none user_id_filter (λ u. r.user_id == u)
        else r.user_id == viewer.id)
    && unless_none host_id (λ h. r.host_id == h)
    && unless_none from (λ t. upper_after r.time_range t)
    && unless_none to (λ t. lower_before r.time_range t)

-- `ORDER BY lower(time_range) ASC`: NULL comes last.
abbrev pub starts_by : TimeRange → TimeRange → Bool
starts_by empty empty = true
starts_by empty (bounded c d) = false
starts_by (bounded a b) empty = true
starts_by (bounded a b) (bounded c d) = leb a c

unfoldable pub insert_by_start : Reservation → List Reservation → List Reservation
insert_by_start r [] = r ∷ []
insert_by_start r (x ∷ xs) =
    if starts_by r.time_range x.time_range then r ∷ x ∷ xs else x ∷ insert_by_start r xs

unfoldable pub order_by_start : List Reservation → List Reservation
order_by_start [] = []
order_by_start (r ∷ rows) = insert_by_start r (order_by_start rows)

unfoldable pub list_reservations :
    User → Option ℕ → Option ℕ → Option ℕ → Option ℕ → Db → List Reservation
list_reservations viewer from to host_id user_id_filter db =
    order_by_start (select_where (is_listed viewer from to host_id user_id_filter) db.reservations)

-- `get_active_reservation_for_host`
unfoldable pub get_active_reservation_for_host : ℕ → ℕ → Db → Option Reservation
get_active_reservation_for_host host_id at_time db =
    select_one
      (λ r. (r.host_id == host_id) && (is_confirmed r.status && covers r.time_range at_time))
      db.reservations

-- `reservation_bounds`
unfoldable pub reservation_bounds : Reservation → M (ℕ × ℕ)
reservation_bounds r = do or_raise (bounds r.time_range) runtime_error
