-- ===== src/Api/Requests.antt =====
-- broker/app/api/schemas/reservation.py: what a request body must be before a service sees it.
use smart_classroom.Prelude.{
  ℕ, Bool, true, false, ◌&&◌, ◌||◌, not, List, [], ◌∷◌, ◌++◌, ◌==◌, leb, if◌then◌else◌,
}
use smart_classroom.Domain.Time.{DateTime, instant, is_naive, minute_of, second_of, microsecond_of}
pub mod Windows

-- The errors of a body, with the field they belong to.
pub data Field : Type 0 where
  host_id starts_at ends_at : Field

pub data SchemaFault : Type 0 where
  not_positive naive unaligned : Field → SchemaFault
  not_in_order : SchemaFault

-- `_ensure_grid`, the error that it raises, if any.
unfoldable pub ensure_grid : DateTime → Field → List SchemaFault
ensure_grid value field_name =
    if is_naive value
    then naive field_name ∷ []
    else if not (minute_of value.wall == 0 || minute_of value.wall == 30)
        || (not (second_of value.wall == 0) || not (microsecond_of value.wall == 0))
    then unaligned field_name ∷ []
    else []

-- `Field(..., gt=0)`; a negative number is refused like 0.
unfoldable pub positive : ℕ → Field → List SchemaFault
positive value field_name = if value == 0 then not_positive field_name ∷ [] else []

pub record ReservationCreate : Type 0 where
  pub host_id : ℕ
  pub starts_at : DateTime
  pub ends_at : DateTime

pub data Validated {ℓ} (A : Type ℓ) : Type ℓ where
  valid : A → Validated A
  invalid : List SchemaFault → Validated A

-- `_validate_order`, which is only called if all fields are right.
unfoldable pub validate_order : ReservationCreate → List SchemaFault → Validated ReservationCreate
validate_order self (fault ∷ faults) = invalid (fault ∷ faults)
validate_order self [] =
    if leb (instant self.ends_at) (instant self.starts_at)
    then invalid (not_in_order ∷ [])
    else valid self

-- `ReservationCreate(...)`
unfoldable pub validate_reservation_create : ReservationCreate → Validated ReservationCreate
validate_reservation_create self = validate_order self (
    positive self.host_id host_id
    ++ (ensure_grid self.starts_at starts_at ++ ensure_grid self.ends_at ends_at))

-- `InstantReservationRequest(...)`
unfoldable pub validate_instant_request : ℕ → Validated ℕ
validate_instant_request value = elim (positive value host_id) [
  | [] ↦ valid value
  | faults ↦ invalid faults
]
