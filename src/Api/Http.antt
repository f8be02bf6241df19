-- ===== src/Api/Http.antt =====
-- How an error becomes a status code: the handlers of broker/app/core/errors.py, and the
-- conversions that the reservation router makes itself.
use smart_classroom.Prelude.{ℕ}
use smart_classroom.Domain.Db.{
  Error, invalid_window, quota_exceeded, reservation_conflict, not_owner, reservation_not_found,
  host_not_found, host_not_available, invalid_connect, database_error, http_error, runtime_error,
  unknown_host,
}

-- `http_error` is an HTTPException; what has no handler of its own is answered with 500.
unfoldable pub status_of : Error → ℕ
status_of (invalid_window fault) = 422
status_of (quota_exceeded limit current maximum) = 429
status_of reservation_conflict = 409
status_of not_owner = 500
status_of reservation_not_found = 500
status_of host_not_found = 500
status_of host_not_available = 500
status_of (invalid_connect fault) = 422
status_of (database_error fault) = 500
status_of (http_error code) = code
status_of runtime_error = 500

-- `except HostNotFoundError: raise InvalidReservationWindowError`
abbrev pub from_host_not_found : Error → Error
from_host_not_found (invalid_window fault) = invalid_window fault
from_host_not_found (quota_exceeded limit current maximum) = quota_exceeded limit current maximum
from_host_not_found reservation_conflict = reservation_conflict
from_host_not_found not_owner = not_owner
from_host_not_found reservation_not_found = reservation_not_found
from_host_not_found host_not_found = invalid_window unknown_host
from_host_not_found host_not_available = host_not_available
from_host_not_found (invalid_connect fault) = invalid_connect fault
from_host_not_found (database_error fault) = database_error fault
from_host_not_found (http_error code) = http_error code
from_host_not_found runtime_error = runtime_error

-- The same, and `except HostNotAvailableError: raise HTTPException(409)`.
abbrev pub from_not_available : Error → Error
from_not_available (invalid_window fault) = invalid_window fault
from_not_available (quota_exceeded limit current maximum) = quota_exceeded limit current maximum
from_not_available reservation_conflict = reservation_conflict
from_not_available not_owner = not_owner
from_not_available reservation_not_found = reservation_not_found
from_not_available host_not_found = invalid_window unknown_host
from_not_available host_not_available = http_error 409
from_not_available (invalid_connect fault) = invalid_connect fault
from_not_available (database_error fault) = database_error fault
from_not_available (http_error code) = http_error code
from_not_available runtime_error = runtime_error

-- `except (ReservationNotFoundError, NotOwnerError): raise HTTPException(404)`
abbrev pub hide_reservation : Error → Error
hide_reservation (invalid_window fault) = invalid_window fault
hide_reservation (quota_exceeded limit current maximum) = quota_exceeded limit current maximum
hide_reservation reservation_conflict = reservation_conflict
hide_reservation not_owner = http_error 404
hide_reservation reservation_not_found = http_error 404
hide_reservation host_not_found = host_not_found
hide_reservation host_not_available = host_not_available
hide_reservation (invalid_connect fault) = invalid_connect fault
hide_reservation (database_error fault) = database_error fault
hide_reservation (http_error code) = http_error code
hide_reservation runtime_error = runtime_error
