-- ===== src/Api/Reservations.antt =====
-- broker/app/api/v1/reservations.py: the endpoints that change state. Each is one transaction,
-- which is committed at its end; an error leaves the database as it was.
use smart_classroom.Prelude.{
  ℕ, Bool, false, ◌&&◌, Option, none, some, String, ltb, is_none, if◌then◌else◌,
}
use smart_classroom.Domain.Time.{DateTime}
use smart_classroom.Domain.Settings.{Settings}
use smart_classroom.Domain.Rows.{
  User, Host, Reservation, Token, HostStatus, in_use, idle, is_in_use,
}
use smart_classroom.Domain.Audit.{
  token_revoke_previous, token_issue, by_user, by_system, reservation_target, token_target, success,
  revoked_count, issued,
}
use smart_classroom.Domain.Db.{
  M, Error, ok, err, pure, ◌>>=◌, ◌>>◌, gets, or_raise, get_host, write_audit, runtime_error,
}
use smart_classroom.Reservation.Booking.{create_reservation, create_instant_reservation}
use smart_classroom.Reservation.Access.{
  get_reservation, cancel_reservation, get_active_reservation_for_host,
}
use smart_classroom.Tokens.Connect.{issue_connect_token}
use smart_classroom.Hosts.Events.{new_broker}
use smart_classroom.Hosts.Status.{transition_host}
use smart_classroom.Api.Http.{from_host_not_found, from_not_available, hide_reservation}

-- `except` around a service.
abbrev pub rescue : {A : Type 0} → (Error → Error) → M A → M A
rescue f m db = elim (m db) [ ok r ↦ ok r | err e ↦ err (f e) ]

-- `transition_host(..., broker=None)`, inside the endpoint's transaction.
unfoldable pub transition_quietly : Host → HostStatus → String → ℕ → M Bool
transition_quietly host status reason now db =
    let (changed, w) =
      transition_host host status reason false now (record { db = db; events = new_broker }) in
    ok (changed, w.db)

unfoldable pub create_reservation_endpoint :
    Settings → ℕ → ℕ → User → ℕ → DateTime → DateTime → M Reservation
create_reservation_endpoint settings now_window now_quota user host_id starts_at ends_at =
    rescue from_host_not_found
      (create_reservation settings now_window now_quota user host_id starts_at ends_at)

-- What an endpoint answers with beside the raw token: the token's row and the host.
pub record ConnectResponse : Type 0 where
  pub token : Token
  pub host : Host

-- `_issue_connect_token_response`; the audit entry on revoked tokens is written only if there are.
unfoldable pub issue_connect_token_response :
    (String → String)
    → Settings
    → ℕ
    → ℕ
    → String
    → User
    → Reservation
    → Option String
    → M ConnectResponse
issue_connect_token_response digest settings now now_revoke raw_token user reservation client = do
  host ← or_raise (← gets (get_host reservation.host_id)) runtime_error
  issue ← issue_connect_token digest settings now now_revoke raw_token user reservation
  (if ltb 0 issue.1
      then write_audit (record {
        action = token_revoke_previous;
        actor_user_id = some user.id;
        actor_kind = by_system;
        target_kind = some reservation_target;
        target_id = some reservation.id;
        result = success;
        detail = revoked_count issue.1;
        auth_provider = some user.provider;
      })
      else pure tt)
  write_audit (record {
    action = token_issue;
    actor_user_id = some user.id;
    actor_kind = by_user;
    target_kind = some token_target;
    target_id = some issue.0.id;
    result = success;
    detail = issued reservation.id reservation.host_id issue.0.expires_at client;
    auth_provider = some user.provider;
  })
  pure (record { token = issue.0; host = host })

-- The clock as it is read, in order: by the reservation service, its quota check, the token
-- service, its revocation, and the transition.
pub record InstantClock : Type 0 where
  pub booking : ℕ
  pub quota : ℕ
  pub issuing : ℕ
  pub revoking : ℕ
  pub transition : ℕ

-- `if host is not None: await transition_host(...)`
unfoldable pub occupy_host : ℕ → Option Host → M (Unit {0})
occupy_host now none = pure tt
occupy_host now (some host) = do transition_quietly host in_use "instant_use" now; pure tt

unfoldable pub instant_reservation_endpoint :
    (String → String) → Settings → InstantClock → String → User → ℕ → M ConnectResponse
instant_reservation_endpoint digest settings clock raw_token user host_id = do
  reservation ←
      rescue from_not_available
        (create_instant_reservation settings clock.booking clock.quota user host_id)
  response ←
      issue_connect_token_response digest settings clock.issuing clock.revoking raw_token user
        reservation (some "instant_use")
  host ← gets (get_host reservation.host_id)
  occupy_host clock.transition host
  pure response

-- The host of a canceled reservation goes back to IDLE if it was IN_USE and no other reservation
-- is running on it.
unfoldable pub release_host : ℕ → Option Host → M (Unit {0})
release_host now none = pure tt
release_host now (some host) = do
  active ← gets (get_active_reservation_for_host host.id now)
  (if is_in_use host.status && is_none active
      then transition_quietly host idle "reservation_canceled" now >> pure tt
      else pure tt)

unfoldable pub cancel_reservation_endpoint : ℕ → ℕ → User → ℕ → M (Unit {0})
cancel_reservation_endpoint now_cancel now user reservation_id = do
  reservation ← rescue hide_reservation (cancel_reservation now_cancel user reservation_id)
  release_host now (← gets (get_host reservation.host_id))

unfoldable pub connect_token_endpoint :
    (String → String) → Settings → ℕ → ℕ → String → User → ℕ → Option String → M ConnectResponse
connect_token_endpoint digest settings now now_revoke raw_token user reservation_id client = do
  reservation ← rescue hide_reservation (get_reservation user reservation_id)
  issue_connect_token_response digest settings now now_revoke raw_token user reservation client
