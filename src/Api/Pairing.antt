-- ===== src/Api/Pairing.antt =====
-- broker/app/api/v1/pairing.py: the PIN relay, authorised by a connect token. A failure is logged
-- and committed before the error is raised, so it is an answer here.
use smart_classroom.Prelude.{ℕ, Option, none, some, String}
use smart_classroom.Domain.Settings.{Settings}
use smart_classroom.Domain.Rows.{Host, Token}
use smart_classroom.Domain.Audit.{
  pairing_succeeded, pairing_failed, by_user, host_target, success, failure,
  paired as paired_detail, pairing_refused,
}
use smart_classroom.Domain.Db.{M, pure, ◌>>=◌, ◌>>◌, gets, get_host, write_audit}
use smart_classroom.Tokens.Connect.{verify_connect_token}
use smart_classroom.Pairing.Push.{
  Reply, Reason, missing_ip_or_token, unreachable, sunshine_unauthorized, sunshine_rejected,
  sunshine_server_error, Outcome, paired, host_not_pairable, pairing_unreachable, pairing_rejected,
  push_pin,
}

pub data PairingResponse : Type 0 where
  paired_pending : Host → PairingResponse
  invalid_connect_token host_missing : PairingResponse
  pairing_error : (status_code : ℕ) → Reason → PairingResponse

abbrev pub reason_text : Reason → String
reason_text missing_ip_or_token = "missing_ip_or_token"
reason_text unreachable = "unreachable"
reason_text sunshine_unauthorized = "sunshine_unauthorized"
reason_text sunshine_rejected = "sunshine_rejected"
reason_text sunshine_server_error = "sunshine_server_error"

-- The audit entry of a failure, and the answer with the code of `_status_for`.
unfoldable pub fail_pairing : ℕ → Reason → ℕ → Token → Host → ℕ → M PairingResponse
fail_pairing status_code reason attempts token host reservation_id = do
  write_audit (record {
    action = pairing_failed;
    actor_user_id = some token.user_id;
    actor_kind = by_user;
    target_kind = some host_target;
    target_id = some host.id;
    result = failure;
    detail = pairing_refused reservation_id (reason_text reason) attempts;
    auth_provider = none;
  })
  pure (pairing_error status_code reason)

unfoldable pub conclude : Outcome → Token → Host → ℕ → M PairingResponse
conclude (paired attempts) token host reservation_id = do
  write_audit (record {
    action = pairing_succeeded;
    actor_user_id = some token.user_id;
    actor_kind = by_user;
    target_kind = some host_target;
    target_id = some host.id;
    result = success;
    detail = paired_detail reservation_id attempts;
    auth_provider = none;
  })
  pure (paired_pending host)
conclude host_not_pairable token host reservation_id =
    fail_pairing 422 missing_ip_or_token 0 token host reservation_id
conclude (pairing_unreachable reason attempts) token host reservation_id =
    fail_pairing 502 reason attempts token host reservation_id
conclude (pairing_rejected reason attempts) token host reservation_id =
    fail_pairing 409 reason attempts token host reservation_id

unfoldable pub pair_host : Settings → (ℕ → Reply) → Token → ℕ → Option Host → M PairingResponse
pair_host settings replies token reservation_id none = pure host_missing
pair_host settings replies token reservation_id (some host) =
    conclude (push_pin settings host replies) token host reservation_id

-- `db.get(Host, token.host_id)`
abbrev pub find_host : Option ℕ → M (Option Host)
find_host none = pure none
find_host (some host_id) = gets (get_host host_id)

abbrev pub for_reservation : Settings → (ℕ → Reply) → Token → Option ℕ → M PairingResponse
for_reservation settings replies token none = pure invalid_connect_token
for_reservation settings replies token (some reservation_id) =
    find_host token.host_id >>= pair_host settings replies token reservation_id

abbrev pub for_token : Settings → (ℕ → Reply) → Option Token → M PairingResponse
for_token settings replies none = pure invalid_connect_token
for_token settings replies (some token) =
    for_reservation settings replies token token.reservation_id

unfoldable pub pairing_endpoint :
    (String → String) → Settings → ℕ → String → (ℕ → Reply) → M PairingResponse
pairing_endpoint digest settings now raw_token replies = do
  token ← gets (verify_connect_token digest now raw_token)
  for_token settings replies token
