-- ===== src/Api/Tokens.antt =====
-- broker/app/api/v1/tokens.py: the verification that Sunshine asks for.
use smart_classroom.Prelude.{ℕ, Bool, true, false, Option, none, some, String, if◌then◌else◌}
use smart_classroom.Domain.Rows.{Token}
use smart_classroom.Domain.Audit.{
  token_verify, token_verify_failure, token_consume, by_system, token_target, success, refused,
  verified, Action, Detail, AuditEntry,
}
use smart_classroom.Domain.Db.{M, pure, ◌>>=◌, ◌>>◌, gets, write_audit}
use smart_classroom.Tokens.Connect.{verify_connect_token, mark_consumed}

-- `TokenVerifyResponse`: valid with the token's data, or not, with a reason.
pub data VerifyResponse : Type 0 where
  valid_token : (user_id : ℕ) (host_id reservation_id : Option ℕ) (expires_at : ℕ) → VerifyResponse
  invalid_or_expired already_consumed : VerifyResponse

abbrev pub accept : Token → VerifyResponse
accept t = valid_token t.user_id t.host_id t.reservation_id t.expires_at

abbrev pub token_entry : Action → Option ℕ → Detail → AuditEntry
token_entry action target detail = record {
  action = action;
  actor_user_id = none;
  actor_kind = by_system;
  target_kind = some token_target;
  target_id = target;
  result = success;
  detail = detail;
  auth_provider = none;
}

-- The branch of a token that was found. `consume` is the request's flag.
unfoldable pub answer_token : ℕ → Bool → Token → M VerifyResponse
answer_token now true token = do
  consumed ← mark_consumed now token
  (if consumed
      then write_audit
          (token_entry token_consume (some token.id) (verified token.reservation_id token.user_id))
        >> pure (accept token)
      else write_audit
          (token_entry token_verify_failure (some token.id) (refused "already_consumed"))
        >> pure already_consumed)
answer_token now false token = do
  write_audit
      (token_entry token_verify (some token.id) (verified token.reservation_id token.user_id))
  pure (accept token)

unfoldable pub answer_found : ℕ → Bool → Option Token → M VerifyResponse
answer_found now consume none = do
  write_audit (token_entry token_verify_failure none (refused "invalid_or_expired"))
  pure invalid_or_expired
answer_found now consume (some token) = answer_token now consume token

unfoldable pub verify_token_endpoint : (String → String) → ℕ → ℕ → String → Bool → M VerifyResponse
verify_token_endpoint digest now now_consume raw_token consume = do
  token ← gets (verify_connect_token digest now raw_token)
  answer_found now_consume consume token
