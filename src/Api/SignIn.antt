-- ===== src/Api/SignIn.antt =====
-- Signing in from the request to the session, and the session middleware: `mock_callback` of
-- broker/app/api/v1/auth.py, `AuthSessionMiddleware` of broker/app/core/middleware.py and
-- broker/app/core/auth_responses.py.
use Prim.Native.String.{◌++◌}
use smart_classroom.Prelude.{
  ℕ, ◌+◌, ◌*◌, ◌<◌, ◌≡◌, ◌≢◌, refl, sym, subst, ◌∙◌, eq_iff, ap, inl, inr, ltb, Bool, true, false,
  ◌&&◌, not, List, ◌∷◌, Option, none, some, arith, String, str_eq, select_one, ◌==◌, if◌then◌else◌,
  Text, codes, Bool-cases, Option-cases,
}
use smart_classroom.Domain.Time.{second}
use smart_classroom.Domain.Settings.{Settings}
use smart_classroom.Domain.Rows.{User, Token, session}
use smart_classroom.Domain.Audit as Audit
use smart_classroom.Domain.Audit.{AuditEntry, login_failure, login_success, by_user, failure}
use smart_classroom.Domain.Db.{
  Db, M, ok, err, pure, ◌>>=◌, ◌>>◌, raise_if, or_raise, write_audit, runtime_error, http_error,
  bind-ok, Result-cases,
}
use smart_classroom.Tokens.Session.{verify_session, issue_session, revoke_session}
use smart_classroom.Tokens.Issuing.{Inserted, insert_token-Inserted}
use smart_classroom.Tokens.Logout.{issue_session-verify, revoke_session-verify}
use smart_classroom.Api.Auth.{
  Access, granted, denied, unauthenticated, get_current_user, require_admin, is_production, is_mock,
}
use smart_classroom.Api.Mock.{
  CallbackRequest, CallbackFault, bad_json, no_object, missing_fields, bad_role, Verified,
  identified, refused, verify_callback, get_active_provider, build_provider, name_of, starts_with,
  contains,
}
use smart_classroom.Api.Login.{UserIdentity, upsert_user, complete_login, logout}
pub mod Sessions

abbrev pub reason_of : CallbackFault → String
reason_of bad_json = "mock callback JSON 파싱 실패"
reason_of no_object = "mock callback 본문은 JSON object여야 합니다"
reason_of missing_fields = "external_id, display_name은 둘 다 필수입니다"
reason_of (bad_role role) = "role 값이 잘못되었습니다: " ++ role

-- The answer of the callback: the session of a user, or 400 after the failure is committed.
pub data SignIn : Type 0 where
  signed_in : User → Token → SignIn
  bad_request : CallbackFault → SignIn

abbrev pub failed_login : CallbackFault → AuditEntry
failed_login fault = record {
  action = login_failure;
  actor_user_id = none;
  actor_kind = by_user;
  target_kind = none;
  target_id = none;
  result = failure;
  detail = Audit.refused (reason_of fault);
  auth_provider = some "mock";
}

module _ (digest : String → String) where
  unfoldable pub answer_callback : Settings → ℕ → String → Verified UserIdentity → M SignIn
  answer_callback settings now raw_cookie (refused fault) = do
    write_audit (failed_login fault)
    pure (bad_request fault)
  answer_callback settings now raw_cookie (identified i) = do
    done ← complete_login digest settings now raw_cookie i
    pure (signed_in done.0 done.1)

  unfoldable pub mock_callback : Settings → ℕ → String → CallbackRequest → M SignIn
  mock_callback settings now raw_cookie request = do
    raise_if (is_production settings.app_env) (http_error 404)
    provider ← or_raise (get_active_provider settings) runtime_error
    raise_if (not (is_mock (name_of provider))) (http_error 400)
    answer_callback settings now raw_cookie (verify_callback request)

  -- `AuthSessionMiddleware`: `request.state.user`, from the value of the session cookie.
  unfoldable pub session_user : ℕ → Option String → Db → Option User
  session_user now none db = none
  session_user now (some raw) db = if str_eq raw "" then none else verify_session digest now raw db

-- `_wants_html` of auth_responses.py, from the path and the Accept header.
unfoldable pub wants_html : Text → Option Text → Bool
wants_html path accept =
    if starts_with (codes "/api/") path
    then false
    else elim accept [ none ↦ false | some a ↦ contains (codes "text/html") a ]

pub data Unauthenticated : Type 0 where
  redirect : (location : Text) → Unauthenticated
  login_required : (login_url : Text) → Unauthenticated

unfoldable pub unauthenticated_response : Text → Option Text → Text → Unauthenticated
unauthenticated_response path accept login_url =
    if wants_html path accept then redirect login_url else login_required login_url
