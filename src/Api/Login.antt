-- ===== src/Api/Login.antt =====
-- Signing in and out: broker/app/services/user_upsert.py, and the callback and logout of
-- broker/app/api/v1/auth.py from the provider's answer on.
use smart_classroom.Prelude.{
  ℕ, suc, Bool, true, ◌&&◌, ◌∷◌, Option, none, some, String, str_eq, ltb, select_one, update_where,
  if◌then◌else◌,
}
use smart_classroom.Domain.Settings.{Settings}
use smart_classroom.Domain.Rows.{User, Role, Token}
use smart_classroom.Domain.Audit.{
  login_success, logout as logout_action, by_user, token_target, success, no_detail,
}
use smart_classroom.Domain.Db.{
  M, pure, ◌>>=◌, ◌>>◌, gets, modify, or_raise, get_user, write_audit, runtime_error,
}
use smart_classroom.Tokens.Session.{issue_session, revoke_session}

-- `UserIdentity`
pub record UserIdentity : Type 0 where
  pub external_id : String
  pub provider : String
  pub display_name : String
  pub email : Option String
  pub role : Role

-- The key of `uq_users_provider_external`.
abbrev pub is_account : UserIdentity → User → Bool
is_account i u = str_eq u.provider i.provider && str_eq u.external_id i.external_id

-- `set_={"display_name": ..., "email": ...}`: role and is_active stay.
abbrev pub refresh : UserIdentity → User → User
refresh i u = record u { display_name = i.display_name; email = i.email }

abbrev pub user_from : ℕ → UserIdentity → User
user_from new_id i = record {
  id = new_id;
  external_id = i.external_id;
  provider = i.provider;
  display_name = i.display_name;
  email = i.email;
  role = i.role;
  is_active = true;
}

-- INSERT ... ON CONFLICT DO UPDATE ... RETURNING id
unfoldable pub upsert_row : UserIdentity → Option User → M ℕ
upsert_row i none = do
  new_id ← gets (λ db. db.next_user_id)
  modify (λ db. record db { users = user_from new_id i ∷ db.users; next_user_id = suc new_id })
  pure new_id
upsert_row i (some u) = do
  modify (λ db. record db { users = update_where (is_account i) (refresh i) db.users })
  pure u.id

unfoldable pub upsert_user : UserIdentity → M User
upsert_user i = do
  new_id ← upsert_row i (← gets (λ db. select_one (is_account i) db.users))
  or_raise (← gets (get_user new_id)) runtime_error

-- `mock_callback` after the provider has verified the identity.
unfoldable pub complete_login :
    (String → String) → Settings → ℕ → String → UserIdentity → M (User × Token)
complete_login digest settings now raw_cookie i = do
  user ← upsert_user i
  token ← issue_session digest now raw_cookie user settings.session_ttl_seconds
  write_audit (record {
    action = login_success;
    actor_user_id = some user.id;
    actor_kind = by_user;
    target_kind = some token_target;
    target_id = some token.id;
    result = success;
    detail = no_detail;
    auth_provider = some i.provider;
  })
  pure (user, token)

-- `logout`: the entry is written only if a session was revoked.
unfoldable pub logout : (String → String) → ℕ → String → Option ℕ → String → M (Unit {0})
logout digest now raw_cookie user_id provider = do
  revoked ← revoke_session digest now raw_cookie
  (if ltb 0 revoked
      then write_audit (record {
        action = logout_action;
        actor_user_id = user_id;
        actor_kind = by_user;
        target_kind = none;
        target_id = none;
        result = success;
        detail = no_detail;
        auth_provider = some provider;
      })
      else pure tt)
