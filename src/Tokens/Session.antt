-- ===== src/Tokens/Session.antt =====
-- broker/app/core/auth_session.py: the browser's session cookie.
use smart_classroom.Prelude.{
  ℕ, ◌+◌, ◌*◌, Bool, ◌&&◌, List, [], ◌∷◌, Option, none, some, ◌==◌, is_none, str_eq, String,
  select_one, if◌then◌else◌,
}
use smart_classroom.Domain.Time.{second}
use smart_classroom.Domain.Rows.{User, Token, session, same_purpose}
use smart_classroom.Domain.Db.{Db, M, pure}
use smart_classroom.Tokens.Store.{is_valid_for, revoke_where, insert_token}

-- `select(User).join(Token, Token.user_id == User.id).where(...)`, the first row of the join.
unfoldable pub join_active_user : List User → (Token → Bool) → List Token → Option User
join_active_user users p [] = none
join_active_user users p (t ∷ tokens) =
    let rest = join_active_user users p tokens in
    if p t
    then elim (select_one (λ u. (u.id == t.user_id) && u.is_active) users) [
      | none ↦ rest
      | some u ↦ some u
    ]
    else rest

-- The WHERE clause of `revoke_session`.
abbrev pub is_session_of_cookie : String → Token → Bool
is_session_of_cookie jti t =
    str_eq t.jti jti && (same_purpose t.purpose session && is_none t.revoked_at)

-- The WHERE clause of `revoke_all_sessions_for_user`.
abbrev pub is_session_of_user : ℕ → Token → Bool
is_session_of_user user_id t =
    (t.user_id == user_id) && (same_purpose t.purpose session && is_none t.revoked_at)

module _ (digest : String → String) where
  unfoldable pub issue_session : ℕ → String → User → ℕ → M Token
  issue_session now raw_cookie user ttl_seconds =
      insert_token (digest raw_cookie) user.id none none session now (now + ttl_seconds * second)

  unfoldable pub verify_session : ℕ → String → Db → Option User
  verify_session now raw_cookie db =
      if str_eq raw_cookie ""
      then none
      else join_active_user db.users (is_valid_for session (digest raw_cookie) now) db.tokens

  unfoldable pub revoke_session : ℕ → String → M ℕ
  revoke_session now raw_cookie =
      if str_eq raw_cookie ""
      then pure 0
      else revoke_where now (is_session_of_cookie (digest raw_cookie))

unfoldable pub revoke_all_sessions_for_user : ℕ → ℕ → M ℕ
revoke_all_sessions_for_user now user_id = revoke_where now (is_session_of_user user_id)
