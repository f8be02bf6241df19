-- ===== src/Tokens/Connect.antt =====
-- broker/app/services/token_service.py: the token that opens one reservation. `raw_token` is
-- what `secrets.token_urlsafe(32)` returned, and the clock readings are arguments.
use smart_classroom.Prelude.{
  ℕ, ◌+◌, ◌*◌, Bool, ◌&&◌, not, Option, none, some, ◌==◌, ltb, leb, str_eq, eq_some, String,
  select_one, update_where, count_where, if◌then◌else◌,
}
use smart_classroom.Domain.Time.{second}
use smart_classroom.Domain.Settings.{Settings}
use smart_classroom.Domain.Rows.{User, Reservation, Token, connect, same_purpose, is_confirmed}
use smart_classroom.Domain.Db.{
  Db, M, pure, ◌>>=◌, ◌>>◌, raise_if, gets, modify, invalid_connect, reservation_not_active,
  too_early, expired_window,
}
use smart_classroom.Reservation.Access.{assert_can_access, reservation_bounds}
use smart_classroom.Tokens.Store.{is_open, is_valid_for, set_consumed, revoke_where, insert_token}

-- The WHERE clause of `revoke_active_tokens_for_reservation`.
abbrev pub is_active_for : ℕ → Token → Bool
is_active_for reservation_id t =
    eq_some t.reservation_id reservation_id && (same_purpose t.purpose connect && is_open t)

unfoldable pub revoke_active_tokens_for_reservation : ℕ → ℕ → M ℕ
revoke_active_tokens_for_reservation now reservation_id =
    revoke_where now (is_active_for reservation_id)

module _ (digest : String → String) where
  -- The result is the token's row and how many earlier tokens were revoked; the raw token is the
  -- caller's own.
  unfoldable pub issue_connect_token :
      Settings → ℕ → ℕ → String → User → Reservation → M (Token × ℕ)
  issue_connect_token settings now now_revoke raw_token user reservation = do
    assert_can_access reservation user
    raise_if (not (is_confirmed reservation.status)) (invalid_connect reservation_not_active)
    window ← reservation_bounds reservation
    raise_if (ltb (now + settings.connect_token_grace_seconds * second) window.0)
        (invalid_connect too_early)
    raise_if (leb window.1 now) (invalid_connect expired_window)
    revoked_count ← revoke_active_tokens_for_reservation now_revoke reservation.id
    token ←
        insert_token (digest raw_token) user.id (some reservation.host_id) (some reservation.id)
          connect now window.1
    pure (token, revoked_count)

  unfoldable pub verify_connect_token : ℕ → String → Db → Option Token
  verify_connect_token now raw_token db =
      if str_eq raw_token ""
      then none
      else select_one (is_valid_for connect (digest raw_token) now) db.tokens

-- `mark_consumed`: true if this UPDATE changed exactly one row.
unfoldable pub mark_consumed : ℕ → Token → M Bool
mark_consumed now token = do
  let due = λ (t : Token). (t.id == token.id) && is_open t
  n ← gets (λ db. count_where due db.tokens)
  modify (λ db. record db { tokens = update_where due (set_consumed now) db.tokens })
  pure (n == 1)
