-- ===== src/Tokens/Agent.antt =====
-- broker/app/services/agent_token_service.py: the token with which a host's agent reports.
use smart_classroom.Prelude.{
  ℕ, ◌+◌, ◌*◌, Bool, ◌&&◌, Option, none, some, str_eq, eq_some, String, select_one, if◌then◌else◌,
}
use smart_classroom.Domain.Time.{day}
use smart_classroom.Domain.Settings.{Settings}
use smart_classroom.Domain.Rows.{User, Host, Token, agent, same_purpose}
use smart_classroom.Domain.Db.{Db, M, pure, ◌>>=◌}
use smart_classroom.Tokens.Store.{is_open, is_valid_for, revoke_where, insert_token}

-- The WHERE clause of `revoke_active_agent_tokens`.
abbrev pub is_agent_of : ℕ → Token → Bool
is_agent_of host_id t = eq_some t.host_id host_id && (same_purpose t.purpose agent && is_open t)

unfoldable pub revoke_active_agent_tokens : ℕ → ℕ → M ℕ
revoke_active_agent_tokens now host_id = revoke_where now (is_agent_of host_id)

module _ (digest : String → String) where
  unfoldable pub issue_agent_token : Settings → ℕ → ℕ → String → Host → User → M (Token × ℕ)
  issue_agent_token settings now_revoke now raw_token host issued_by = do
    revoked_count ← revoke_active_agent_tokens now_revoke host.id
    token ←
        insert_token (digest raw_token) issued_by.id (some host.id) none agent now
          (now + settings.agent_token_ttl_days * day)
    pure (token, revoked_count)

  unfoldable pub verify_agent_token : ℕ → String → Db → Option Token
  verify_agent_token now raw_token db =
      if str_eq raw_token ""
      then none
      else select_one (is_valid_for agent (digest raw_token) now) db.tokens
