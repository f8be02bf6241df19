-- ===== src/Tokens/Rotation.antt =====
-- Agent tokens: a new one for a host ends those before it.
use smart_classroom.Prelude.{
  ℕ, ◌+◌, ◌*◌, ◌<◌, ◌≡◌, ◌≢◌, subst, ap, inl, inr, false, ◌∷◌, none, some, arith, eq_iff, String,
  select_one, select_one-holds, update_where, All-lookup, IsIn,
}
use smart_classroom.Domain.Time.{day}
use smart_classroom.Domain.Settings.{Settings}
use smart_classroom.Domain.Rows.{User, Host, Token, agent}
use smart_classroom.Domain.Db.{Db, ok}
use smart_classroom.Tokens.Store.{is_valid_for, set_revoked, revoke_where, insert_token}
use smart_classroom.Tokens.Agent.{
  is_agent_of, issue_agent_token, verify_agent_token, revoke_active_agent_tokens,
}
use smart_classroom.Tokens.Issuing.{
  Inserted, insert_token-Inserted, Inserted-valid, revoked_db, update-none_left,
}

revoked-not_agent : (i now : ℕ) (t : Token) → is_agent_of i (set_revoked now t) ≡ false
revoked-not_agent i now t = ground arith

module _ (digest : String → String) (settings : Settings) (now_revoke now : ℕ) (raw : String)
    (host : Host) (issuer : User) (db db' : Db) (t : Token) (n : ℕ)
    (issued : issue_agent_token digest settings now_revoke now raw host issuer db
      ≡ ok ((t, n), db')) where
  -- What the rotation has done to the table.
  pub rotation-Inserted :
      Inserted
        (revoked_db now_revoke (is_agent_of host.id) db)
        (digest raw)
        issuer.id
        (some host.id)
        none
        agent
        now
        (now + settings.agent_token_ttl_days * day)
        t
        db'
  unfolding issue_agent_token revoke_active_agent_tokens revoke_where
  rotation-Inserted =
      let ins : insert_token (digest raw) issuer.id (some host.id) none agent now
            (now + settings.agent_token_ttl_days * day)
            (revoked_db now_revoke (is_agent_of host.id) db)
          ≡ ok (t, db') =
        ground arith in
      insert_token-Inserted (digest raw) issuer.id (some host.id) none agent now _ _ ins

  rows : db'.tokens ≡ t ∷ update_where (is_agent_of host.id) (set_revoked now_revoke) db.tokens
  rows = ap (λ (d : Db). d.tokens) rotation-Inserted.rows

  -- After a rotation the new raw value, if it is not empty, verifies for the days of its lifetime.
  pub agent-verify :
      (later : ℕ)
      → raw ≢ ""
      → later < now + settings.agent_token_ttl_days * day
      → verify_agent_token digest later raw db' ≡ some t
  unfolding verify_agent_token
  agent-verify later filled due =
      let found =
        Inserted-valid _ db' (digest raw) issuer.id (some host.id) none agent now _ later t
          rotation-Inserted due in
      ground (arith, found, eq_iff raw "")

  -- After a rotation, any raw value that verifies to an agent token of the host verifies to the new
  -- one.
  pub rotation-ends_earlier :
      (later : ℕ) (other : String) (x : Token)
      → verify_agent_token digest later other db' ≡ some x
      → x.host_id ≡ some host.id
      → x ≡ t
  unfolding verify_agent_token
  rotation-ends_earlier later other x v same =
      let hit : select_one (is_valid_for agent (digest other) later) db'.tokens ≡ some x =
        ground arith in
      let valid = select_one-holds (is_valid_for agent (digest other) later) db'.tokens hit in
      elim (subst (IsIn x) rows valid.0) [
        | inl e ↦ e
        | inr m ↦
            let off =
              All-lookup (λ y. is_agent_of host.id y ≡ false) _
                (update-none_left (is_agent_of host.id) now_revoke
                  (revoked-not_agent host.id now_revoke) db.tokens)
                m in
            absurd (ground arith)
      ]
