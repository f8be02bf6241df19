-- ===== src/Tokens/Replay.antt =====
-- A connect token cannot be replayed: a new one ends those before it, and one is consumed once.
use smart_classroom.Prelude.{
  ℕ, ◌<◌, ◌≡◌, ◌≢◌, subst, ap, inl, inr, false, ◌∷◌, some, arith, eq_iff, String, select_one,
  select_one-holds, update_where, count_where, count_where-none, All, All-lookup, IsIn,
}
use smart_classroom.Domain.Settings.{Settings}
use smart_classroom.Domain.Rows.{User, Reservation, Token, connect}
use smart_classroom.Domain.Db.{Db, ok}
use smart_classroom.Tokens.Store.{is_valid_for, set_revoked}
use smart_classroom.Tokens.Connect.{is_active_for, issue_connect_token, verify_connect_token}
use smart_classroom.Tokens.Issuing.{Issued, update-none_left, issue-Issued, Inserted-valid}

revoked-not_active : (i now : ℕ) (t : Token) → is_active_for i (set_revoked now t) ≡ false
revoked-not_active i now t = ground arith

module _ (digest : String → String) (settings : Settings) (now now_revoke : ℕ) (raw : String)
    (user : User) (r : Reservation) (db db' : Db) (t : Token) (n : ℕ)
    (issued : issue_connect_token digest settings now now_revoke raw user r db
      ≡ ok ((t, n), db')) where
  facts : Issued digest settings now now_revoke raw user r db t n db'
  facts = issue-Issued digest settings now now_revoke raw user r db db' t n issued

  rows : db'.tokens ≡ t ∷ update_where (is_active_for r.id) (set_revoked now_revoke) db.tokens
  rows = ap (λ (d : Db). d.tokens) facts.inserted.rows

  expiry : t.expires_at ≡ facts.gate.ends_at
  expiry = ap (λ (x : Token). x.expires_at) facts.inserted.row

  -- A raw value that is not empty and for which a token was issued verifies to that token until the
  -- token expires.
  pub issue-verify :
      (later : ℕ)
      → raw ≢ ""
      → later < t.expires_at
      → verify_connect_token digest later raw db' ≡ some t
  unfolding verify_connect_token
  issue-verify later filled due =
      let found =
        Inserted-valid _ db' (digest raw) user.id (some r.host_id) (some r.id) connect now
          facts.gate.ends_at later t facts.inserted (omega (arith, expiry)) in
      ground (arith, found, eq_iff raw "")

  old_revoked :
      All
        (λ x. is_active_for r.id x ≡ false)
        (update_where (is_active_for r.id) (set_revoked now_revoke) db.tokens)
  old_revoked =
      update-none_left (is_active_for r.id) now_revoke (revoked-not_active r.id now_revoke)
        db.tokens

  -- Right after a token was issued it is the only active one of its reservation.
  pub issue-single_active : count_where (is_active_for r.id) db'.tokens ≡ 1
  unfolding count_where
  issue-single_active =
      rw rows (ground (arith, facts.inserted.row, count_where-none _ _ old_revoked))

  -- After a token was issued, any raw value that verifies to a token of its reservation verifies to
  -- the new one.
  pub issue-ends_earlier :
      (later : ℕ) (other : String) (x : Token)
      → verify_connect_token digest later other db' ≡ some x
      → x.reservation_id ≡ some r.id
      → x ≡ t
  unfolding verify_connect_token
  issue-ends_earlier later other x v same =
      let hit : select_one (is_valid_for connect (digest other) later) db'.tokens ≡ some x =
        ground arith in
      let valid = select_one-holds (is_valid_for connect (digest other) later) db'.tokens hit in
      elim (subst (IsIn x) rows valid.0) [
        | inl e ↦ e
        | inr m ↦
            let off = All-lookup (λ y. is_active_for r.id y ≡ false) _ old_revoked m in
            absurd (ground arith)
      ]
