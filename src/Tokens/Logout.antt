-- ===== src/Tokens/Logout.antt =====
-- Browser sessions: a session that is issued is found, and one that is revoked is not.
use smart_classroom.Prelude.{
  ℕ, ◌+◌, ◌*◌, ◌<◌, ◌≡◌, ◌≢◌, refl, inl, inr, Bool, true, false, ◌&&◌, List, [], ◌∷◌, none, some,
  arith, eq_iff, String, select_one, select_one-holds, All, All-map, All-lookup, IsIn, ◌==◌,
  Bool-cases, Option-cases,
}
use smart_classroom.Domain.Time.{second}
use smart_classroom.Domain.Rows.{User, Token, session}
use smart_classroom.Domain.Db.{Db, ok}
use smart_classroom.Tokens.Store.{is_valid_for, set_revoked, revoke_where}
use smart_classroom.Tokens.Session.{
  join_active_user, is_session_of_cookie, is_session_of_user, issue_session, verify_session,
  revoke_session, revoke_all_sessions_for_user,
}
use smart_classroom.Tokens.Issuing.{
  insert_token-Inserted, revoked_db, update-none_left, str_eq_refl,
}

-- A join over tokens that all fail the test is empty.
join-none :
    (users : List User) (p : Token → Bool) (ts : List Token)
    → All (λ t. p t ≡ false) ts
    → join_active_user users p ts ≡ none
unfolding join_active_user
join-none users p [] h = refl
join-none users p (t ∷ ts) h = rw h.0 (join-none users p ts h.1)

-- A user that the join returns owns a token that passes the test.
pub join-owner :
    (users : List User) (p : Token → Bool) (ts : List Token) (u : User)
    → join_active_user users p ts ≡ some u
    → (t : Token) × IsIn t ts × (p t ≡ true) × (u.id ≡ t.user_id) × (u.is_active ≡ true)
unfolding join_active_user
join-owner users p [] u h = absurd (ground arith)
join-owner users p (t ∷ ts) u h = elim (Bool-cases (p t)) [
  | inl e ↦ elim (Option-cases (select_one (λ v. (v.id == t.user_id) && v.is_active) users)) [
    | inl q ↦ further (join-owner users p ts u (ground arith))
    | inr (v, q) ↦
        let found = select_one-holds (λ v. (v.id == t.user_id) && v.is_active) users q in
        let same : v ≡ u = ground arith in
        (t, inl refl, e, ground (arith, found.1), ground (arith, found.1))
  ]
  | inr e ↦ further (join-owner users p ts u (ground arith))
]
  where
    further :
        ((x : Token) × IsIn x ts × (p x ≡ true) × (u.id ≡ x.user_id) × (u.is_active ≡ true))
        → ((x : Token) × IsIn x (t ∷ ts) × (p x ≡ true) × (u.id ≡ x.user_id) × (u.is_active ≡ true))
    further (x, m, a, b, c) = (x, inr m, a, b, c)

revoked-not_cookie :
    (j : String) (now : ℕ) (t : Token) → is_session_of_cookie j (set_revoked now t) ≡ false
revoked-not_cookie j now t = ground arith

revoked-not_user : (i now : ℕ) (t : Token) → is_session_of_user i (set_revoked now t) ≡ false
revoked-not_user i now t = ground arith

module _ (digest : String → String) where
  -- A new session whose cookie is not empty verifies, until it expires, to the first active user with
  -- its owner's id, if there is one.
  pub issue_session-verify :
      (now ttl later : ℕ) (raw : String) (user u : User) (db db' : Db) (t : Token)
      → issue_session digest now raw user ttl db ≡ ok (t, db')
      → raw ≢ ""
      → later < now + ttl * second
      → select_one (λ v. (v.id == user.id) && v.is_active) db.users ≡ some u
      → verify_session digest later raw db' ≡ some u
  unfolding issue_session verify_session join_active_user
  issue_session-verify now ttl later raw user u db db' t h filled due found =
      let facts = insert_token-Inserted (digest raw) user.id none none session now _ db h in
      ground (arith, facts.row, facts.rows, str_eq_refl (digest raw), eq_iff raw "")

  -- After a logout with a cookie that cookie names nobody, at any time.
  pub revoke_session-verify :
      (now later n : ℕ) (raw : String) (db db' : Db)
      → revoke_session digest now raw db ≡ ok (n, db')
      → verify_session digest later raw db' ≡ none
  unfolding revoke_session verify_session revoke_where
  revoke_session-verify now later n raw db db' h =
      let off =
        update-none_left (is_session_of_cookie (digest raw)) now
          (revoked-not_cookie (digest raw) now) db.tokens in
      let empty = join-none db.users (is_valid_for session (digest raw) later) _ (
        All-map _ (λ t. is_valid_for session (digest raw) later t ≡ false) (λ t p. ground arith) _
          off) in
      ground (arith, empty)

  -- After all sessions of a user are revoked no cookie names a user with that id.
  pub revoke_all-verify :
      (now later n user_id : ℕ) (raw : String) (db db' : Db) (u : User)
      → revoke_all_sessions_for_user now user_id db ≡ ok (n, db')
      → verify_session digest later raw db' ≡ some u
      → u.id ≢ user_id
  unfolding revoke_all_sessions_for_user verify_session revoke_where
  revoke_all-verify now later n user_id raw db db' u h v same =
      let off =
        update-none_left (is_session_of_user user_id) now (revoked-not_user user_id now)
          db.tokens in
      let hit : join_active_user db.users (is_valid_for session (digest raw) later)
            (revoked_db now (is_session_of_user user_id) db).tokens
          ≡ some u =
        ground arith in
      let (t, m, p, owner, _) = join-owner db.users _ _ u hit in
      let gone = All-lookup (λ x. is_session_of_user user_id x ≡ false) _ off m in ground arith
