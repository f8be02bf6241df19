-- ===== src/Api/SignIn/Sessions.antt =====
-- What a sign-in, a refused sign-in and a sign-out mean for the requests that follow.
use smart_classroom.Prelude.{
  ℕ, ◌+◌, ◌*◌, ◌<◌, ◌≡◌, ◌≢◌, refl, sym, subst, ◌∙◌, eq_iff, ap, inl, inr, ltb, Bool, true, false,
  ◌&&◌, ◌∷◌, Option, none, some, arith, String, select_one, ◌==◌, if◌then◌else◌, Bool-cases,
  Option-cases,
}
use smart_classroom.Domain.Time.{second}
use smart_classroom.Domain.Settings.{Settings}
use smart_classroom.Domain.Rows.{User, Token, session}
use smart_classroom.Domain.Audit.{AuditEntry}
use smart_classroom.Domain.Db.{
  Db, ok, err, pure, ◌>>◌, write_audit, runtime_error, bind-ok, log_row,
}
use smart_classroom.Tokens.Session.{verify_session, issue_session, revoke_session}
use smart_classroom.Tokens.Issuing.{Inserted, insert_token-Inserted}
use smart_classroom.Tokens.Logout.{issue_session-verify, revoke_session-verify}
use smart_classroom.Api.Auth.{
  granted, denied, unauthenticated, get_current_user, require_admin, is_production, is_mock,
}
use smart_classroom.Api.Mock.{
  CallbackRequest, CallbackFault, Verified, identified, refused, verify_callback,
  get_active_provider, build_provider, name_of,
}
use smart_classroom.Api.Login.{UserIdentity, upsert_user, complete_login, logout}
use smart_classroom.Api.SignIn.{
  SignIn, signed_in, bad_request, failed_login, answer_callback, mock_callback, session_user,
}

module _ (digest : String → String) where
  audited :
      (b : Bool) (entry : AuditEntry) (db db' : Db)
      → (if b then write_audit entry else pure tt) db ≡ ok (tt, db')
      → (db'.users ≡ db.users) × (db'.tokens ≡ db.tokens)
  audited true entry db db' h = ground arith
  audited false entry db db' h = ground arith

  session_user-revoked :
      (later : ℕ) (raw : String) (db db' : Db)
      → verify_session digest later raw db ≡ none
      → (db'.users ≡ db.users) × (db'.tokens ≡ db.tokens)
      → session_user digest later (some raw) db' ≡ none
  unfolding session_user verify_session
  session_user-revoked later raw db db' gone same = ground (arith, same, gone)

  -- A session cookie is good for nothing once its owner has signed out with it: whoever sends it, at
  -- any later or earlier time by the clock, is answered as not signed in, also where only an
  -- administrator may go.
  pub logout-denied :
      (now later : ℕ) (raw provider : String) (user_id : Option ℕ) (db db' : Db)
      → logout digest now raw user_id provider db ≡ ok (tt, db')
      → (get_current_user (session_user digest later (some raw) db') ≡ denied unauthenticated)
        × (require_admin (session_user digest later (some raw) db') ≡ denied unauthenticated)
  unfolding logout session_user get_current_user require_admin
  logout-denied now later raw provider user_id db db' h =
      let (p, e, k) = bind-ok (revoke_session digest now raw) _ db h in
      let gone = revoke_session-verify digest now later p.0 raw db p.1 e in
      let nobody : session_user digest later (some raw) db' ≡ none =
        session_user-revoked later raw p.1 db' gone (audited (ltb 0 p.0) _ p.1 db' k) in
      rw nobody (refl, refl)

  answered :
      (settings : Settings) (now : ℕ) (raw : String) (v : Verified UserIdentity)
      (fault : CallbackFault) (db db' : Db)
      → answer_callback digest settings now raw v db ≡ ok (bad_request fault, db')
      → (db' ≡ record db { audit_logs = log_row (failed_login fault) db ∷ db.audit_logs })
        × (v ≡ refused fault)
  unfolding answer_callback
  answered settings now raw (refused f) fault db db' h =
      let same : f ≡ fault = ground arith in (ground arith, ap refused same)
  answered settings now raw (identified i) fault db db' h =
      let (p, e, k) = bind-ok (complete_login digest settings now raw i) _ db h in
      absurd (ground (arith, k))

  mock_callback-answer :
      (settings : Settings) (now : ℕ) (raw : String) (request : CallbackRequest) (db : Db)
      {r : SignIn × Db}
      → mock_callback digest settings now raw request db ≡ ok r
      → answer_callback digest settings now raw (verify_callback request) db ≡ ok r
  unfolding mock_callback
  mock_callback-answer settings now raw request db h =
      elim (Bool-cases (is_production settings.app_env)) [
        | inl e ↦ absurd (ground (arith, e))
        | inr e ↦ elim (Option-cases (get_active_provider settings)) [
          | inl g ↦ absurd (ground (arith, e, g))
          | inr (provider, g) ↦ elim (Bool-cases (is_mock (name_of provider))) [
            | inl m ↦ ground (arith, e, g, m)
            | inr m ↦ absurd (ground (arith, e, g, m))
          ]
        ]
      ]

  -- A refused callback leaves all users and sessions as they were, and exactly one entry in the log.
  pub mock_callback-bad_request :
      (settings : Settings) (now : ℕ) (raw : String) (request : CallbackRequest)
      (fault : CallbackFault) (db db' : Db)
      → mock_callback digest settings now raw request db ≡ ok (bad_request fault, db')
      → (db' ≡ record db { audit_logs = log_row (failed_login fault) db ∷ db.audit_logs })
        × (verify_callback request ≡ refused fault)
  mock_callback-bad_request settings now raw request fault db db' h =
      answered settings now raw (verify_callback request) fault db db'
        (mock_callback-answer settings now raw request db h)

  -- With a provider other than the mock one the mock callback is an error of the server, outside of
  -- production, whatever the request: the check that answers such a setting with 400 is not reached.
  pub mock_callback-runtime_error :
      (settings : Settings) (now : ℕ) (raw : String) (request : CallbackRequest) (db : Db)
      → is_production settings.app_env ≡ false
      → is_mock settings.auth_provider ≡ false
      → mock_callback digest settings now raw request db ≡ err runtime_error
  unfolding mock_callback get_active_provider build_provider
  mock_callback-runtime_error settings now raw request db e m = ground (arith, e, m)

  session_user-same :
      (later : ℕ) (raw : String) (db db' : Db) (u : User)
      → raw ≢ ""
      → verify_session digest later raw db ≡ some u
      → (db'.users ≡ db.users) × (db'.tokens ≡ db.tokens)
      → session_user digest later (some raw) db' ≡ some u
  unfolding session_user verify_session
  session_user-same later raw db db' u filled known same =
      ground (arith, same, known, eq_iff raw "")

  finished :
      (entry : AuditEntry) (a account : User) (x t : Token) (db db' : Db)
      → (write_audit entry >> pure {A = User × Token} (a, x)) db ≡ ok ((account, t), db')
      → (a ≡ account) × (db'.users ≡ db.users) × (db'.tokens ≡ db.tokens)
  finished entry a account x t db db' h = ground arith

  issued :
      (now ttl : ℕ) (raw : String) (a : User) (db : Db) (t : Token) (db' : Db)
      → issue_session digest now raw a ttl db ≡ ok (t, db')
      → db'.users ≡ db.users
  unfolding issue_session
  issued now ttl raw a db t db' h =
      ap (λ d. d.users)
        (Inserted.rows (insert_token-Inserted (digest raw) a.id none none session now _ db h))

  complete_login-session :
      (settings : Settings) (now later : ℕ) (raw : String) (i : UserIdentity) (account u : User)
      (t : Token) (db db' : Db)
      → complete_login digest settings now raw i db ≡ ok ((account, t), db')
      → raw ≢ ""
      → later < now + settings.session_ttl_seconds * second
      → select_one (λ v. (v.id == account.id) && v.is_active) db'.users ≡ some u
      → session_user digest later (some raw) db' ≡ some u
  unfolding complete_login session_user verify_session
  complete_login-session settings now later raw i account u t db db' h filled due found =
      let (p, e, k) = bind-ok (upsert_user i) _ db h in
      let (q, f, l) =
        bind-ok (issue_session digest now raw p.0 settings.session_ttl_seconds) _ p.1 k in
      let (who, users, tokens) = finished _ p.0 account q.0 t q.1 db' l in
      let inserted = issued now settings.session_ttl_seconds raw p.0 p.1 q.0 q.1 f in
      let active : select_one (λ v. (v.id == p.0.id) && v.is_active) p.1.users ≡ some u =
        subst (λ a. select_one (λ v. (v.id == a.id) && v.is_active) p.1.users ≡ some u) (sym who)
          (subst (λ us. select_one (λ v. (v.id == account.id) && v.is_active) us ≡ some u)
            (users ∙ inserted) found) in
      session_user-same later raw q.1 db' u filled
        (issue_session-verify digest now settings.session_ttl_seconds later raw p.0 u p.1 q.1 q.0 f
          filled due active)
        (users, tokens)

  signed :
      (settings : Settings) (now : ℕ) (raw : String) (v : Verified UserIdentity) (account : User)
      (t : Token) (db db' : Db)
      → answer_callback digest settings now raw v db ≡ ok (signed_in account t, db')
      → (i : UserIdentity) × (complete_login digest settings now raw i db ≡ ok ((account, t), db'))
  unfolding answer_callback
  signed settings now raw (refused f) account t db db' h = absurd (ground arith)
  signed settings now raw (identified i) account t db db' h =
      let (p, e, k) = bind-ok (complete_login digest settings now raw i) _ db h in
      (i, e ∙ ground (arith, k))

  -- In the database as a sign-in by the mock callback leaves it, whatever the time before the session
  -- expires, a request with the new cookie, which is not empty, is known as the first active user with
  -- the account's id, if there is one.
  pub mock_callback-session :
      (settings : Settings) (now later : ℕ) (raw : String) (request : CallbackRequest)
      (account u : User) (t : Token) (db db' : Db)
      → mock_callback digest settings now raw request db ≡ ok (signed_in account t, db')
      → raw ≢ ""
      → later < now + settings.session_ttl_seconds * second
      → select_one (λ v. (v.id == account.id) && v.is_active) db'.users ≡ some u
      → get_current_user (session_user digest later (some raw) db') ≡ granted u
  unfolding get_current_user
  mock_callback-session settings now later raw request account u t db db' h filled due found =
      let (i, e) =
        signed settings now raw (verify_callback request) account t db db'
          (mock_callback-answer settings now raw request db h) in
      ap get_current_user
        (complete_login-session settings now later raw i account u t db db' e filled due found)
