-- ===== src/Api/Single.antt =====
-- What the endpoints promise beyond the services that they call.
use smart_classroom.Prelude.{
  ℕ, ◌≡◌, ◌≢◌, refl, Bool, true, false, none, some, ◌∷◌, arith, String, eq_iff,
}
use smart_classroom.Domain.Settings.{Settings, production, mock}
use smart_classroom.Domain.Rows.{Reservation, Host, Token, Metadata, offline}
use smart_classroom.Domain.Audit.{token_consume, token_verify_failure, verified, refused}
use smart_classroom.Domain.Db.{Db, ok, log_row}
use smart_classroom.Tokens.Unique.{HasUniqueKeys}
use smart_classroom.Tokens.Connect.{verify_connect_token, mark_consumed}
use smart_classroom.Tokens.Consuming.{
  consumed_db, mark_consumed-first, mark_consumed-again, consumed-not_verified,
}
use smart_classroom.Hosts.Status.{World, evaluate_host_status}
use smart_classroom.Api.Tokens.{
  verify_token_endpoint, answer_token, answer_found, accept, invalid_or_expired, already_consumed,
  token_entry,
}
use smart_classroom.Api.Agents.{heartbeat_endpoint}
use smart_classroom.Api.Auth.{enforce_production_guards, weak_token, is_placeholder}

-- The state after a consuming request, and after one that was refused.
abbrev accepted_db : ℕ → Token → Db → Db
accepted_db t token db = record (consumed_db t token db) {
  audit_logs =
      log_row
        (token_entry token_consume (some token.id) (verified token.reservation_id token.user_id)) db
      ∷ db.audit_logs;
}

abbrev refused_db : Db → Db
refused_db db = record db {
  audit_logs =
      log_row (token_entry token_verify_failure none (refused "invalid_or_expired")) db
      ∷ db.audit_logs;
}

refuse :
    (digest : String → String) (now t : ℕ) (raw : String) (consume : Bool) (db : Db)
    → verify_connect_token digest now raw db ≡ none
    → verify_token_endpoint digest now t raw consume db ≡ ok (invalid_or_expired, refused_db db)
unfolding verify_token_endpoint answer_found
refuse digest now t raw consume db h = rw h refl

accept_first :
    (digest : String → String) (now t : ℕ) (raw : String) (token : Token) (db : Db)
    → verify_connect_token digest now raw db ≡ some token
    → mark_consumed t token db ≡ ok (true, consumed_db t token db)
    → verify_token_endpoint digest now t raw true db ≡ ok (accept token, accepted_db t token db)
unfolding verify_token_endpoint answer_found answer_token
accept_first digest now t raw token db h m = ground (arith, h, m)

gone :
    (digest : String → String) (now t later : ℕ) (raw : String) (token : Token) (db : Db)
    → verify_connect_token digest later raw (consumed_db t token db) ≡ none
    → verify_connect_token digest later raw (accepted_db t token db) ≡ none
unfolding verify_connect_token
gone digest now t later raw token db h = h

-- A raw token that verifies is accepted by the first consuming request; every later request with
-- it, consuming or not, is answered as invalid.
pub verify_token-once :
    (digest : String → String) (now t : ℕ) (raw : String) (token : Token) (db : Db)
    → HasUniqueKeys db.next_token_id db.tokens
    → verify_connect_token digest now raw db ≡ some token
    → (db' : Db) × (verify_token_endpoint digest now t raw true db ≡ ok (accept token, db'))
      × ((later u : ℕ) (consume : Bool)
          → (db'' : Db) × (verify_token_endpoint digest later u raw consume db'
              ≡ ok (invalid_or_expired, db'')))
verify_token-once digest now t raw token db keys found = (
  accepted_db t token db,
  accept_first digest now t raw token db found
      (mark_consumed-first digest now t raw db token keys found),
  λ later u consume. (
    refused_db _,
    refuse digest later u raw consume _ (
        gone digest now t later raw token db
          (consumed-not_verified digest now t raw db token keys found later)),
  ),
)

late :
    (t u : ℕ) (token : Token) (db d : Db)
    → mark_consumed u token (consumed_db t token db) ≡ ok (false, d)
    → (d' : Db) × (mark_consumed u token (accepted_db t token db) ≡ ok (false, d'))
unfolding mark_consumed
late t u token db d h = (consumed_db u token (accepted_db t token db), ground arith)

refuse_late :
    (u : ℕ) (token : Token) (db d : Db)
    → mark_consumed u token db ≡ ok (false, d)
    → (d' : Db) × (answer_token u true token db ≡ ok (already_consumed, d'))
unfolding answer_token
refuse_late u token db d h = (
  record d {
    audit_logs =
        log_row (token_entry token_verify_failure (some token.id) (refused "already_consumed")) d
        ∷ d.audit_logs;
  },
  ground (arith, h),
)

accept_now :
    (t : ℕ) (token : Token) (db : Db)
    → mark_consumed t token db ≡ ok (true, consumed_db t token db)
    → answer_token t true token db ≡ ok (accept token, accepted_db t token db)
unfolding answer_token
accept_now t token db h = ground (arith, h)

-- In a table with unique keys, of two consuming requests that both found a token before either
-- consumed it, the first is accepted and the second is answered that the token was taken.
pub answer_token-race :
    (digest : String → String) (now t u : ℕ) (raw : String) (token : Token) (db : Db)
    → HasUniqueKeys db.next_token_id db.tokens
    → verify_connect_token digest now raw db ≡ some token
    → (db' : Db) × (answer_token t true token db ≡ ok (accept token, db'))
      × ((db'' : Db) × (answer_token u true token db' ≡ ok (already_consumed, db'')))
answer_token-race digest now t u raw token db keys found =
    let (d, again) = mark_consumed-again digest now t raw db token keys found u in
    let (d', taken) = late t u token db d again in
    (
      accepted_db t token db,
      accept_now t token db (mark_consumed-first digest now t raw db token keys found),
      refuse_late u token (accepted_db t token db) d' taken,
    )

-- A heartbeat never leaves the host's new status OFFLINE, whatever it reports.
pub heartbeat-not_offline :
    (settings : Settings) (now : ℕ) (report : Metadata) (host : Host) (w : World)
    → (heartbeat_endpoint settings now report host w).0 ≢ offline
unfolding heartbeat_endpoint evaluate_host_status
heartbeat-not_offline settings now report host w q = ground arith

-- A broker that boots in production has a real identity provider, a session secret that is neither
-- empty nor a placeholder, secure cookies, and an internal token that is not weak.
pub enforce_production_guards_sound :
    (settings : Settings)
    → settings.app_env ≡ production
    → enforce_production_guards settings ≡ none
    → (settings.auth_provider ≢ mock)
      × (is_placeholder settings.session_secret ≡ false)
      × (settings.session_secret ≢ "")
      × (settings.session_cookie_secure ≡ true)
      × (weak_token settings.internal_api_token ≡ false)
unfolding enforce_production_guards
enforce_production_guards_sound settings p h = (
  ground arith,
  ground arith,
  ground (arith, eq_iff settings.session_secret ""),
  ground arith,
  ground arith,
)
