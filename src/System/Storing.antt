-- ===== src/System/Storing.antt =====
-- The commit of an endpoint that books or issues: the rows that it adds to the audit log are taken by
-- their columns, if the id of its request is.
use smart_classroom.Prelude.{ℕ, Bool, not, ◌≡◌, refl, true, Option, none, some, String, arith}
use smart_classroom.Domain.Settings.{Settings}
use smart_classroom.Domain.Time.{DateTime, utc}
use smart_classroom.Domain.Rows.{is_idle, User, Host, Reservation}
use smart_classroom.Domain.Audit.{id_fits, text_is_json, has_nul, all_storable}
use smart_classroom.Domain.Db.{
  Db, M, Error, ok, err, commit_session, committed, bind-same, raise_if, raise_if-ok,
  host_not_available,
}
use smart_classroom.Tokens.Store.{insert_token, revoke_where}
use smart_classroom.Tokens.Connect.{issue_connect_token, revoke_active_tokens_for_reservation}
use smart_classroom.Reservation.Access.{assert_can_access, reservation_bounds}
use smart_classroom.Reservation.Window.{validate_host_exists}
use smart_classroom.Reservation.Quota.{validate_quota}
use smart_classroom.Reservation.Booking.{
  insert_reservation, book, create_instant_reservation, instant_window, next_reservation_start,
}
use smart_classroom.Reservation.Policy.{validate_host_exists_sound, validate_quota_sound}
use smart_classroom.Hosts.Status.{transition_host}
use smart_classroom.Api.Reservations.{
  ConnectResponse, transition_quietly, occupy_host, issue_connect_token_response,
}

-- The request's id is taken by its column, and so are the rows that the audit log has already.
pub record IsStorable (db : Db) : Type 0 where
  pub id : id_fits db.request_id ≡ true
  pub rows : all_storable db.audit_logs ≡ true

commits : (db : Db) → all_storable db.audit_logs ≡ true → commit_session db ≡ ok (tt, db)
unfolding commit_session
commits db h = rw h refl

pub committed_of :
    {A : Type 0} (m : M A) (db : Db) (a : A × Db)
    → m db ≡ ok a
    → IsStorable a.1
    → committed m db ≡ ok a
unfolding committed
committed_of m db a h s = ground (arith, h, commits a.1 s.rows)

pub committed_err :
    {A : Type 0} (m : M A) (db : Db) (e : Error) → m db ≡ err e → committed m db ≡ err e
unfolding committed
committed_err m db e h = ground (arith, h)

pub response-IsStorable :
    (digest : String → String) (settings : Settings) (now revoking : ℕ) (raw : String) (user : User)
    (r : Reservation) (client : Option String) (db : Db) (b : ConnectResponse × Db)
    → issue_connect_token_response digest settings now revoking raw user r client db ≡ ok b
    → text_is_json client ≡ true
    → IsStorable db
    → IsStorable b.1
unfolding issue_connect_token_response issue_connect_token assert_can_access reservation_bounds
    insert_token revoke_where revoke_active_tokens_for_reservation all_storable
response-IsStorable digest settings now revoking raw user r client db b h c s = record {
  id = ground (arith, s.id);
  rows = ground (arith, s.id, s.rows, c);
}

book-IsStorable :
    (user : User) (i : ℕ) (s e : DateTime) (instant : Bool) (db : Db) (a : Reservation × Db)
    → book user i s e instant db ≡ ok a
    → IsStorable db
    → IsStorable a.1
unfolding book insert_reservation all_storable
book-IsStorable user i s e instant db a h k = record {
  id = ground (arith, k.id);
  rows = ground (arith, k.id, k.rows);
}

pub instant-IsStorable :
    (settings : Settings) (now quota : ℕ) (user : User) (i : ℕ) (db : Db) (a : Reservation × Db)
    → create_instant_reservation settings now quota user i db ≡ ok a
    → IsStorable db
    → IsStorable a.1
unfolding create_instant_reservation
instant-IsStorable settings now quota user i db a h k =
    let (x, ex, hx) =
      bind-same (validate_host_exists i) _ db (λ x d q. (validate_host_exists_sound i db q).1) h in
    let (y, ey, hy) =
      bind-same (raise_if (not (is_idle x.status)) host_not_available) _ db
        (λ y d q. (raise_if-ok (not (is_idle x.status)) host_not_available db q).1) hx in
    let window = instant_window now (next_reservation_start i now db.reservations) in
    let (z, ez, hz) =
      bind-same (validate_quota settings quota user (utc window.0) (utc window.1)) _ db
        (λ z d q. (validate_quota_sound settings quota user _ _ db q).1) hy in
    book-IsStorable user i (utc window.0) (utc window.1) true db a hz k

pub occupy-IsStorable :
    (now : ℕ) (host : Option Host) (db db' : Db)
    → occupy_host now host db ≡ ok (tt, db')
    → IsStorable db
    → IsStorable db'
unfolding occupy_host transition_quietly transition_host all_storable has_nul
occupy-IsStorable now none db db' h k = record {
  id = ground (arith, k.id);
  rows = ground (arith, k.rows);
}
occupy-IsStorable now (some host) db db' h k = record {
  id = ground (arith, k.id);
  rows = ground (arith, k.id, k.rows);
}
