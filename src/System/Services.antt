-- ===== src/System/Services.antt =====
-- Each service of broker/app/services, and each endpoint, keeps the invariant of the database.
use smart_classroom.Prelude.{
  ℕ, ◌<◌, ◌≡◌, inl, inr, subst, arith, String, ap, Bool, update_where, ◌&&◌, ◌==◌,
}
use smart_classroom.Domain.Time.{DateTime}
use smart_classroom.Domain.Settings.{Settings}
use smart_classroom.Domain.Rows.{User, Host, Reservation, Token}
use smart_classroom.Domain.Db.{Db, M, ok}
use smart_classroom.Reservation.Booking.{create_reservation, create_instant_reservation}
use smart_classroom.Reservation.Booked.{Booked}
use smart_classroom.Reservation.Access.{
  cancel_reservation, soft_delete, assert_can_access, get_reservation, reservation_bounds,
}
use smart_classroom.Reservation.Overlap.{
  Booked-NoOverlap, cancel_reservation-NoOverlap, cancel-rows,
}
use smart_classroom.Reservation.Placed.{Booked-ArePlaced, canceled-ArePlaced}
use smart_classroom.Reservation.Instant.{instant_window-holds}
use smart_classroom.Reservation.Policy.{create_reservation-Accepted}
use smart_classroom.Reservation.InstantBooking.{create_instant-Accepted}
use smart_classroom.Tokens.Store.{is_open, set_consumed, set_revoked}
use smart_classroom.Tokens.Unique.{update-HasUniqueKeys, consumed-KeepsKeys, revoked-KeepsKeys}
use smart_classroom.Tokens.Connect.{is_active_for, issue_connect_token, mark_consumed}
use smart_classroom.Tokens.Agent.{is_agent_of, issue_agent_token}
use smart_classroom.Tokens.Session.{issue_session, revoke_session}
use smart_classroom.Tokens.Exclusive.{
  update-Exclusive, revoked-Closes, consumed-Closes, connect-Exclusive, agent-Exclusive,
  session-Exclusive,
}
use smart_classroom.Tokens.Issuing.{
  revoked_db, update-none_left, issue-Issued, insert_token-Inserted,
}
use smart_classroom.Tokens.Rotation.{rotation-Inserted}
use smart_classroom.System.Invariant.{Inv, Inserted-Inv, Keeps, keeps_rules}

Booked-Inv :
    (db db' : Db) (u h s e : ℕ) (r : Reservation)
    → Booked db u h s e r db'
    → s < e
    → Inv db
    → Inv db'
Booked-Inv db db' u h s e r b o v = record {
  no_overlap = Booked-NoOverlap db db' u h s e r b v.no_overlap;
  placed = Booked-ArePlaced db db' u h s e r b o v.placed;
  unique_keys = rw (b.same_tokens, b.same_token_id) v.unique_keys;
  exclusive = rw b.same_tokens v.exclusive;
}

pub Keeps-create_reservation :
    (settings : Settings) (t u : ℕ) (user : User) (host_id : ℕ) (s e : DateTime)
    → Keeps (create_reservation settings t u user host_id s e)
Keeps-create_reservation settings t u user host_id s e = record {
  keeps = λ db db' r v h.
      let facts = create_reservation-Accepted settings t u user host_id s e db h in
      Booked-Inv db db' user.id host_id _ _ r facts.booked facts.bookable.ordered v;
}

pub Keeps-create_instant :
    (settings : Settings) (t u : ℕ) (user : User) (host_id : ℕ)
    → Keeps (create_instant_reservation settings t u user host_id)
Keeps-create_instant settings t u user host_id = record {
  keeps = λ db db' r v h.
      let facts = create_instant-Accepted settings t u user host_id db h in
      let (started, open_end) = instant_window-holds t host_id db.reservations in
      Booked-Inv db db' user.id host_id _ _ r facts.booked (omega (arith, started, open_end)) v;
}

cancel-rest :
    (now : ℕ) (user : User) (i : ℕ) (db db' : Db) (r : Reservation)
    → cancel_reservation now user i db ≡ ok (r, db')
    → (db'.tokens ≡ db.tokens) × (db'.next_token_id ≡ db.next_token_id) × (db'.hosts ≡ db.hosts)
unfolding cancel_reservation soft_delete assert_can_access
cancel-rest now user i db db' r h = (ground arith, ground arith, ground arith)

pub Keeps-cancel_reservation :
    (now : ℕ) (user : User) (i : ℕ) → Keeps (cancel_reservation now user i)
Keeps-cancel_reservation now user i = record {
  keeps = λ db db' r v h.
      let same = cancel-rest now user i db db' r h in
      record {
        no_overlap = cancel_reservation-NoOverlap now user i db v.no_overlap h;
        placed = elim (cancel-rows now user i db h) [
          | inl e ↦ rw (e, same.2) v.placed
          | inr e ↦ rw (e, same.2) (canceled-ArePlaced now _ db.hosts db.reservations v.placed)
        ];
        unique_keys = rw (same.0, same.1) v.unique_keys;
        exclusive = rw same.0 v.exclusive;
      };
}

pub Keeps-reads :
    {A : Type 0} (m : M A) → ((db db' : Db) (a : A) → m db ≡ ok (a, db') → db ≡ db') → Keeps m
Keeps-reads m same = record { keeps = λ db db' a v h. subst Inv (same db db' a h) v }

assert-same :
    (r : Reservation) (user : User) (db db' : Db) (a : Unit {0})
    → assert_can_access r user db ≡ ok (a, db')
    → db ≡ db'
unfolding assert_can_access
assert-same r user db db' a h = ground arith

bounds-same :
    (r : Reservation) (db db' : Db) (a : ℕ × ℕ) → reservation_bounds r db ≡ ok (a, db') → db ≡ db'
unfolding reservation_bounds
bounds-same r db db' a h = ground arith

get-same :
    (user : User) (i : ℕ) (db db' : Db) (a : Reservation)
    → get_reservation user i db ≡ ok (a, db')
    → db ≡ db'
unfolding get_reservation assert_can_access
get-same user i db db' a h = ground arith

Keeps-assert : (r : Reservation) (user : User) → Keeps (assert_can_access r user)
Keeps-assert r user = Keeps-reads _ (assert-same r user)

Keeps-bounds : (r : Reservation) → Keeps (reservation_bounds r)
Keeps-bounds r = Keeps-reads _ (bounds-same r)

pub Keeps-get_reservation : (user : User) (i : ℕ) → Keeps (get_reservation user i)
Keeps-get_reservation user i = Keeps-reads _ (get-same user i)

-- The bulk UPDATE that comes before a new token is inserted.
revoked-Inv : (now : ℕ) (p : Token → Bool) (db : Db) → Inv db → Inv (revoked_db now p db)
revoked-Inv now p db v = record {
  no_overlap = v.no_overlap;
  placed = v.placed;
  unique_keys =
      update-HasUniqueKeys (set_revoked now) p (revoked-KeepsKeys now) db.next_token_id db.tokens
        v.unique_keys;
  exclusive = update-Exclusive (set_revoked now) p (revoked-Closes now) db.tokens v.exclusive;
}

pub Keeps-issue_connect_token :
    (digest : String → String) (settings : Settings) (now revoking : ℕ) (raw : String) (user : User)
    (r : Reservation)
    → Keeps (issue_connect_token digest settings now revoking raw user r)
Keeps-issue_connect_token digest settings now revoking raw user r = record {
  keeps = λ db db' a v h.
      let facts = issue-Issued digest settings now revoking raw user r db db' a.0 a.1 h in
      let before = revoked-Inv revoking (is_active_for r.id) db v in
      let closed =
        update-none_left (is_active_for r.id) revoking (λ t. (revoked-Closes revoking r.id t).0)
          db.tokens in
      let row = facts.inserted.row in
      Inserted-Inv _ db' _ _ _ _ _ _ _ a.0 facts.inserted
        (connect-Exclusive r.id a.0 _ (ap (λ (t : Token). t.purpose) row)
          (ap (λ (t : Token). t.reservation_id) row) closed before.exclusive)
        before;
}

pub Keeps-issue_agent_token :
    (digest : String → String) (settings : Settings) (revoking now : ℕ) (raw : String) (host : Host)
    (user : User)
    → Keeps (issue_agent_token digest settings revoking now raw host user)
Keeps-issue_agent_token digest settings revoking now raw host user = record {
  keeps = λ db db' a v h.
      let facts = rotation-Inserted digest settings revoking now raw host user db db' a.0 a.1 h in
      let before = revoked-Inv revoking (is_agent_of host.id) db v in
      let closed =
        update-none_left (is_agent_of host.id) revoking (λ t. (revoked-Closes revoking host.id t).1)
          db.tokens in
      let row = facts.row in
      Inserted-Inv _ db' _ _ _ _ _ _ _ a.0 facts
        (agent-Exclusive host.id a.0 _ (ap (λ (t : Token). t.purpose) row)
          (ap (λ (t : Token). t.host_id) row) closed before.exclusive)
        before;
}

pub Keeps-issue_session :
    (digest : String → String) (now : ℕ) (raw : String) (user : User) (ttl : ℕ)
    → Keeps (issue_session digest now raw user ttl)
unfolding issue_session
Keeps-issue_session digest now raw user ttl = record {
  keeps = λ db db' t v h.
      let facts = insert_token-Inserted _ _ _ _ _ _ _ db h in
      Inserted-Inv db db' _ _ _ _ _ _ _ t facts
        (session-Exclusive t db.tokens (ap (λ (x : Token). x.purpose) facts.row) v.exclusive) v;
}

pub Keeps-revoke_session :
    (digest : String → String) (now : ℕ) (raw : String) → Keeps (revoke_session digest now raw)
unfolding revoke_session
Keeps-revoke_session digest now raw = search keeps_rules

pub Keeps-mark_consumed : (now : ℕ) (token : Token) → Keeps (mark_consumed now token)
unfolding mark_consumed
Keeps-mark_consumed now token = record {
  keeps = λ db db' b v h.
      let due = λ (t : Token). (t.id == token.id) && is_open t in
      let same : record db { tokens = update_where due (set_consumed now) db.tokens } ≡ db' =
        ground arith in
      subst Inv same (record {
        no_overlap = v.no_overlap;
        placed = v.placed;
        unique_keys =
            update-HasUniqueKeys (set_consumed now) due (consumed-KeepsKeys now) db.next_token_id
              db.tokens v.unique_keys;
        exclusive =
            update-Exclusive (set_consumed now) due (consumed-Closes now) db.tokens v.exclusive;
      });
}
