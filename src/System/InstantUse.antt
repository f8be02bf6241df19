-- ===== src/System/InstantUse.antt =====
-- Instant use from end to end: the endpoint books the host, issues the connect token for the new
-- reservation and takes the host into use, all in one transaction.
use smart_classroom.Prelude.{
  Bool-cases, Option, ℕ, false, ◌≤◌, ◌<◌, ◌≡◌, ◌≢◌, refl, ap, ◌∙◌, inl, inr, true, false, none,
  some, arith, String, str_eq, is_none, select_one, exists_where, All, ◌==◌, ==_refl,
}
use smart_classroom.Domain.Time.{utc}
use smart_classroom.Domain.Range.{bounded}
use smart_classroom.Domain.Settings.{Settings}
use smart_classroom.Domain.Rows.{User, Host, in_use, same_status, Reservation, is_idle}
use smart_classroom.Hosts.Events.{new_broker}
use smart_classroom.Hosts.Lookup.{same_status-eq, select_one-set}
use smart_classroom.Hosts.Status.{set_status, transition_host}
use smart_classroom.Tokens.Store.{insert_token, revoke_where}
use smart_classroom.Tokens.Connect.{issue_connect_token, revoke_active_tokens_for_reservation}
use smart_classroom.Reservation.Access.{assert_can_access, reservation_bounds}
use smart_classroom.Domain.Db.{Db, ok, get_user, get_host, committed}
use smart_classroom.Reservation.Booking.{new_row, create_instant_reservation}
use smart_classroom.Reservation.Booked.{Booked}
use smart_classroom.Reservation.Policy.{IsWithinQuota}
use smart_classroom.Reservation.Instant.{instant_window-holds}
use smart_classroom.Reservation.InstantBooking.{
  window_for, LeavesRoom, instant_use_succeeds, create_instant-Accepted,
}
use smart_classroom.Api.Reservations.{
  ConnectResponse, InstantClock, transition_quietly, occupy_host, issue_connect_token_response,
  instant_reservation_endpoint,
}
use smart_classroom.System.Answers.{not_none, response_grants}
use smart_classroom.Domain.Audit.{text_is_json, has_nul}
use smart_classroom.System.Storing.{
  IsStorable, committed_of, response-IsStorable, instant-IsStorable, occupy-IsStorable,
}

-- The host with an id is in use.
abbrev pub IsOccupied : ℕ → Db → Type 0
IsOccupied i db = (h : Host) × (get_host i db ≡ some h) × (h.status ≡ in_use)

occupy_host-IsOccupied :
    (now i : ℕ) (db : Db) (g : Host)
    → get_host i db ≡ some g
    → (db' : Db) × (occupy_host now (some g) db ≡ ok (tt, db')) × IsOccupied i db'
unfolding occupy_host transition_quietly transition_host
occupy_host-IsOccupied now i db g f = elim (Bool-cases (same_status g.status in_use)) [
  | inl e ↦ (db, ground (arith, e), (g, f, same_status-eq g.status in_use e))
  | inr e ↦ (
    (transition_host g in_use "instant_use" false now
        (record { db = db; events = new_broker })).1.db,
    ground (arith, e),
    (
      set_status in_use g,
      rw e (select_one-set (set_status in_use) (λ x. refl) i db.hosts g f),
      refl,
    ),
  )
]

plain_text : text_is_json (some "instant_use") ≡ true
unfolding has_nul
plain_text = refl

-- Issuing a connect token leaves the hosts alone.
same_hosts :
    (digest : String → String) (settings : Settings) (now revoking : ℕ) (raw : String) (user : User)
    (r : Reservation) (client : Option String) (db : Db) (b : ConnectResponse × Db)
    → issue_connect_token_response digest settings now revoking raw user r client db ≡ ok b
    → b.1.hosts ≡ db.hosts
unfolding issue_connect_token_response issue_connect_token assert_can_access reservation_bounds
    insert_token revoke_where revoke_active_tokens_for_reservation
same_hosts digest settings now revoking raw user r client db b h = ground arith

module _ (digest : String → String) (settings : Settings) (clock : InstantClock) (raw : String)
    (user : User) (host_id : ℕ) (db : Db) (h : Host) (found : get_host host_id db ≡ some h)
    (is_free : is_idle h.status ≡ true) (known : get_user user.id db ≢ none)
    (quota : IsWithinQuota settings clock.quota user
      (utc (window_for clock.booking host_id db).0)
      (utc (window_for clock.booking host_id db).1)
      db)
    (room : All (LeavesRoom host_id clock.booking) db.reservations)
    (new : exists_where (λ t. str_eq t.jti (digest raw)) db.tokens ≡ false)
    (forward : clock.booking ≤ clock.issuing)
    (soon : clock.issuing < (window_for clock.booking host_id db).1)
    (kept_log : IsStorable db) where
  row : Reservation
  row =
      new_row db.next_reservation_id user.id host_id
        (bounded (window_for clock.booking host_id db).0 (window_for clock.booking host_id db).1)

  booking :
      (db' : Db) × (create_instant_reservation settings clock.booking clock.quota user host_id db
        ≡ ok (row, db'))
  unfolding row
  booking =
      instant_use_succeeds settings clock.booking clock.quota user host_id db h found is_free known
        quota room

  facts :
      Booked db user.id host_id
        (window_for clock.booking host_id db).0
        (window_for clock.booking host_id db).1
        row
        booking.0
  facts =
      (create_instant-Accepted settings clock.booking clock.quota user host_id db booking.1).booked

  response :
      (b : ConnectResponse × Db) × (issue_connect_token_response digest settings clock.issuing
          clock.revoking raw user row
          (some "instant_use")
          booking.0
        ≡ ok b)
  unfolding row select_one
  response =
      let window = instant_window-holds clock.booking host_id db.reservations in
      response_grants digest settings clock.issuing clock.revoking raw user row booking.0
        (ap (exists_where (λ t. str_eq t.jti (digest raw))) facts.same_tokens ∙ new)
        (ap (λ us. is_none (select_one (λ r. r.id == user.id) us)) facts.same_users
          ∙ not_none (get_user user.id db) known)
        (ap (λ hs. is_none (select_one (λ r. r.id == host_id) hs)) facts.same_hosts
          ∙ ap is_none found)
        (ap (λ rs. is_none (select_one (λ x. x.id == db.next_reservation_id) rs)) facts.rows
          ∙ ground (arith, ==_refl db.next_reservation_id))
        (ground (arith, ==_refl user.id)) _ _ refl (some "instant_use") refl
        (omega (arith, window.0)) soon

  -- The endpoint of instant use goes through, its commit included, answers with a connect token and
  -- leaves the host in use, for an idle host and a user who is in the database and within the quota,
  -- if every active reservation of the host is over or is a confirmed one yet to start, the digest of
  -- the raw token is new, the token is issued no earlier than the window is computed and before it
  -- ends, and the request's id and the rows that the audit log already has fit their columns.
  pub instant_use_grants :
      (b : ConnectResponse × Db) × (committed
          (instant_reservation_endpoint digest settings clock raw user host_id)
          db
        ≡ ok b)
      × IsOccupied host_id b.1
  unfolding instant_reservation_endpoint row
  instant_use_grants =
      let kept = same_hosts digest settings _ _ raw user row _ booking.0 response.0 response.1 in
      let here : get_host host_id response.0.1 ≡ some h =
        ap (select_one (λ x. x.id == host_id)) (kept ∙ facts.same_hosts) ∙ found in
      let (after, done, occupied) =
        occupy_host-IsOccupied clock.transition host_id response.0.1 h here in
      let through : instant_reservation_endpoint digest settings clock raw user host_id db
          ≡ ok (response.0.0, after) =
        ground (arith, booking.1, response.1, here, done) in
      let booked_log =
        instant-IsStorable settings clock.booking clock.quota user host_id db (row, booking.0)
          booking.1 kept_log in
      let issued_log =
        response-IsStorable digest settings _ _ raw user row (some "instant_use") booking.0
          response.0 response.1 plain_text booked_log in
      (
        (response.0.0, after),
        committed_of (instant_reservation_endpoint digest settings clock raw user host_id) db
            (response.0.0, after) through
            (occupy-IsStorable clock.transition (some h) response.0.1 after done issued_log),
        occupied,
      )
