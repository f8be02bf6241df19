-- ===== src/System/Examples.antt =====
-- A run of the broker: a student signs in, a host is enrolled, and a lesson is booked on it.
use smart_classroom.Api.Schemas.{pos, validate_heartbeat}
use smart_classroom.Agent.Session.{disconnected}
use smart_classroom.System.Delivery.{AgentPayload, request_of}
use smart_classroom.System.Delivery.Fitting.{Fits, request_of-Fits}
use smart_classroom.Prelude.{
  codes, true, [], ◌↔◌, ◌≡◌, ◌<◌, refl, inl, inr, none, some, select_one, select_where,
  update_where, count_where, exists_where, ◌+◌, ◌*◌, ◌==◌, arith, if◌then◌else◌,
}
use smart_classroom.Domain.Time.{utc, is_grid_aligned, day}
use smart_classroom.Domain.Range.{tstzrange}
use smart_classroom.Domain.Settings.{default_settings}
use smart_classroom.Domain.Rows.{Token, user, session, agent}
use smart_classroom.Domain.Db.{Db, ok, committed}
use smart_classroom.Domain.Audit.{all_storable, has_nul}
use smart_classroom.System.Storing.{IsStorable}
use smart_classroom.Samples.{at, tagged, student, lab_pc, lesson, ticket, with_lesson, db_of}
use smart_classroom.Reservation.Window.{validate_window, validate_host_exists}
use smart_classroom.Reservation.Quota.{
  validate_quota, clipped_minutes, used_minutes, concurrent_count, daily_usage,
}
use smart_classroom.Reservation.Booking.{
  insert_reservation, book, create_reservation, instant_window, next_reservation_start,
}
use smart_classroom.Reservation.Policy.{IsWithinQuota}
use smart_classroom.Reservation.InstantBooking.{window_for}
use smart_classroom.System.InstantUse.{IsOccupied, instant_use_grants}
use smart_classroom.Tokens.Store.{insert_token, revoke_where}
use smart_classroom.Tokens.Agent.{issue_agent_token, revoke_active_agent_tokens}
use smart_classroom.Tokens.Session.{issue_session}
use smart_classroom.Tokens.Connect.{
  issue_connect_token, verify_connect_token, revoke_active_tokens_for_reservation,
}
use smart_classroom.Tokens.Agent.{verify_agent_token}
use smart_classroom.Reservation.Access.{get_reservation, assert_can_access, reservation_bounds}
use smart_classroom.Api.Reservations.{
  create_reservation_endpoint, connect_token_endpoint, issue_connect_token_response,
  ConnectResponse, InstantClock, instant_reservation_endpoint,
}
use smart_classroom.Api.Hosts.{HostCreate, host_from, insert_host, create_host_endpoint}
use smart_classroom.Api.Login.{UserIdentity, upsert_row, upsert_user, complete_login}
use smart_classroom.System.Invariant.{Inv}
use smart_classroom.Hosts.Monitor.{Rounds, run_monitor_loop}
use smart_classroom.System.Monitoring.{EndsWell, run_monitor_loop-EndsWell}
use smart_classroom.System.Reach.{
  start, commit, log_in, enrol, create, connect_token, Reach, at_start, next, Reach-Inv,
}
use smart_classroom.System.Answers.{Answers}
use smart_classroom.System.Keys.{Reach-connect_key, Reach-agent_key}
use smart_classroom.System.Running.{Reach-alone}

abbrev identity : UserIdentity
identity = record {
  external_id = "s1";
  provider = "mock";
  display_name = "Student";
  email = none;
  role = user;
}

abbrev new_pc : HostCreate
new_pc = record {
  hostname = "lab-1";
  display_name = "Lab 1";
  location = none;
  ip_address = some "10.0.0.5";
  sunshine_port = 47990;
  sunshine_broker_token = some "secret";
  gpu_model = none;
}

abbrev cookie_row : Token
cookie_row = record ticket {
  jti = "cookie";
  host_id = none;
  reservation_id = none;
  purpose = session;
  issued_at = at 16;
  expires_at = at 32;
}

abbrev agent_row : Token
agent_row = record ticket {
  id = 2;
  jti = "agent";
  reservation_id = none;
  purpose = agent;
  issued_at = at 17;
  expires_at = at 17 + 3650 * day;
}

abbrev db1 : Db
db1 = db_of (complete_login tagged default_settings (at 16) "cookie" identity start.db)

abbrev db2 : Db
db2 =
    db_of (create_host_endpoint tagged default_settings (at 17) (at 17) "agent" new_pc student db1)

abbrev db3 : Db
db3 = db_of (
    create_reservation_endpoint default_settings (at 18) (at 18) student 1 (utc (at 20))
      (utc (at 22)) db2)

signed_in :
    complete_login tagged default_settings (at 16) "cookie" identity start.db
    ≡ ok ((student, cookie_row), db1)
unfolding complete_login upsert_user upsert_row issue_session insert_token select_one exists_where
signed_in = refl

enrolled :
    create_host_endpoint tagged default_settings (at 17) (at 17) "agent" new_pc student db1
    ≡ ok ((host_from 1 new_pc, agent_row, 0), db2)
unfolding complete_login upsert_user upsert_row issue_session insert_token select_one exists_where
    create_host_endpoint insert_host issue_agent_token revoke_active_agent_tokens revoke_where
    update_where count_where
enrolled = refl

booked :
    create_reservation_endpoint default_settings
      (at 18)
      (at 18)
      student
      1
      (utc (at 20))
      (utc (at 22))
      db2
    ≡ ok (lesson, db3)
unfolding complete_login upsert_user upsert_row issue_session insert_token select_one exists_where
    create_host_endpoint insert_host issue_agent_token revoke_active_agent_tokens revoke_where
    update_where count_where create_reservation_endpoint create_reservation validate_window
    validate_host_exists validate_quota concurrent_count daily_usage used_minutes clipped_minutes
    book insert_reservation tstzrange is_grid_aligned select_where
booked = refl

lesson_reached : Reach tagged default_settings (commit start db3)
lesson_reached =
    next
      (next (next at_start (log_in (at 16) "cookie" identity (student, cookie_row) signed_in))
        (enrol (at 17) (at 17) "agent" new_pc student (host_from 1 new_pc, agent_row, 0) enrolled))
      (create (at 18) (at 18) student 1 (utc (at 20)) (utc (at 22)) lesson booked)

Reach-Inv_example : Inv db3
Reach-Inv_example = Reach-Inv tagged default_settings lesson_reached

Reach-alone_example : lesson ≡ lesson
unfolding complete_login upsert_user upsert_row issue_session insert_token select_one exists_where
    create_host_endpoint insert_host issue_agent_token revoke_active_agent_tokens revoke_where
    update_where count_where create_reservation_endpoint create_reservation validate_window
    validate_host_exists validate_quota concurrent_count daily_usage used_minutes clipped_minutes
    book insert_reservation tstzrange is_grid_aligned select_where
Reach-alone_example =
    Reach-alone tagged default_settings (commit start db3) 1 (at 21) lesson lesson lesson_reached
      (inl refl) (inl refl) (record { active = refl; place = refl; covering = refl })
      (record { active = refl; place = refl; covering = refl })

-- Once the lesson has begun the student fetches a key for it.
abbrev db4 : Db
db4 =
    db_of (connect_token_endpoint tagged default_settings (at 20) (at 20) "key" student 1 none db3)

abbrev key_row : Token
key_row = record ticket { id = 3; jti = "key" }

key_issued :
    connect_token_endpoint tagged default_settings (at 20) (at 20) "key" student 1 none db3
    ≡ ok (record { token = key_row; host = host_from 1 new_pc }, db4)
unfolding complete_login upsert_user upsert_row issue_session insert_token select_one exists_where
    create_host_endpoint insert_host issue_agent_token revoke_active_agent_tokens revoke_where
    update_where count_where create_reservation_endpoint create_reservation validate_window
    validate_host_exists validate_quota concurrent_count daily_usage used_minutes clipped_minutes
    book insert_reservation tstzrange is_grid_aligned select_where connect_token_endpoint
    get_reservation assert_can_access reservation_bounds issue_connect_token_response
    issue_connect_token revoke_active_tokens_for_reservation
key_issued = refl

key_reached : Reach tagged default_settings (commit start db4)
key_reached = next lesson_reached (
    connect_token (at 20) (at 20) "key" student 1 none
      (record { token = key_row; host = host_from 1 new_pc }) key_issued)

key_found : verify_connect_token tagged (at 21) "key" db4 ≡ some key_row
unfolding complete_login upsert_user upsert_row issue_session insert_token select_one exists_where
    create_host_endpoint insert_host issue_agent_token revoke_active_agent_tokens revoke_where
    update_where count_where create_reservation_endpoint create_reservation validate_window
    validate_host_exists validate_quota concurrent_count daily_usage used_minutes clipped_minutes
    book insert_reservation tstzrange is_grid_aligned select_where connect_token_endpoint
    get_reservation assert_can_access reservation_bounds issue_connect_token_response
    issue_connect_token revoke_active_tokens_for_reservation verify_connect_token
key_found = refl

agent_found : verify_agent_token tagged (at 21) "agent" db4 ≡ some agent_row
unfolding complete_login upsert_user upsert_row issue_session insert_token select_one exists_where
    create_host_endpoint insert_host issue_agent_token revoke_active_agent_tokens revoke_where
    update_where count_where create_reservation_endpoint create_reservation validate_window
    validate_host_exists validate_quota concurrent_count daily_usage used_minutes clipped_minutes
    book insert_reservation tstzrange is_grid_aligned select_where connect_token_endpoint
    get_reservation assert_can_access reservation_bounds issue_connect_token_response
    issue_connect_token revoke_active_tokens_for_reservation verify_agent_token
agent_found = refl

Reach-connect_key_example : key_row ≡ key_row
Reach-connect_key_example =
    Reach-connect_key tagged default_settings (commit start db4) (at 21) (at 21) "key" "key" key_row
      key_row 1 key_reached key_found key_found refl refl

Reach-agent_key_example : agent_row ≡ agent_row
Reach-agent_key_example =
    Reach-agent_key tagged default_settings (commit start db4) (at 21) (at 21) "agent" "agent"
      agent_row agent_row 1 key_reached agent_found agent_found refl refl

abbrev at_nine : InstantClock
at_nine = record {
  booking = at 18;
  quota = at 18;
  issuing = at 18;
  revoking = at 18;
  transition = at 18;
}

within_instant :
    IsWithinQuota default_settings
      (at 18)
      student
      (utc (window_for (at 18) 1 with_lesson).0)
      (utc (window_for (at 18) 1 with_lesson).1)
      with_lesson
unfolding concurrent_count daily_usage used_minutes clipped_minutes select_where count_where
    next_reservation_start instant_window
within_instant = record { few = omega arith; brief = omega arith }

open_at_nine : at 18 < (window_for (at 18) 1 with_lesson).1
unfolding next_reservation_start instant_window select_where
open_at_nine = omega arith

with_lesson_stored : IsStorable with_lesson
unfolding all_storable has_nul
with_lesson_stored = record { id = refl; rows = refl }

instant_use_grants_example :
    (b : ConnectResponse × Db) × (committed
        (instant_reservation_endpoint tagged default_settings at_nine "key" student 1)
        with_lesson
      ≡ ok b)
    × IsOccupied 1 b.1
unfolding select_one exists_where
instant_use_grants_example =
    instant_use_grants tagged default_settings at_nine "key" student 1 with_lesson lab_pc refl refl
      (λ e. cc) within_instant ((λ a h. inr refl), tt) refl (omega arith) open_at_nine
      with_lesson_stored

-- Two ticks, the first of which fails, and nothing else.
abbrev quiet : Rounds
quiet = record {
  is_set = λ k. k == 2;
  clock = λ k. at (20 + k);
  failure = λ k. if k == 0 then some (λ events. events) else none;
  meanwhile = λ k w. w;
}

run_monitor_loop-EndsWell_example : EndsWell (run_monitor_loop default_settings quiet 3 start)
run_monitor_loop-EndsWell_example =
    run_monitor_loop-EndsWell default_settings quiet 2 3 start refl (omega arith) (λ k w v. v)
      (Reach-Inv tagged default_settings at_start)

-- A heartbeat of the new host to the broker that knows its agent's token.
abbrev idle_payload : AgentPayload
idle_payload = record {
  agent_version = codes "0.1.0";
  boot_time = at 15;
  system = record { cpu_pct = 55; mem_pct = 400; uptime_sec = pos 3_600; load_avg = none };
  session = record {
    sunshine_running = true;
    active_user = some (codes "student");
    active_clients = 0;
    connection_state = disconnected;
  };
  gpu = [];
  agent_self_rtt_ms = none;
}

request_of-Fits_example : (validate_heartbeat (request_of idle_payload) ≡ []) ↔ Fits idle_payload
request_of-Fits_example = request_of-Fits idle_payload
