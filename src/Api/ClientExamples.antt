-- ===== src/Api/ClientExamples.antt =====
-- The theorems on signing in, on request bodies and on the availability query, in the small classroom.
use smart_classroom.Prelude.{
  lstrip_string, rstrip_string, ◌<◌, ◌≡◌, ◌≢◌, ◌↔◌, refl, true, false, [], ◌∷◌, none, some, arith,
  List, Option, String, codes, IsIn, select_one, eq_iff, exists_where, select_where, update_where,
  count_where, lower,
}
use smart_classroom.Domain.Time.{utc, is_grid_aligned}
use smart_classroom.Domain.Settings.{default_settings, Settings, cnu_sso}
use smart_classroom.Domain.Rows.{Host, Token, User, is_idle, session}
use smart_classroom.Domain.Db.{Db, Result, ok, err}
use smart_classroom.Samples.{at, student, lab_pc, classroom, with_lesson, tagged, db_of}
use smart_classroom.Tokens.Store.{insert_token, revoke_where}
use smart_classroom.Tokens.Session.{issue_session, revoke_session}
use smart_classroom.Reservation.Window.{validate_window}
use smart_classroom.Reservation.Available.{list_slot_available_hosts, order_by_id, insert_by_id}
use smart_classroom.Api.Auth.{granted, denied, unauthenticated, get_current_user, require_admin}
use smart_classroom.Api.Login.{upsert_row, upsert_user, complete_login, logout}
use smart_classroom.Api.Mock.{
  CallbackRequest, not_json, bad_json, starts_with, contains, data_get, role_of, identity_of,
  verify_callback, get_active_provider, build_provider,
}
use smart_classroom.Api.SignIn.{
  SignIn, signed_in, bad_request, answer_callback, mock_callback, session_user,
}
use smart_classroom.Api.SignIn.Sessions.{logout-denied, mock_callback-session}
use smart_classroom.Api.Requests.{ReservationCreate, valid, validate_reservation_create}
use smart_classroom.Api.Requests.Windows.{is_misshapen, validate_reservation_create-validate_window}
use smart_classroom.Api.Queries.{HostAvailable, ensure_grid_aligned, list_available_hosts_endpoint}
use smart_classroom.Api.Queries.Availability.{is_booked, list_available_hosts_endpoint-slot}

-- A form with the student's number and a name, and a body that is no JSON.
abbrev form_request : CallbackRequest
form_request = record {
  content_type = none;
  body = not_json;
  form = ("external_id", some " s1 ") ∷ ("display_name", some "Student") ∷ [];
}

abbrev broken_request : CallbackRequest
broken_request = record {
  content_type = some (codes "Application/JSON");
  body = not_json;
  form = [];
}

abbrev sign_in : Result (SignIn × Db)
sign_in = mock_callback tagged default_settings (at 0) "cookie" form_request classroom

abbrev session_of : Result (SignIn × Db) → Option (User × Token)
session_of (ok (signed_in account token, db)) = some (account, token)
session_of (ok (bad_request fault, db)) = none
session_of (err e) = none

abbrev new_session : Token
new_session = record {
  id = 1;
  jti = "cookie";
  user_id = 1;
  host_id = none;
  reservation_id = none;
  purpose = session;
  issued_at = at 0;
  expires_at = at 16;
  consumed_at = none;
  revoked_at = none;
}

entered : sign_in ≡ ok (signed_in student new_session, db_of sign_in)
unfolding mock_callback get_active_provider build_provider verify_callback identity_of data_get
    lstrip_string rstrip_string role_of answer_callback complete_login upsert_user upsert_row
    issue_session insert_token select_one update_where exists_where
entered = refl

filled : let raw : String = "cookie" in raw ≢ ""
filled e = ground (arith, eq_iff "cookie" "")

mock_callback-session_example :
    get_current_user (session_user tagged (at 5) (some "cookie") (db_of sign_in)) ≡ granted student
unfolding mock_callback get_active_provider build_provider verify_callback identity_of data_get
    lstrip_string rstrip_string role_of answer_callback complete_login upsert_user upsert_row
    issue_session insert_token select_one update_where exists_where
mock_callback-session_example =
    mock_callback-session tagged default_settings (at 0) (at 5) "cookie" form_request student
      student new_session classroom (db_of sign_in) entered filled (omega arith) refl

abbrev leaving : Result (Unit {0} × Db)
leaving = logout tagged (at 6) "cookie" (some 1) "mock" (db_of sign_in)

left : leaving ≡ ok (tt, db_of leaving)
unfolding logout revoke_session revoke_where mock_callback get_active_provider build_provider
    verify_callback identity_of data_get lstrip_string rstrip_string role_of answer_callback
    complete_login upsert_user upsert_row issue_session insert_token select_one update_where
    exists_where count_where
left = refl

logout-denied_example :
    (get_current_user (session_user tagged (at 7) (some "cookie") (db_of leaving))
      ≡ denied unauthenticated)
    × (require_admin (session_user tagged (at 7) (some "cookie") (db_of leaving))
        ≡ denied unauthenticated)
logout-denied_example =
    logout-denied tagged (at 6) (at 7) "cookie" "mock" (some 1) (db_of sign_in) (db_of leaving) left

abbrev refusal : Result (SignIn × Db)
refusal = mock_callback tagged default_settings (at 0) "cookie" broken_request classroom

turned_away : refusal ≡ ok (bad_request bad_json, db_of refusal)
unfolding mock_callback get_active_provider build_provider verify_callback contains starts_with
    lower answer_callback
turned_away = refl

abbrev sso_settings : Settings
sso_settings = record default_settings { auth_provider = cnu_sso }

abbrev lesson_request : ReservationCreate
lesson_request = record { host_id = 1; starts_at = utc (at 20); ends_at = utc (at 22) }

validate_reservation_create-validate_window_example :
    (validate_reservation_create lesson_request ≡ valid lesson_request) ↔ (
      (0 < 1)
      × (is_misshapen
            (validate_window default_settings (at 18) (utc (at 20)) (utc (at 22)) classroom)
          ≡ false))
validate_reservation_create-validate_window_example =
    validate_reservation_create-validate_window default_settings (at 18) lesson_request classroom
      refl

abbrev listing : Result (List HostAvailable × Db)
listing =
    list_available_hosts_endpoint (at 18) (some (utc (at 22))) (some (utc (at 24))) with_lesson

listed : listing ≡ ok ((lab_pc, none) ∷ [], with_lesson)
unfolding list_available_hosts_endpoint ensure_grid_aligned list_slot_available_hosts order_by_id
    insert_by_id select_where exists_where
listed = refl

list_available_hosts_endpoint-slot_example :
    (with_lesson ≡ with_lesson)
    × (at 22 < at 24)
    × (is_grid_aligned (utc (at 22)) 30 ≡ true)
    × (is_grid_aligned (utc (at 24)) 30 ≡ true)
    × ((h : Host)
        → IsIn {A = HostAvailable} (h, none) ((lab_pc, none) ∷ []) ↔ (
            IsIn h with_lesson.hosts
            × (is_idle h.status ≡ true)
            × (is_booked (at 22) (at 24) h with_lesson ≡ false)))
list_available_hosts_endpoint-slot_example =
    list_available_hosts_endpoint-slot (at 18) (utc (at 22)) (utc (at 24)) with_lesson with_lesson
      ((lab_pc, none) ∷ []) listed
