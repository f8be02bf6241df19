-- ===== src/Tokens/Examples.antt =====
-- The theorems on tokens at work: a ticket to the lesson, an agent's token, a session.
use smart_classroom.Prelude.{
  ℕ, ◌≡◌, ◌≢◌, refl, none, some, String, ◌+◌, ◌*◌, select_one, update_where, count_where,
  exists_where,
}
use smart_classroom.Domain.Settings.{default_settings}
use smart_classroom.Domain.Time.{day}
use smart_classroom.Domain.Rows.{User, Token, agent, session}
use smart_classroom.Domain.Db.{Db, Result, ok}
use smart_classroom.Samples.{
  at, tagged, student, lab_pc, lesson, ticket, classroom, with_ticket, db_of,
}
use smart_classroom.Reservation.Access.{assert_can_access, reservation_bounds}
use smart_classroom.Tokens.Store.{insert_token, revoke_where}
use smart_classroom.Tokens.Connect.{
  issue_connect_token, revoke_active_tokens_for_reservation, verify_connect_token,
}
use smart_classroom.Tokens.Agent.{issue_agent_token, revoke_active_agent_tokens}
use smart_classroom.Tokens.Session.{
  issue_session, verify_session, revoke_session, revoke_all_sessions_for_user, join_active_user,
}
use smart_classroom.Tokens.Issuing.{Issued, issue-Issued}

-- A second ticket, which ends the first.
abbrev issuing : Result ((Token × ℕ) × Db)
issuing =
    issue_connect_token tagged default_settings (at 21) (at 21) "new" student lesson with_ticket

abbrev second_ticket : Token
second_ticket = record ticket { id = 2; jti = "new"; issued_at = at 21 }

issued : issuing ≡ ok ((second_ticket, 1), db_of issuing)
unfolding issue_connect_token assert_can_access reservation_bounds
    revoke_active_tokens_for_reservation revoke_where insert_token update_where count_where
    exists_where select_one
issued = refl

issue-Issued_example :
    Issued tagged default_settings
      (at 21)
      (at 21)
      "new"
      student
      lesson
      with_ticket
      second_ticket
      1
      (db_of issuing)
issue-Issued_example =
    issue-Issued tagged default_settings (at 21) (at 21) "new" student lesson with_ticket
      (db_of issuing) second_ticket 1 issued

abbrev new_raw : String
new_raw = "new"

filled : new_raw ≢ ""
filled e = cc

-- The ticket at the door.
ticket_valid : verify_connect_token tagged (at 20) "raw" with_ticket ≡ some ticket
unfolding verify_connect_token select_one
ticket_valid = refl

-- The agent of the host.
abbrev enrolling : Result ((Token × ℕ) × Db)
enrolling = issue_agent_token tagged default_settings (at 0) (at 0) "new" lab_pc student classroom

abbrev agent_token : Token
agent_token = record ticket {
  jti = "new";
  reservation_id = none;
  purpose = agent;
  issued_at = at 0;
  expires_at = at 0 + 3650 * day;
}

enrolled : enrolling ≡ ok ((agent_token, 0), db_of enrolling)
unfolding issue_agent_token revoke_active_agent_tokens revoke_where insert_token update_where
    count_where exists_where select_one
enrolled = refl

-- A session of the student, and both ways out.
abbrev signing_in : Result (Token × Db)
signing_in = issue_session tagged (at 0) "new" student 28800 classroom

abbrev session_row : Token
session_row = record ticket {
  jti = "new";
  host_id = none;
  reservation_id = none;
  purpose = session;
  issued_at = at 0;
  expires_at = at 16;
}

signed_in : signing_in ≡ ok (session_row, db_of signing_in)
unfolding issue_session insert_token exists_where select_one
signed_in = refl

abbrev signing_out : Result (ℕ × Db)
signing_out = revoke_session tagged (at 6) "new" (db_of signing_in)

signed_out : signing_out ≡ ok (1, db_of signing_out)
unfolding issue_session insert_token exists_where revoke_session revoke_where update_where
    count_where select_one
signed_out = refl

abbrev other : User
other = record student { id = 2; external_id = "s2" }

-- The single logout of another user leaves the student signed in.
abbrev others_out : Result (ℕ × Db)
others_out = revoke_all_sessions_for_user (at 6) 2 (db_of signing_in)

revoked_all : others_out ≡ ok (0, db_of others_out)
unfolding issue_session insert_token exists_where revoke_all_sessions_for_user revoke_where
    update_where count_where select_one
revoked_all = refl

still_in : verify_session tagged (at 7) "new" (db_of others_out) ≡ some student
unfolding issue_session insert_token exists_where revoke_all_sessions_for_user revoke_where
    update_where count_where verify_session join_active_user select_one
still_in = refl
