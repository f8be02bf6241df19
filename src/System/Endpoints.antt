-- ===== src/System/Endpoints.antt =====
-- Each endpoint of broker/app/api/v1 keeps the invariant of the database.
use smart_classroom.Prelude.{ℕ, Bool, true, false, Option, none, some, arith, String}
use smart_classroom.Domain.Time.{DateTime}
use smart_classroom.Domain.Settings.{Settings}
use smart_classroom.Domain.Rows.{User, Host, Reservation, Token, HostStatus}
use smart_classroom.Hosts.Status.{transition_host}
use smart_classroom.Pairing.Push.{
  Reply, Outcome, paired, host_not_pairable, pairing_unreachable, pairing_rejected,
}
use smart_classroom.Api.Reservations.{
  transition_quietly, create_reservation_endpoint, issue_connect_token_response, occupy_host,
  InstantClock, instant_reservation_endpoint, release_host, cancel_reservation_endpoint,
  connect_token_endpoint,
}
use smart_classroom.Api.Tokens.{answer_token, answer_found, verify_token_endpoint}
use smart_classroom.Api.Pairing.{
  fail_pairing, conclude, pair_host, find_host, for_reservation, for_token, pairing_endpoint,
}
use smart_classroom.Api.Hosts.{
  HostCreate, insert_host, create_host_endpoint, rotate_agent_token_endpoint,
  set_sunshine_token_endpoint,
}
use smart_classroom.Api.Mock.{CallbackRequest, Verified, identified, refused}
use smart_classroom.Api.SignIn.{answer_callback, mock_callback}
use smart_classroom.Api.Login.{UserIdentity, upsert_row, upsert_user, complete_login, logout}
use smart_classroom.System.Growing.{quietly-Grows, insert_host-Grows, sunshine-Grows}
use smart_classroom.System.Invariant.{Keeps, Inv-frame, Inv-hosts, keeps_rules}
use smart_classroom.System.Services.{
  Keeps-create_reservation, Keeps-create_instant, Keeps-cancel_reservation, Keeps-get_reservation,
  Keeps-issue_connect_token, Keeps-issue_agent_token, Keeps-issue_session, Keeps-revoke_session,
  Keeps-mark_consumed,
}

ruleset service_rules = (
  keeps_rules, Keeps-create_reservation, Keeps-create_instant, Keeps-cancel_reservation,
  Keeps-get_reservation, Keeps-issue_connect_token, Keeps-issue_agent_token, Keeps-issue_session,
  Keeps-revoke_session, Keeps-mark_consumed,
)

Keeps-transition :
    (host : Host) (status : HostStatus) (reason : String) (now : ℕ)
    → Keeps (transition_quietly host status reason now)
unfolding transition_quietly transition_host
Keeps-transition host status reason now = record {
  keeps = λ db db' b v e.
      Inv-hosts v (quietly-Grows host status reason now db db' b e) (ground arith) (ground arith)
        (ground arith);
}

pub Keeps-create_endpoint :
    (settings : Settings) (t u : ℕ) (user : User) (host_id : ℕ) (s e : DateTime)
    → Keeps (create_reservation_endpoint settings t u user host_id s e)
unfolding create_reservation_endpoint
Keeps-create_endpoint settings t u user host_id s e = search service_rules depth 16

Keeps-response :
    (digest : String → String) (settings : Settings) (now revoking : ℕ) (raw : String) (user : User)
    (r : Reservation) (client : Option String)
    → Keeps (issue_connect_token_response digest settings now revoking raw user r client)
unfolding issue_connect_token_response
Keeps-response digest settings now revoking raw user r client = search service_rules depth 16

Keeps-occupy : (now : ℕ) (host : Option Host) → Keeps (occupy_host now host)
unfolding occupy_host
Keeps-occupy now none = search service_rules
Keeps-occupy now (some host) = search (service_rules, Keeps-transition)

pub Keeps-instant_endpoint :
    (digest : String → String) (settings : Settings) (clock : InstantClock) (raw : String)
    (user : User) (host_id : ℕ)
    → Keeps (instant_reservation_endpoint digest settings clock raw user host_id)
unfolding instant_reservation_endpoint
Keeps-instant_endpoint digest settings clock raw user host_id =
    search (service_rules, Keeps-response, Keeps-occupy) depth 16

Keeps-release : (now : ℕ) (host : Option Host) → Keeps (release_host now host)
unfolding release_host
Keeps-release now none = search service_rules
Keeps-release now (some host) = search (service_rules, Keeps-transition) depth 8

pub Keeps-cancel_endpoint :
    (t now : ℕ) (user : User) (i : ℕ) → Keeps (cancel_reservation_endpoint t now user i)
unfolding cancel_reservation_endpoint
Keeps-cancel_endpoint t now user i = search (service_rules, Keeps-release) depth 8

pub Keeps-connect_endpoint :
    (digest : String → String) (settings : Settings) (now revoking : ℕ) (raw : String) (user : User)
    (i : ℕ) (client : Option String)
    → Keeps (connect_token_endpoint digest settings now revoking raw user i client)
unfolding connect_token_endpoint
Keeps-connect_endpoint digest settings now revoking raw user i client =
    search (service_rules, Keeps-response) depth 8

Keeps-answer_token :
    (now : ℕ) (consume : Bool) (token : Token) → Keeps (answer_token now consume token)
unfolding answer_token
Keeps-answer_token now true token = search service_rules depth 8
Keeps-answer_token now false token = search service_rules depth 8

Keeps-answer_found :
    (now : ℕ) (consume : Bool) (token : Option Token) → Keeps (answer_found now consume token)
unfolding answer_found
Keeps-answer_found now consume none = search service_rules
Keeps-answer_found now consume (some token) = Keeps-answer_token now consume token

pub Keeps-verify_endpoint :
    (digest : String → String) (now t : ℕ) (raw : String) (consume : Bool)
    → Keeps (verify_token_endpoint digest now t raw consume)
unfolding verify_token_endpoint
Keeps-verify_endpoint digest now t raw consume = search (service_rules, Keeps-answer_found)

Keeps-conclude :
    (o : Outcome) (token : Token) (host : Host) (i : ℕ) → Keeps (conclude o token host i)
unfolding conclude fail_pairing
Keeps-conclude (paired n) token host i = search service_rules
Keeps-conclude host_not_pairable token host i = search service_rules
Keeps-conclude (pairing_unreachable x n) token host i = search service_rules
Keeps-conclude (pairing_rejected x n) token host i = search service_rules

Keeps-pair_host :
    (settings : Settings) (replies : ℕ → Reply) (token : Token) (i : ℕ) (host : Option Host)
    → Keeps (pair_host settings replies token i host)
unfolding pair_host
Keeps-pair_host settings replies token i none = search service_rules
Keeps-pair_host settings replies token i (some host) = Keeps-conclude _ token host i

Keeps-find_host : (i : Option ℕ) → Keeps (find_host i)
Keeps-find_host none = search service_rules
Keeps-find_host (some i) = search service_rules

Keeps-for_reservation :
    (settings : Settings) (replies : ℕ → Reply) (token : Token) (i : Option ℕ)
    → Keeps (for_reservation settings replies token i)
Keeps-for_reservation settings replies token none = search service_rules
Keeps-for_reservation settings replies token (some i) =
    search (service_rules, Keeps-find_host, Keeps-pair_host)

Keeps-for_token :
    (settings : Settings) (replies : ℕ → Reply) (token : Option Token)
    → Keeps (for_token settings replies token)
Keeps-for_token settings replies none = search service_rules
Keeps-for_token settings replies (some token) = Keeps-for_reservation settings replies token _

pub Keeps-pairing_endpoint :
    (digest : String → String) (settings : Settings) (now : ℕ) (raw : String) (replies : ℕ → Reply)
    → Keeps (pairing_endpoint digest settings now raw replies)
unfolding pairing_endpoint
Keeps-pairing_endpoint digest settings now raw replies = search (service_rules, Keeps-for_token)

Keeps-insert_host : (payload : HostCreate) → Keeps (insert_host payload)
unfolding insert_host
Keeps-insert_host payload = record {
  keeps = λ db db' b v e.
      Inv-hosts v (insert_host-Grows payload db db' b e) (ground arith) (ground arith)
        (ground arith);
}

pub Keeps-create_host :
    (digest : String → String) (settings : Settings) (revoking now : ℕ) (raw : String)
    (payload : HostCreate) (admin : User)
    → Keeps (create_host_endpoint digest settings revoking now raw payload admin)
unfolding create_host_endpoint
Keeps-create_host digest settings revoking now raw payload admin =
    search (service_rules, Keeps-insert_host)

pub Keeps-rotate :
    (digest : String → String) (settings : Settings) (revoking now : ℕ) (raw : String) (host_id : ℕ)
    (admin : User)
    → Keeps (rotate_agent_token_endpoint digest settings revoking now raw host_id admin)
unfolding rotate_agent_token_endpoint
Keeps-rotate digest settings revoking now raw host_id admin = search service_rules depth 8

pub Keeps-sunshine : (host_id : ℕ) (t : String) → Keeps (set_sunshine_token_endpoint host_id t)
unfolding set_sunshine_token_endpoint
Keeps-sunshine host_id t = record {
  keeps = λ db db' b v e.
      Inv-hosts v (sunshine-Grows host_id t db db' b e) (ground arith) (ground arith)
        (ground arith);
}

Keeps-upsert_row : (i : UserIdentity) (u : Option User) → Keeps (upsert_row i u)
unfolding upsert_row
Keeps-upsert_row i none = record {
  keeps = λ db db' b v e. Inv-frame v (ground arith) (ground arith) (ground arith) (ground arith);
}
Keeps-upsert_row i (some u) = record {
  keeps = λ db db' b v e. Inv-frame v (ground arith) (ground arith) (ground arith) (ground arith);
}

Keeps-upsert_user : (i : UserIdentity) → Keeps (upsert_user i)
unfolding upsert_user
Keeps-upsert_user i = search (service_rules, Keeps-upsert_row) depth 8

pub Keeps-login :
    (digest : String → String) (settings : Settings) (now : ℕ) (raw : String) (i : UserIdentity)
    → Keeps (complete_login digest settings now raw i)
unfolding complete_login
Keeps-login digest settings now raw i = search (service_rules, Keeps-upsert_user) depth 8

pub Keeps-logout :
    (digest : String → String) (now : ℕ) (raw : String) (i : Option ℕ) (provider : String)
    → Keeps (logout digest now raw i provider)
unfolding logout
Keeps-logout digest now raw i provider = search service_rules depth 8

Keeps-answer_callback :
    (digest : String → String) (settings : Settings) (now : ℕ) (raw : String)
    (v : Verified UserIdentity)
    → Keeps (answer_callback digest settings now raw v)
unfolding answer_callback
Keeps-answer_callback digest settings now raw (refused fault) = search service_rules depth 8
Keeps-answer_callback digest settings now raw (identified i) =
    search (service_rules, Keeps-login) depth 8

pub Keeps-mock_callback :
    (digest : String → String) (settings : Settings) (now : ℕ) (raw : String)
    (request : CallbackRequest)
    → Keeps (mock_callback digest settings now raw request)
unfolding mock_callback
Keeps-mock_callback digest settings now raw request =
    search (service_rules, Keeps-answer_callback) depth 8
