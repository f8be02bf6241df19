-- ===== src/System/Reach.antt =====
-- The broker as a step relation: each request, heartbeat and tick of the monitor is one step, in any
-- order and with any readings of the clock, from the empty database on. A request that fails is
-- rolled back, so it is no step, and neither is one whose commit is refused. Requests run one after
-- another, each as one transaction.
use smart_classroom.Prelude.{ℕ, ◌≡◌, Bool, List, [], ◌∷◌, Option, none, arith, String}
use smart_classroom.Domain.Time.{DateTime}
use smart_classroom.Domain.Settings.{Settings}
use smart_classroom.Domain.Rows.{User, Host, Reservation, Token, Metadata, HostStatus}
use smart_classroom.Domain.Db.{Db, ok}
use smart_classroom.Hosts.Events.{new_broker}
use smart_classroom.Hosts.Status.{World, transition_host}
use smart_classroom.Hosts.Monitor.{take_offline, run_one_tick}
use smart_classroom.Pairing.Push.{Reply}
use smart_classroom.Api.Reservations.{
  create_reservation_endpoint, InstantClock, ConnectResponse, instant_reservation_endpoint,
  cancel_reservation_endpoint, connect_token_endpoint,
}
use smart_classroom.Api.Tokens.{VerifyResponse, verify_token_endpoint}
use smart_classroom.Api.Pairing.{PairingResponse, pairing_endpoint}
use smart_classroom.Api.Hosts.{
  HostCreate, create_host_endpoint, rotate_agent_token_endpoint, set_sunshine_token_endpoint,
}
use smart_classroom.Api.Mock.{CallbackRequest}
use smart_classroom.Api.SignIn.{SignIn, mock_callback}
use smart_classroom.Api.Login.{UserIdentity, complete_login, logout}
use smart_classroom.Api.Agents.{heartbeat_endpoint}
use smart_classroom.System.Growing.{heartbeat-Grows, transition-Grows}
use smart_classroom.System.Invariant.{Inv, Inv-hosts}
use smart_classroom.System.Endpoints.{
  Keeps-create_endpoint, Keeps-instant_endpoint, Keeps-cancel_endpoint, Keeps-connect_endpoint,
  Keeps-verify_endpoint, Keeps-pairing_endpoint, Keeps-create_host, Keeps-rotate, Keeps-sunshine,
  Keeps-login, Keeps-mock_callback, Keeps-logout,
}

-- The database as the migrations leave it; sequences begin at 1.
abbrev pub empty_db : Db
empty_db = record {
  users = [];
  hosts = [];
  reservations = [];
  tokens = [];
  audit_logs = [];
  next_user_id = 1;
  next_host_id = 1;
  next_reservation_id = 1;
  next_token_id = 1;
  request_id = none;
}

abbrev pub start : World
start = record { db = empty_db; events = new_broker }

-- The session of the next request, which binds its own id.
abbrev pub serving : Option String → Db → Db
serving id db = record db { request_id = id }

abbrev pub commit : World → Db → World
commit w db' = record w { db = db' }

pub data Step (digest : String → String) (settings : Settings) : World → World → Type 0 where
  create :
      {w : World} {db' : Db} (t u : ℕ) (user : User) (host_id : ℕ) (s e : DateTime)
      (r : Reservation)
      → create_reservation_endpoint settings t u user host_id s e w.db ≡ ok (r, db')
      → Step digest settings w (commit w db')
  instant_use :
      {w : World} {db' : Db} (clock : InstantClock) (raw : String) (user : User) (host_id : ℕ)
      (r : ConnectResponse)
      → instant_reservation_endpoint digest settings clock raw user host_id w.db ≡ ok (r, db')
      → Step digest settings w (commit w db')
  cancel :
      {w : World} {db' : Db} (t now : ℕ) (user : User) (i : ℕ)
      → cancel_reservation_endpoint t now user i w.db ≡ ok (tt, db')
      → Step digest settings w (commit w db')
  connect_token :
      {w : World} {db' : Db} (now t : ℕ) (raw : String) (user : User) (i : ℕ)
      (client : Option String) (r : ConnectResponse)
      → connect_token_endpoint digest settings now t raw user i client w.db ≡ ok (r, db')
      → Step digest settings w (commit w db')
  verify_token :
      {w : World} {db' : Db} (now t : ℕ) (raw : String) (consume : Bool) (r : VerifyResponse)
      → verify_token_endpoint digest now t raw consume w.db ≡ ok (r, db')
      → Step digest settings w (commit w db')
  pair :
      {w : World} {db' : Db} (now : ℕ) (raw : String) (replies : ℕ → Reply) (r : PairingResponse)
      → pairing_endpoint digest settings now raw replies w.db ≡ ok (r, db')
      → Step digest settings w (commit w db')
  enrol :
      {w : World} {db' : Db} (t now : ℕ) (raw : String) (payload : HostCreate) (admin : User)
      (r : Host × Token × ℕ)
      → create_host_endpoint digest settings t now raw payload admin w.db ≡ ok (r, db')
      → Step digest settings w (commit w db')
  rotate :
      {w : World} {db' : Db} (t now : ℕ) (raw : String) (host_id : ℕ) (admin : User)
      (r : Host × Token × ℕ)
      → rotate_agent_token_endpoint digest settings t now raw host_id admin w.db ≡ ok (r, db')
      → Step digest settings w (commit w db')
  set_broker_token :
      {w : World} {db' : Db} (host_id : ℕ) (value : String) (r : Host)
      → set_sunshine_token_endpoint host_id value w.db ≡ ok (r, db')
      → Step digest settings w (commit w db')
  log_in :
      {w : World} {db' : Db} (now : ℕ) (raw : String) (i : UserIdentity) (r : User × Token)
      → complete_login digest settings now raw i w.db ≡ ok (r, db')
      → Step digest settings w (commit w db')
  call_back :
      {w : World} {db' : Db} (now : ℕ) (raw : String) (request : CallbackRequest) (r : SignIn)
      → mock_callback digest settings now raw request w.db ≡ ok (r, db')
      → Step digest settings w (commit w db')
  log_out :
      {w : World} {db' : Db} (now : ℕ) (raw : String) (i : Option ℕ) (provider : String)
      → logout digest now raw i provider w.db ≡ ok (tt, db')
      → Step digest settings w (commit w db')
  heartbeat :
      {w : World} (now : ℕ) (report : Metadata) (host : Host)
      → Step digest settings w (heartbeat_endpoint settings now report host w).1
  next_request :
      {w : World} (id : Option String) → Step digest settings w (commit w (serving id w.db))
  tick : {w : World} (now : ℕ) → Step digest settings w (run_one_tick settings now w).1

pub data Reach (digest : String → String) (settings : Settings) : World → Type 0 where
  at_start : Reach digest settings start
  next :
      {w w' : World}
      → Reach digest settings w
      → Step digest settings w w'
      → Reach digest settings w'

heartbeat-Inv :
    (settings : Settings) (now : ℕ) (report : Metadata) (host : Host) (w : World)
    → Inv w.db
    → Inv (heartbeat_endpoint settings now report host w).1.db
unfolding heartbeat_endpoint transition_host
heartbeat-Inv settings now report host w v =
    Inv-hosts v (heartbeat-Grows settings now report host w) (ground arith) (ground arith)
      (ground arith)

transition-Inv :
    (host : Host) (now : ℕ) (s : HostStatus) (reason : String) (b : Bool) (w : World)
    → Inv w.db
    → Inv (transition_host host s reason b now w).1.db
unfolding transition_host
transition-Inv host now s reason b w v =
    Inv-hosts v (transition-Grows host s reason b now w) (ground arith) (ground arith)
      (ground arith)

offline-Inv :
    (now : ℕ) (rows : List Host) (n : ℕ) (w : World)
    → Inv w.db
    → Inv (take_offline now rows n w).1.db
unfolding take_offline
offline-Inv now [] n w v = v
offline-Inv now (h ∷ rows) n w v = offline-Inv now rows _ _ (transition-Inv h now _ _ _ w v)

pub tick-Inv :
    (settings : Settings) (now : ℕ) (w : World) → Inv w.db → Inv (run_one_tick settings now w).1.db
unfolding run_one_tick
tick-Inv settings now w v = offline-Inv now _ 0 w v

module _ {digest : String → String} {settings : Settings} where
  Step-Inv : {w w' : World} → Step digest settings w w' → Inv w.db → Inv w'.db
  Step-Inv (create t u user host_id s e r h) v =
      (Keeps-create_endpoint settings t u user host_id s e).keeps _ _ r v h
  Step-Inv (instant_use clock raw user host_id r h) v =
      (Keeps-instant_endpoint digest settings clock raw user host_id).keeps _ _ r v h
  Step-Inv (cancel t now user i h) v = (Keeps-cancel_endpoint t now user i).keeps _ _ tt v h
  Step-Inv (connect_token now t raw user i client r h) v =
      (Keeps-connect_endpoint digest settings now t raw user i client).keeps _ _ r v h
  Step-Inv (verify_token now t raw consume r h) v =
      (Keeps-verify_endpoint digest now t raw consume).keeps _ _ r v h
  Step-Inv (pair now raw replies r h) v =
      (Keeps-pairing_endpoint digest settings now raw replies).keeps _ _ r v h
  Step-Inv (enrol t now raw payload admin r h) v =
      (Keeps-create_host digest settings t now raw payload admin).keeps _ _ r v h
  Step-Inv (rotate t now raw host_id admin r h) v =
      (Keeps-rotate digest settings t now raw host_id admin).keeps _ _ r v h
  Step-Inv (set_broker_token host_id value r h) v = (Keeps-sunshine host_id value).keeps _ _ r v h
  Step-Inv (log_in now raw i r h) v = (Keeps-login digest settings now raw i).keeps _ _ r v h
  Step-Inv (call_back now raw request r h) v =
      (Keeps-mock_callback digest settings now raw request).keeps _ _ r v h
  Step-Inv (log_out now raw i provider h) v =
      (Keeps-logout digest now raw i provider).keeps _ _ tt v h
  Step-Inv {w = w} (heartbeat now report host) v = heartbeat-Inv settings now report host w v
  Step-Inv (next_request id) v = record {
    no_overlap = v.no_overlap;
    placed = v.placed;
    unique_keys = v.unique_keys;
    exclusive = v.exclusive;
  }
  Step-Inv {w = w} (tick now) v = tick-Inv settings now w v

-- In every state that the broker reaches, no two active reservations of a host overlap, each
-- reservation is for a host that exists and over a range with bounds, the ids of the tokens fall
-- along the table below the sequence, no jti is there twice, and of the open tokens one at most is
-- for each reservation and one at most for the agent of each host.
pub Reach-Inv :
    (digest : String → String) (settings : Settings) {w : World}
    → Reach digest settings w
    → Inv w.db
Reach-Inv digest settings at_start = record {
  no_overlap = tt;
  placed = tt;
  unique_keys = tt;
  exclusive = tt;
}
Reach-Inv digest settings (next reach step) = Step-Inv step (Reach-Inv digest settings reach)
