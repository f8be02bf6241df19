-- ===== src/Samples.antt =====
-- A small classroom, for the examples: one student, one idle host, and a slot from ten to eleven.
use smart_classroom.Prelude.{ℕ, ◌+◌, ◌*◌, [], ◌∷◌, true, none, some, String}
use smart_classroom.Domain.Time.{half_hour, day}
use smart_classroom.Domain.Range.{bounded}
use smart_classroom.Domain.Rows.{User, Host, Reservation, Token, user, idle, confirmed, connect}
use smart_classroom.Domain.Db.{Db, Result, ok, err}

-- The instant `n` half hours after the midnight of a certain day.
abbrev pub at : ℕ → ℕ
at n = 20_000 * day + n * half_hour

-- A digest without collisions, in the place of SHA-256.
abbrev pub tagged : String → String
tagged s = s

abbrev pub student : User
student = record {
  id = 1;
  external_id = "s1";
  provider = "mock";
  display_name = "Student";
  email = none;
  role = user;
  is_active = true;
}

abbrev pub lab_pc : Host
lab_pc = record {
  id = 1;
  hostname = "lab-1";
  display_name = "Lab 1";
  location = none;
  ip_address = some "10.0.0.5";
  sunshine_port = 47990;
  sunshine_broker_token = some "secret";
  gpu_model = none;
  status = idle;
  last_heartbeat_at = some (at 19);
  host_metadata = none;
}

abbrev pub lesson : Reservation
lesson = record {
  id = 1;
  user_id = 1;
  host_id = 1;
  time_range = bounded (at 20) (at 22);
  status = confirmed;
  canceled_at = none;
}

abbrev pub ticket : Token
ticket = record {
  id = 1;
  jti = "raw";
  user_id = 1;
  host_id = some 1;
  reservation_id = some 1;
  purpose = connect;
  issued_at = at 20;
  expires_at = at 22;
  consumed_at = none;
  revoked_at = none;
}

abbrev pub classroom : Db
classroom = record {
  users = student ∷ [];
  hosts = lab_pc ∷ [];
  reservations = [];
  tokens = [];
  audit_logs = [];
  next_user_id = 2;
  next_host_id = 2;
  next_reservation_id = 1;
  next_token_id = 1;
  request_id = none;
}

-- The classroom with the lesson, and with a ticket to it.
abbrev pub with_lesson : Db
with_lesson = record classroom { reservations = lesson ∷ []; next_reservation_id = 2 }

abbrev pub with_ticket : Db
with_ticket = record with_lesson { tokens = ticket ∷ []; next_token_id = 2 }

-- The database that a successful call leaves.
abbrev pub db_of : {A : Type 0} → Result (A × Db) → Db
db_of (ok r) = r.1
db_of (err e) = classroom
