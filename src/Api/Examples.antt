-- ===== src/Api/Examples.antt =====
-- The theorems on the endpoints at work.
use smart_classroom.Prelude.{
  codes, [], ◌∷◌, IsIn, inl, update_where, none, ℕ, ◌≡◌, refl, Bool, true, some, arith, select_one,
}
use smart_classroom.Domain.Settings.{Settings, default_settings, production, cnu_sso}
use smart_classroom.Domain.Rows.{User, user, Metadata}
use smart_classroom.Domain.Db.{Db, ok}
use smart_classroom.Samples.{student, at, tagged, ticket, classroom, with_ticket}
use smart_classroom.Tokens.Connect.{verify_connect_token}
use smart_classroom.Hosts.Events.{new_broker}
use smart_classroom.Hosts.Status.{World}
use smart_classroom.Api.Hosts.{HostCreate, host_from}
use smart_classroom.Api.Schemas.{
  validate_host_create, length_within, optional_within, number_within,
}
use smart_classroom.Api.Schemas.Columns.{HostFits, validate_host_create-HostFits}
use smart_classroom.Api.Login.{UserIdentity, upsert_row, upsert_user}
use smart_classroom.Api.Accounts.{upsert_user_keeps}
use smart_classroom.Api.Tokens.{verify_token_endpoint, accept, invalid_or_expired}
use smart_classroom.Api.Single.{verify_token-once}

ticket_found : verify_connect_token tagged (at 20) "raw" with_ticket ≡ some ticket
unfolding verify_connect_token select_one
ticket_found = refl

verify_token-once_example :
    (db' : Db) × (verify_token_endpoint tagged (at 20) (at 20) "raw" true with_ticket
      ≡ ok (accept ticket, db'))
    × ((later u : ℕ) (consume : Bool)
        → (db'' : Db) × (verify_token_endpoint tagged later u "raw" consume db'
            ≡ ok (invalid_or_expired, db'')))
verify_token-once_example =
    verify_token-once tagged (at 20) (at 20) "raw" ticket with_ticket (omega arith, tt, tt)
      ticket_found

abbrev busy : Metadata
busy = record {
  agent_version = codes "1.0";
  boot_time = at 0;
  cpu_pct = 990;
  mem_pct = 500;
  sunshine_running = true;
}

abbrev noon : World
noon = record { db = classroom; events = new_broker }

abbrev deployed : Settings
deployed = record default_settings {
  app_env = production;
  auth_provider = cnu_sso;
  session_secret = "f00d";
  internal_api_token = some "beef";
}

abbrev stranger : User
stranger = record student { id = 2; external_id = "s2" }

-- The student signs in under a new name.
abbrev renamed_identity : UserIdentity
renamed_identity = record {
  external_id = "s1";
  provider = "mock";
  display_name = "Renamed";
  email = none;
  role = user;
}

abbrev renamed : User
renamed = record student { display_name = "Renamed" }

abbrev renamed_db : Db
renamed_db = record classroom { users = renamed ∷ [] }

signs_in : upsert_user renamed_identity classroom ≡ ok (renamed, renamed_db)
unfolding upsert_user upsert_row select_one update_where
signs_in = refl

upsert_user_keeps_example :
    (w : User) × IsIn w renamed_db.users × (w.id ≡ 1) × (w.role ≡ user) × (w.is_active ≡ true)
upsert_user_keeps_example =
    upsert_user_keeps renamed_identity classroom renamed_db renamed student signs_in (inl refl)

-- A body for a new host, with a name of five letters and no port given but the default.
abbrev new_body : HostCreate
new_body = record {
  hostname = "lab-2";
  display_name = "Lab 2";
  location = some "Building 57";
  ip_address = none;
  sunshine_port = 47984;
  sunshine_broker_token = none;
  gpu_model = none;
}

new_body_accepted : validate_host_create new_body ≡ []
unfolding validate_host_create length_within optional_within number_within
new_body_accepted = refl

validate_host_create-HostFits_example : HostFits (host_from 3 new_body)
validate_host_create-HostFits_example = validate_host_create-HostFits new_body 3 new_body_accepted
