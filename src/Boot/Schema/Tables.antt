-- ===== src/Boot/Schema/Tables.antt =====
-- broker/alembic/versions/0001_initial.py: the columns of its six tables.
use smart_classroom.Prelude.{true, false, [], ◌∷◌, none, some, String}
use smart_classroom.Boot.Schema.{
  SqlType, big_integer, integer, boolean, uuid, timestamp_tz, tstzrange_type, inet, jsonb, varchar,
  no_action, restrict, set_null, Column, Table,
}

-- `sa.Column(name, type, nullable=False)`, and the same with `nullable=True`.
abbrev pub column : String → SqlType → Column
column n t = record {
  name = n;
  type_ = t;
  primary_key = false;
  nullable = false;
  unique = false;
  server_default = none;
  references = none;
}

abbrev pub nullable_column : String → SqlType → Column
nullable_column n t = record (column n t) { nullable = true }

-- The columns that several tables have.
abbrev id_column : Column
id_column = record (column "id" big_integer) { primary_key = true }

abbrev public_id_column : Column
public_id_column = record (column "public_id" uuid) {
  unique = true;
  server_default = some "gen_random_uuid()";
}

abbrev time_column : String → Column
time_column n = record (column n timestamp_tz) { server_default = some "now()" }

abbrev pub users : Table
users = record {
  name = "users";
  columns =
      id_column
      ∷ public_id_column
      ∷ column "external_id" (varchar 128)
      ∷ column "provider" (varchar 32)
      ∷ column "display_name" (varchar 128)
      ∷ nullable_column "email" (varchar 255)
      ∷ record (column "role" (varchar 16)) { server_default = some "user" }
      ∷ record (column "is_active" boolean) { server_default = some "true" }
      ∷ time_column "created_at"
      ∷ time_column "updated_at"
      ∷ [];
  uniques = ("uq_users_provider_external", "provider" ∷ "external_id" ∷ []) ∷ [];
  excludes = [];
}

abbrev pub hosts : Table
hosts = record {
  name = "hosts";
  columns =
      id_column
      ∷ public_id_column
      ∷ record (column "hostname" (varchar 64)) { unique = true }
      ∷ column "display_name" (varchar 128)
      ∷ nullable_column "location" (varchar 128)
      ∷ nullable_column "ip_address" inet
      ∷ record (column "sunshine_port" integer) { server_default = some "47984" }
      ∷ nullable_column "gpu_model" (varchar 128)
      ∷ record (column "status" (varchar 16)) { server_default = some "OFFLINE" }
      ∷ nullable_column "last_heartbeat_at" timestamp_tz
      ∷ record (column "metadata" jsonb) { server_default = some "'{}'::jsonb" }
      ∷ time_column "created_at"
      ∷ time_column "updated_at"
      ∷ [];
  uniques = [];
  excludes = [];
}

abbrev pub reservations : Table
reservations = record {
  name = "reservations";
  columns =
      id_column
      ∷ public_id_column
      ∷ record (column "user_id" big_integer) { references = some ("users", restrict) }
      ∷ record (column "host_id" big_integer) { references = some ("hosts", restrict) }
      ∷ column "time_range" tstzrange_type
      ∷ record (column "status" (varchar 16)) { server_default = some "CONFIRMED" }
      ∷ nullable_column "canceled_at" timestamp_tz
      ∷ time_column "created_at"
      ∷ time_column "updated_at"
      ∷ [];
  uniques = [];
  excludes = [];
}

abbrev pub sessions : Table
sessions = record {
  name = "sessions";
  columns =
      id_column
      ∷ public_id_column
      ∷ record (column "reservation_id" big_integer) {
        references = some ("reservations", restrict);
      }
      ∷ record (column "user_id" big_integer) { references = some ("users", no_action) }
      ∷ record (column "host_id" big_integer) { references = some ("hosts", no_action) }
      ∷ record (column "state" (varchar 16)) { server_default = some "PENDING" }
      ∷ nullable_column "started_at" timestamp_tz
      ∷ nullable_column "ended_at" timestamp_tz
      ∷ nullable_column "end_reason" (varchar 32)
      ∷ record (column "client_info" jsonb) { server_default = some "'{}'::jsonb" }
      ∷ time_column "created_at"
      ∷ time_column "updated_at"
      ∷ [];
  uniques = [];
  excludes = [];
}

abbrev pub tokens : Table
tokens = record {
  name = "tokens";
  columns =
      id_column
      ∷ public_id_column
      ∷ record (column "jti" (varchar 64)) { unique = true }
      ∷ record (column "user_id" big_integer) { references = some ("users", no_action) }
      ∷ record (column "host_id" big_integer) { references = some ("hosts", no_action) }
      ∷ record (nullable_column "reservation_id" big_integer) {
        references = some ("reservations", no_action);
      }
      ∷ column "purpose" (varchar 32)
      ∷ record (column "issued_at" timestamp_tz) { server_default = some "now()" }
      ∷ column "expires_at" timestamp_tz
      ∷ nullable_column "consumed_at" timestamp_tz
      ∷ nullable_column "revoked_at" timestamp_tz
      ∷ time_column "created_at"
      ∷ time_column "updated_at"
      ∷ [];
  uniques = [];
  excludes = [];
}

abbrev pub audit_logs : Table
audit_logs = record {
  name = "audit_logs";
  columns =
      id_column
      ∷ record (column "occurred_at" timestamp_tz) { server_default = some "now()" }
      ∷ record (nullable_column "actor_user_id" big_integer) {
        references = some ("users", set_null);
      }
      ∷ column "actor_kind" (varchar 16)
      ∷ column "action" (varchar 64)
      ∷ nullable_column "target_kind" (varchar 32)
      ∷ nullable_column "target_id" big_integer
      ∷ nullable_column "request_id" (varchar 64)
      ∷ nullable_column "auth_provider" (varchar 32)
      ∷ nullable_column "ip_address" inet
      ∷ column "result" (varchar 16)
      ∷ record (column "detail" jsonb) { server_default = some "'{}'::jsonb" }
      ∷ [];
  uniques = [];
  excludes = [];
}
