-- ===== src/Boot/Schema/Initial.antt =====
-- broker/alembic/versions/0001_initial.py: the indexes of its tables, the exclusion constraint of
-- the reservations, and the order of its statements.
use smart_classroom.Prelude.{true, false, List, [], ◌∷◌, none, some, String}
use smart_classroom.Boot.Schema.{
  Index, Migration, ◌and_then◌, create_extension, drop_extension, create_table, add_exclude,
  create_index, drop_table,
}
use smart_classroom.Boot.Schema.Tables.{users, hosts, reservations, sessions, tokens, audit_logs}

abbrev index : String → String → List String → Index
index n t columns = record { name = n; table = t; columns = columns; partial = none; gist = false }

abbrev pub ix_users_role_admin : Index
ix_users_role_admin = record (index "ix_users_role_admin" "users" ("role" ∷ [])) {
  partial = some "role = 'admin'";
}

abbrev pub ix_hosts_status : Index
ix_hosts_status = index "ix_hosts_status" "hosts" ("status" ∷ [])

abbrev pub ix_hosts_last_heartbeat : Index
ix_hosts_last_heartbeat = index "ix_hosts_last_heartbeat" "hosts" ("last_heartbeat_at" ∷ [])

abbrev pub ix_reservations_user_time : Index
ix_reservations_user_time =
    index "ix_reservations_user_time" "reservations" ("user_id" ∷ "time_range" ∷ [])

abbrev pub ix_reservations_time_range_gist : Index
ix_reservations_time_range_gist =
    record (index "ix_reservations_time_range_gist" "reservations" ("time_range" ∷ [])) {
      gist = true;
    }

abbrev pub ix_sessions_reservation : Index
ix_sessions_reservation = index "ix_sessions_reservation" "sessions" ("reservation_id" ∷ [])

abbrev pub ix_sessions_active : Index
ix_sessions_active = record (index "ix_sessions_active" "sessions" ("state" ∷ [])) {
  partial = some "state IN ('PENDING','PAIRING','ACTIVE')";
}

abbrev pub ix_sessions_host_state : Index
ix_sessions_host_state = index "ix_sessions_host_state" "sessions" ("host_id" ∷ "state" ∷ [])

abbrev pub ix_tokens_user_expires : Index
ix_tokens_user_expires = index "ix_tokens_user_expires" "tokens" ("user_id" ∷ "expires_at" ∷ [])

abbrev pub ix_tokens_active_expires : Index
ix_tokens_active_expires = record (index "ix_tokens_active_expires" "tokens" ("expires_at" ∷ [])) {
  partial = some "consumed_at IS NULL AND revoked_at IS NULL";
}

abbrev pub ix_audit_logs_occurred_at : Index
ix_audit_logs_occurred_at = index "ix_audit_logs_occurred_at" "audit_logs" ("occurred_at" ∷ [])

abbrev pub ix_audit_logs_actor_occurred : Index
ix_audit_logs_actor_occurred =
    index "ix_audit_logs_actor_occurred" "audit_logs" ("actor_user_id" ∷ "occurred_at" ∷ [])

abbrev pub ix_audit_logs_target_occurred : Index
ix_audit_logs_target_occurred =
    index "ix_audit_logs_target_occurred" "audit_logs"
      ("target_kind" ∷ "target_id" ∷ "occurred_at" ∷ [])

abbrev pub ix_audit_logs_action_occurred : Index
ix_audit_logs_action_occurred =
    index "ix_audit_logs_action_occurred" "audit_logs" ("action" ∷ "occurred_at" ∷ [])

unfoldable pub create_users : Migration
create_users = create_table users and_then create_index ix_users_role_admin

unfoldable pub create_hosts : Migration
create_hosts =
    create_table hosts
    and_then create_index ix_hosts_status
    and_then create_index ix_hosts_last_heartbeat

unfoldable pub create_reservations : Migration
create_reservations =
    create_table reservations
    and_then add_exclude "reservations" ("reservations_no_overlap", "btree_gist")
    and_then create_index ix_reservations_user_time
    and_then create_index ix_reservations_time_range_gist

unfoldable pub create_sessions : Migration
create_sessions =
    create_table sessions
    and_then create_index ix_sessions_reservation
    and_then create_index ix_sessions_active
    and_then create_index ix_sessions_host_state

unfoldable pub create_tokens : Migration
create_tokens =
    create_table tokens
    and_then create_index ix_tokens_user_expires
    and_then create_index ix_tokens_active_expires

unfoldable pub create_audit_logs : Migration
create_audit_logs =
    create_table audit_logs
    and_then create_index ix_audit_logs_occurred_at
    and_then create_index ix_audit_logs_actor_occurred
    and_then create_index ix_audit_logs_target_occurred
    and_then create_index ix_audit_logs_action_occurred

unfoldable pub upgrade : Migration
upgrade =
    create_extension "btree_gist"
    and_then create_extension "pgcrypto"
    and_then create_users
    and_then create_hosts
    and_then create_reservations
    and_then create_sessions
    and_then create_tokens
    and_then create_audit_logs

-- pgcrypto stays.
unfoldable pub downgrade : Migration
downgrade =
    drop_table "audit_logs"
    and_then drop_table "tokens"
    and_then drop_table "sessions"
    and_then drop_table "reservations"
    and_then drop_table "hosts"
    and_then drop_table "users"
    and_then drop_extension "btree_gist"
