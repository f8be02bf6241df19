-- ===== src/Boot/Examples.antt =====
-- The theorems on the process at work: a pool in use, a short life, and a schema of the migrations.
use smart_classroom.Prelude.{◌≡◌, ◌≢◌, refl, true, [], ◌∷◌, some, exists_where, arith}
use smart_classroom.Domain.Settings.{default_settings}
use smart_classroom.Hosts.Events.{subscribe}
use smart_classroom.Api.Auth.{enforce_production_guards}
use smart_classroom.Boot.Engine.{
  no_pool, get_engine, get_session_factory, dispose_engine, fresh, after, open_session, dispose,
  open_engine, LeaksNone, Used-LeaksNone,
}
use smart_classroom.Boot.Lifespan.{
  State, Served, in_order, timed_out, failed, startup, lifespan, ended, IsDown, lifespan-IsDown,
}
use smart_classroom.Boot.Schema.{Schema, Table, varchar, ◌and_then◌}
use smart_classroom.Boot.Schema.Tables.{column}
use smart_classroom.Boot.Schema.Initial.{upgrade, downgrade}
use smart_classroom.Boot.Schema.RoundTrip.{Untouched, upgrade-downgrade}

Used-LeaksNone_example : LeaksNone (get_engine (dispose_engine (get_session_factory no_pool).1)).1
Used-LeaksNone_example =
    Used-LeaksNone (after (after (after fresh open_session) dispose) open_engine)

-- One administrator subscribes while the broker serves.
abbrev listen : State → Served × State
listen s = (in_order, record s { host_event_broker = (subscribe s.host_event_broker).1 })

distinct : timed_out ≢ failed
distinct e = absurd (ground (arith, e))

lifespan-IsDown_example :
    (s : State) × (lifespan default_settings listen timed_out no_pool
      ≡ ended (listen (startup no_pool)).0 s)
    × IsDown timed_out s
unfolding enforce_production_guards
lifespan-IsDown_example = lifespan-IsDown default_settings listen timed_out no_pool refl distinct

-- What alembic itself keeps.
abbrev versions : Table
versions = record {
  name = "alembic_version";
  columns = record (column "version_num" (varchar 32)) { primary_key = true } ∷ [];
  uniques = [];
  excludes = [];
}

abbrev bare : Schema
bare = record { extensions = "plpgsql" ∷ []; tables = versions ∷ []; indexes = [] }

bare-Untouched : Untouched bare
unfolding exists_where
bare-Untouched = record {
  no_users = refl;
  no_hosts = refl;
  no_reservations = refl;
  no_sessions = refl;
  no_tokens = refl;
  no_audit_logs = refl;
  users_unindexed = refl;
  hosts_unindexed = refl;
  reservations_unindexed = refl;
  sessions_unindexed = refl;
  tokens_unindexed = refl;
  audit_logs_unindexed = refl;
  users_unreferenced = refl;
  hosts_unreferenced = refl;
  reservations_unreferenced = refl;
  sessions_unreferenced = refl;
  tokens_unreferenced = refl;
  audit_logs_unreferenced = refl;
  no_ix_users_role_admin = refl;
  no_ix_hosts_status = refl;
  no_ix_hosts_last_heartbeat = refl;
  no_ix_reservations_user_time = refl;
  no_ix_reservations_time_range_gist = refl;
  no_ix_sessions_reservation = refl;
  no_ix_sessions_active = refl;
  no_ix_sessions_host_state = refl;
  no_ix_tokens_user_expires = refl;
  no_ix_tokens_active_expires = refl;
  no_ix_audit_logs_occurred_at = refl;
  no_ix_audit_logs_actor_occurred = refl;
  no_ix_audit_logs_target_occurred = refl;
  no_ix_audit_logs_action_occurred = refl;
  no_btree_gist = refl;
  no_pgcrypto = refl;
  no_gist_constraint = refl;
}

upgrade-downgrade_example :
    (upgrade and_then downgrade) bare
    ≡ some (record bare { extensions = "pgcrypto" ∷ "plpgsql" ∷ [] })
upgrade-downgrade_example = upgrade-downgrade bare bare-Untouched
