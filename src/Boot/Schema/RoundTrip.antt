-- ===== src/Boot/Schema/RoundTrip.antt =====
-- The migrations taken back: what a downgrade leaves of the schema that an upgrade has made.
use smart_classroom.Prelude.{
  ◌≡◌, refl, true, false, not, ◌++◌, List, [], ◌∷◌, some, String, str_eq, exists_where,
  select_where, All,
}
use smart_classroom.Tokens.Issuing.{str_eq_refl}
use smart_classroom.Boot.Schema.{
  Table, Index, Schema, ◌and_then◌, is_named, has_table, create_extension, drop_extension,
  drop_table,
}
use smart_classroom.Boot.Schema.Tables.{users, hosts, sessions, tokens, audit_logs}
use smart_classroom.Boot.Schema.Statements.{
  index_taken, indexed, referenced, needs_gist, guarded_reservations, select_where-rest,
  users_created, hosts_created, reservations_created, sessions_created, tokens_created,
  audit_logs_created,
}
use smart_classroom.Boot.Schema.Initial.{
  upgrade, downgrade, ix_users_role_admin, ix_hosts_status, ix_hosts_last_heartbeat,
  ix_reservations_user_time, ix_reservations_time_range_gist, ix_sessions_reservation,
  ix_sessions_active, ix_sessions_host_state, ix_tokens_user_expires, ix_tokens_active_expires,
  ix_audit_logs_occurred_at, ix_audit_logs_actor_occurred, ix_audit_logs_target_occurred,
  ix_audit_logs_action_occurred,
}

-- A schema that has nothing of what the migration makes: no table and no index of those names, no
-- index or foreign key on such a table, neither extension, and no constraint that needs btree_gist.
pub record Untouched (s : Schema) : Type 0 where
  pub no_users : has_table "users" s ≡ false
  pub no_hosts : has_table "hosts" s ≡ false
  pub no_reservations : has_table "reservations" s ≡ false
  pub no_sessions : has_table "sessions" s ≡ false
  pub no_tokens : has_table "tokens" s ≡ false
  pub no_audit_logs : has_table "audit_logs" s ≡ false
  pub users_unindexed : indexed "users" s ≡ false
  pub hosts_unindexed : indexed "hosts" s ≡ false
  pub reservations_unindexed : indexed "reservations" s ≡ false
  pub sessions_unindexed : indexed "sessions" s ≡ false
  pub tokens_unindexed : indexed "tokens" s ≡ false
  pub audit_logs_unindexed : indexed "audit_logs" s ≡ false
  pub users_unreferenced : referenced "users" s ≡ false
  pub hosts_unreferenced : referenced "hosts" s ≡ false
  pub reservations_unreferenced : referenced "reservations" s ≡ false
  pub sessions_unreferenced : referenced "sessions" s ≡ false
  pub tokens_unreferenced : referenced "tokens" s ≡ false
  pub audit_logs_unreferenced : referenced "audit_logs" s ≡ false
  pub no_ix_users_role_admin : index_taken "ix_users_role_admin" s ≡ false
  pub no_ix_hosts_status : index_taken "ix_hosts_status" s ≡ false
  pub no_ix_hosts_last_heartbeat : index_taken "ix_hosts_last_heartbeat" s ≡ false
  pub no_ix_reservations_user_time : index_taken "ix_reservations_user_time" s ≡ false
  pub no_ix_reservations_time_range_gist : index_taken "ix_reservations_time_range_gist" s ≡ false
  pub no_ix_sessions_reservation : index_taken "ix_sessions_reservation" s ≡ false
  pub no_ix_sessions_active : index_taken "ix_sessions_active" s ≡ false
  pub no_ix_sessions_host_state : index_taken "ix_sessions_host_state" s ≡ false
  pub no_ix_tokens_user_expires : index_taken "ix_tokens_user_expires" s ≡ false
  pub no_ix_tokens_active_expires : index_taken "ix_tokens_active_expires" s ≡ false
  pub no_ix_audit_logs_occurred_at : index_taken "ix_audit_logs_occurred_at" s ≡ false
  pub no_ix_audit_logs_actor_occurred : index_taken "ix_audit_logs_actor_occurred" s ≡ false
  pub no_ix_audit_logs_target_occurred : index_taken "ix_audit_logs_target_occurred" s ≡ false
  pub no_ix_audit_logs_action_occurred : index_taken "ix_audit_logs_action_occurred" s ≡ false
  pub no_btree_gist : exists_where (λ x. str_eq x "btree_gist") s.extensions ≡ false
  pub no_pgcrypto : exists_where (λ x. str_eq x "pgcrypto") s.extensions ≡ false
  pub no_gist_constraint : needs_gist s ≡ false

-- The schema with all that the migration makes.
abbrev upgraded : Schema → Schema
upgraded s = record {
  extensions = "pgcrypto" ∷ "btree_gist" ∷ s.extensions;
  tables = audit_logs ∷ tokens ∷ sessions ∷ guarded_reservations ∷ hosts ∷ users ∷ s.tables;
  indexes =
      ix_audit_logs_action_occurred ∷ ix_audit_logs_target_occurred ∷ ix_audit_logs_actor_occurred
      ∷ ix_audit_logs_occurred_at ∷ ix_tokens_active_expires ∷ ix_tokens_user_expires
      ∷ ix_sessions_host_state ∷ ix_sessions_active ∷ ix_sessions_reservation
      ∷ ix_reservations_time_range_gist ∷ ix_reservations_user_time ∷ ix_hosts_last_heartbeat
      ∷ ix_hosts_status ∷ ix_users_role_admin ∷ s.indexes;
}

-- The schema with a table and its indexes.
abbrev add : Table → List Index → Schema → Schema
add t ix x = record x { tables = t ∷ x.tables; indexes = ix ++ x.indexes }

own_gone :
    (n : String) (ix ys : List Index)
    → All (λ (i : Index). str_eq i.table n ≡ true) ix
    → select_where (λ (i : Index). not (str_eq i.table n)) (ix ++ ys)
      ≡ select_where (λ (i : Index). not (str_eq i.table n)) ys
unfolding select_where
own_gone n [] ys h = refl
own_gone n (i ∷ ix) ys h = rw h.0 (own_gone n ix ys h.1)

-- A table to which no other refers is dropped with its indexes, and nothing else is.
drop-add :
    (t : Table) (ix : List Index) (x : Schema)
    → All (λ (i : Index). str_eq i.table t.name ≡ true) ix
    → has_table t.name x ≡ false
    → indexed t.name x ≡ false
    → referenced t.name x ≡ false
    → drop_table t.name (add t ix x) ≡ some x
unfolding drop_table exists_where select_where
drop-add t ix x own h i r =
    let self = str_eq_refl t.name in
    let tables = select_where-rest (is_named t.name) x.tables h in
    let indexes = select_where-rest (λ (j : Index). str_eq j.table t.name) x.indexes i in
    rw (self, r, own_gone t.name ix x.indexes own, tables, indexes) refl

module _ (s : Schema) (u : Untouched s) where
  -- On its way the upgrade adds to these, and the tables find their foreign keys.
  abbrev after_extensions : Schema
  after_extensions = record s { extensions = "pgcrypto" ∷ "btree_gist" ∷ s.extensions }

  abbrev after_users : Schema
  after_users = add users (ix_users_role_admin ∷ []) after_extensions

  abbrev after_hosts : Schema
  after_hosts = add hosts (ix_hosts_last_heartbeat ∷ ix_hosts_status ∷ []) after_users

  abbrev after_reservations : Schema
  after_reservations =
      add guarded_reservations (ix_reservations_time_range_gist ∷ ix_reservations_user_time ∷ [])
        after_hosts

  abbrev after_sessions : Schema
  after_sessions =
      add sessions (ix_sessions_host_state ∷ ix_sessions_active ∷ ix_sessions_reservation ∷ [])
        after_reservations

  abbrev after_tokens : Schema
  after_tokens = add tokens (ix_tokens_active_expires ∷ ix_tokens_user_expires ∷ []) after_sessions

  upgrade_lem : upgrade s ≡ some (upgraded s)
  unfolding upgrade create_extension exists_where
  upgrade_lem =
      let a = users_created after_extensions u.no_users u.no_ix_users_role_admin in
      let b =
        hosts_created after_users u.no_hosts u.no_ix_hosts_status u.no_ix_hosts_last_heartbeat in
      let c =
        reservations_created after_hosts u.no_reservations refl refl u.no_ix_reservations_user_time
          u.no_ix_reservations_time_range_gist refl in
      let d =
        sessions_created after_reservations u.no_sessions refl refl refl
          u.no_ix_sessions_reservation u.no_ix_sessions_active u.no_ix_sessions_host_state in
      let e =
        tokens_created after_sessions u.no_tokens refl refl refl u.no_ix_tokens_user_expires
          u.no_ix_tokens_active_expires in
      let f =
        audit_logs_created after_tokens u.no_audit_logs refl u.no_ix_audit_logs_occurred_at
          u.no_ix_audit_logs_actor_occurred u.no_ix_audit_logs_target_occurred
          u.no_ix_audit_logs_action_occurred in
      rw (u.no_btree_gist, u.no_pgcrypto, a, b, c, d, e, f, ◌and_then◌) refl

  -- What is left once the tables are gone.
  downgrade_lem :
      downgrade (upgraded s) ≡ some (record s { extensions = "pgcrypto" ∷ s.extensions })
  unfolding downgrade drop_extension exists_where select_where
  downgrade_lem =
      let a =
        drop-add audit_logs
          (ix_audit_logs_action_occurred ∷ ix_audit_logs_target_occurred
            ∷ ix_audit_logs_actor_occurred ∷ ix_audit_logs_occurred_at ∷ [])
          after_tokens (refl, (refl, (refl, (refl, tt)))) u.no_audit_logs u.audit_logs_unindexed
          u.audit_logs_unreferenced in
      let b =
        drop-add tokens (ix_tokens_active_expires ∷ ix_tokens_user_expires ∷ []) after_sessions
          (refl, (refl, tt)) u.no_tokens u.tokens_unindexed u.tokens_unreferenced in
      let c =
        drop-add sessions
          (ix_sessions_host_state ∷ ix_sessions_active ∷ ix_sessions_reservation ∷ [])
          after_reservations (refl, (refl, (refl, tt))) u.no_sessions u.sessions_unindexed
          u.sessions_unreferenced in
      let d =
        drop-add guarded_reservations
          (ix_reservations_time_range_gist ∷ ix_reservations_user_time ∷ []) after_hosts
          (refl, (refl, tt)) u.no_reservations u.reservations_unindexed
          u.reservations_unreferenced in
      let e =
        drop-add hosts (ix_hosts_last_heartbeat ∷ ix_hosts_status ∷ []) after_users
          (refl, (refl, tt)) u.no_hosts u.hosts_unindexed u.hosts_unreferenced in
      let f =
        drop-add users (ix_users_role_admin ∷ []) after_extensions (refl, tt) u.no_users
          u.users_unindexed u.users_unreferenced in
      let kept = select_where-rest (λ x. str_eq x "btree_gist") s.extensions u.no_btree_gist in
      rw (a, b, c, d, e, f, u.no_gist_constraint, kept, ◌and_then◌) refl

  -- On a schema that has nothing of what the first migration makes, its upgrade goes through; its
  -- downgrade after it goes through too, and restores the schema but for the extension pgcrypto.
  pub upgrade-downgrade :
      (upgrade and_then downgrade) s ≡ some (record s { extensions = "pgcrypto" ∷ s.extensions })
  upgrade-downgrade = rw (upgrade_lem, ◌and_then◌) downgrade_lem
