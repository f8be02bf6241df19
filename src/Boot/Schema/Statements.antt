-- ===== src/Boot/Schema/Statements.antt =====
-- The parts of the first migration: each goes through where its names are free and its foreign keys
-- have a table, and adds one table with its indexes.
use smart_classroom.Prelude.{
  ◌≡◌, refl, Bool, true, false, not, List, [], ◌∷◌, some, String, str_eq, exists_where,
  select_where, update_where, select_one, arith,
}
use smart_classroom.Boot.Schema.{
  Table, Index, Schema, ◌and_then◌, is_named, has_table, refers_to, create_table, add_exclude,
  create_index,
}
use smart_classroom.Boot.Schema.Tables.{users, hosts, reservations, sessions, tokens, audit_logs}
use smart_classroom.Boot.Schema.Initial.{
  create_users, create_hosts, create_reservations, create_sessions, create_tokens,
  create_audit_logs, ix_users_role_admin, ix_hosts_status, ix_hosts_last_heartbeat,
  ix_reservations_user_time, ix_reservations_time_range_gist, ix_sessions_reservation,
  ix_sessions_active, ix_sessions_host_state, ix_tokens_user_expires, ix_tokens_active_expires,
  ix_audit_logs_occurred_at, ix_audit_logs_actor_occurred, ix_audit_logs_target_occurred,
  ix_audit_logs_action_occurred,
}

abbrev pub index_taken : String → Schema → Bool
index_taken n s = exists_where (λ (j : Index). str_eq j.name n) s.indexes

abbrev pub no_overlap : String × String
no_overlap = ("reservations_no_overlap", "btree_gist")

-- An index or a foreign key is on the table of that name.
abbrev pub indexed : String → Schema → Bool
indexed n s = exists_where (λ (i : Index). str_eq i.table n) s.indexes

abbrev pub referenced : String → Schema → Bool
referenced n s = exists_where (refers_to n) s.tables

abbrev pub needs_gist : Schema → Bool
needs_gist s =
    exists_where (λ (t : Table). exists_where (λ x. str_eq x.1 "btree_gist") t.excludes) s.tables

-- The table of reservations with its exclusion constraint.
abbrev pub guarded_reservations : Table
guarded_reservations = record reservations { excludes = no_overlap ∷ [] }

module _ {A : Type 0} where
  -- An UPDATE that no row meets.
  pub update_where-none :
      (p : A → Bool) (f : A → A) (xs : List A)
      → exists_where p xs ≡ false
      → update_where p f xs ≡ xs
  unfolding update_where exists_where
  update_where-none p f [] h = refl
  update_where-none p f (x ∷ xs) h =
      let rest : exists_where p xs ≡ false = ground arith in
      ground (arith, update_where-none p f xs rest)

  pub select_where-rest :
      (p : A → Bool) (xs : List A)
      → exists_where p xs ≡ false
      → select_where (λ x. not (p x)) xs ≡ xs
  unfolding select_where exists_where
  select_where-rest p [] h = refl
  select_where-rest p (x ∷ xs) h =
      let rest : exists_where p xs ≡ false = ground arith in
      ground (arith, select_where-rest p xs rest)

pub users_created :
    (s : Schema)
    → has_table "users" s ≡ false
    → index_taken "ix_users_role_admin" s ≡ false
    → create_users s
      ≡ some (record s { tables = users ∷ s.tables; indexes = ix_users_role_admin ∷ s.indexes })
unfolding create_users create_table create_index add_exclude exists_where select_one update_where
users_created s h i0 = rw (h, i0, ◌and_then◌) refl

pub hosts_created :
    (s : Schema)
    → has_table "hosts" s ≡ false
    → index_taken "ix_hosts_status" s ≡ false
    → index_taken "ix_hosts_last_heartbeat" s ≡ false
    → create_hosts s
      ≡ some (record s {
        tables = hosts ∷ s.tables;
        indexes = ix_hosts_last_heartbeat ∷ ix_hosts_status ∷ s.indexes;
      })
unfolding create_hosts create_table create_index add_exclude exists_where select_one update_where
hosts_created s h i0 i1 = rw (h, i0, i1, ◌and_then◌) refl

pub reservations_created :
    (s : Schema)
    → has_table "reservations" s ≡ false
    → has_table "users" s ≡ true
    → has_table "hosts" s ≡ true
    → index_taken "ix_reservations_user_time" s ≡ false
    → index_taken "ix_reservations_time_range_gist" s ≡ false
    → exists_where (λ x. str_eq x "btree_gist") s.extensions ≡ true
    → create_reservations s
      ≡ some (record s {
        tables = guarded_reservations ∷ s.tables;
        indexes = ix_reservations_time_range_gist ∷ ix_reservations_user_time ∷ s.indexes;
      })
unfolding create_reservations create_table create_index add_exclude exists_where select_one
    update_where
reservations_created s h r0 r1 i0 i1 g =
    let same =
      update_where-none (is_named "reservations")
        (λ (t : Table). record t { excludes = no_overlap ∷ t.excludes }) s.tables h in
    rw (h, r0, r1, g, same, i0, i1, ◌and_then◌) refl

pub sessions_created :
    (s : Schema)
    → has_table "sessions" s ≡ false
    → has_table "reservations" s ≡ true
    → has_table "users" s ≡ true
    → has_table "hosts" s ≡ true
    → index_taken "ix_sessions_reservation" s ≡ false
    → index_taken "ix_sessions_active" s ≡ false
    → index_taken "ix_sessions_host_state" s ≡ false
    → create_sessions s
      ≡ some (record s {
        tables = sessions ∷ s.tables;
        indexes = ix_sessions_host_state ∷ ix_sessions_active ∷ ix_sessions_reservation ∷ s.indexes;
      })
unfolding create_sessions create_table create_index add_exclude exists_where select_one update_where
sessions_created s h r0 r1 r2 i0 i1 i2 = rw (h, r0, r1, r2, i0, i1, i2, ◌and_then◌) refl

pub tokens_created :
    (s : Schema)
    → has_table "tokens" s ≡ false
    → has_table "users" s ≡ true
    → has_table "hosts" s ≡ true
    → has_table "reservations" s ≡ true
    → index_taken "ix_tokens_user_expires" s ≡ false
    → index_taken "ix_tokens_active_expires" s ≡ false
    → create_tokens s
      ≡ some (record s {
        tables = tokens ∷ s.tables;
        indexes = ix_tokens_active_expires ∷ ix_tokens_user_expires ∷ s.indexes;
      })
unfolding create_tokens create_table create_index add_exclude exists_where select_one update_where
tokens_created s h r0 r1 r2 i0 i1 = rw (h, r0, r1, r2, i0, i1, ◌and_then◌) refl

pub audit_logs_created :
    (s : Schema)
    → has_table "audit_logs" s ≡ false
    → has_table "users" s ≡ true
    → index_taken "ix_audit_logs_occurred_at" s ≡ false
    → index_taken "ix_audit_logs_actor_occurred" s ≡ false
    → index_taken "ix_audit_logs_target_occurred" s ≡ false
    → index_taken "ix_audit_logs_action_occurred" s ≡ false
    → create_audit_logs s
      ≡ some (record s {
        tables = audit_logs ∷ s.tables;
        indexes =
            ix_audit_logs_action_occurred ∷ ix_audit_logs_target_occurred
            ∷ ix_audit_logs_actor_occurred ∷ ix_audit_logs_occurred_at ∷ s.indexes;
      })
unfolding create_audit_logs create_table create_index add_exclude exists_where select_one
    update_where
audit_logs_created s h r0 i0 i1 i2 i3 = rw (h, r0, i0, i1, i2, i3, ◌and_then◌) refl
