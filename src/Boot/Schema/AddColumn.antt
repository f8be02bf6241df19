-- ===== src/Boot/Schema/AddColumn.antt =====
-- A column that is added and dropped again, and the third migration, which does so.
use smart_classroom.Prelude.{
  ◌≡◌, refl, Bool, true, false, not, ◌&&◌, List, [], ◌∷◌, ◌++◌, some, String, str_eq, exists_where,
  select_where, update_where, arith, Bool-cases, inl, inr,
}
use smart_classroom.Tokens.Issuing.{str_eq_refl}
use smart_classroom.Boot.Schema.{
  Column, Table, Schema, ◌and_then◌, is_named, has_table, has_column, add_column, drop_column,
}
use smart_classroom.Boot.Schema.Later.{sunshine_broker_token, upgrade_0003, downgrade_0003}

-- A table of that name has, or lacks, a column of that name.
abbrev pub has : String → String → Table → Bool
has n column t = is_named n t && has_column t.columns column

abbrev pub lacks : String → String → Table → Bool
lacks n column t = is_named n t && not (has_column t.columns column)

abbrev with_column : Column → Table → Table
with_column c t = record t { columns = t.columns ++ c ∷ [] }

abbrev without_column : String → Table → Table
without_column n t = record t {
  columns = select_where (λ (c : Column). not (str_eq c.name n)) t.columns;
}

column_back :
    (c : Column) (cs : List Column)
    → has_column cs c.name ≡ false
    → select_where (λ (d : Column). not (str_eq d.name c.name)) (cs ++ c ∷ []) ≡ cs
unfolding select_where exists_where
column_back c [] h = rw (str_eq_refl c.name) refl
column_back c (d ∷ cs) h =
    let rest : has_column cs c.name ≡ false = ground arith in ground (arith, column_back c cs rest)

column_there : (c : Column) (cs : List Column) → has_column (cs ++ c ∷ []) c.name ≡ true
unfolding exists_where
column_there c [] = rw (str_eq_refl c.name) refl
column_there c (d ∷ cs) = ground (arith, column_there c cs)

module _ (n : String) (c : Column) where
  some_lacks :
      (ts : List Table)
      → exists_where (is_named n) ts ≡ true
      → exists_where (has n c.name) ts ≡ false
      → exists_where (lacks n c.name) ts ≡ true
  unfolding exists_where
  some_lacks [] e h = e
  some_lacks (t ∷ ts) e h = elim (Bool-cases (is_named n t)) [
    | inl q ↦ ground arith
    | inr q ↦ ground (arith, some_lacks ts (ground arith) (ground arith))
  ]

  some_has :
      (ts : List Table)
      → exists_where (is_named n) ts ≡ true
      → exists_where (has n c.name) (update_where (is_named n) (with_column c) ts) ≡ true
  unfolding exists_where update_where
  some_has [] e = e
  some_has (t ∷ ts) e = elim (Bool-cases (is_named n t)) [
    | inl q ↦ ground (arith, column_there c t.columns)
    | inr q ↦ ground (arith, some_has ts (ground arith))
  ]

  tables_back :
      (ts : List Table)
      → exists_where (has n c.name) ts ≡ false
      → update_where
          (is_named n)
          (without_column c.name)
          (update_where (is_named n) (with_column c) ts)
        ≡ ts
  unfolding update_where exists_where
  tables_back [] h = refl
  tables_back (t ∷ ts) h = elim (Bool-cases (is_named n t)) [
    | inl q ↦
        ground (arith, q, column_back c t.columns (ground arith), tables_back ts (ground arith))
    | inr q ↦ ground (arith, q, tables_back ts (ground arith))
  ]

  add-drop :
      (s : Schema)
      → has_table n s ≡ true
      → exists_where (has n c.name) s.tables ≡ false
      → (add_column n c and_then drop_column n c.name) s ≡ some s
  unfolding add_column drop_column
  add-drop s e h =
      rw (some_lacks s.tables e h, some_has s.tables e, tables_back s.tables h, ◌and_then◌) refl

-- On a schema with a table of hosts that has no column sunshine_broker_token, the third migration goes
-- through, and its downgrade after it restores the schema.
pub upgrade_0003-downgrade :
    (s : Schema)
    → has_table "hosts" s ≡ true
    → exists_where (has "hosts" "sunshine_broker_token") s.tables ≡ false
    → (upgrade_0003 and_then downgrade_0003) s ≡ some s
unfolding upgrade_0003 downgrade_0003
upgrade_0003-downgrade s e h = add-drop "hosts" sunshine_broker_token s e h
