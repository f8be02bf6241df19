-- ===== src/Boot/Schema.antt =====
-- What the migrations of broker/alembic/versions do to the schema of the database: the operations
-- of `op` that they call, as PostgreSQL documents the statements that these send. An operation
-- that the database refuses has no result, and the migration's transaction with it.
pub mod Tables
pub mod Initial
pub mod Later
pub mod Statements
pub mod RoundTrip
pub mod AddColumn
use smart_classroom.Prelude.{
  ℕ, Bool, true, false, ◌&&◌, ◌||◌, not, List, [], ◌∷◌, ◌++◌, Option, none, some, is_none, String,
  str_eq, exists_where, select_where, update_where, select_one, if◌then◌else◌,
}

pub data SqlType : Type 0 where
  big_integer integer boolean uuid timestamp_tz tstzrange_type inet jsonb : SqlType
  varchar : ℕ → SqlType

-- A foreign key's `ondelete`.
pub data OnDelete : Type 0 where
  no_action restrict set_null : OnDelete

-- `sa.Column`; `references` is the table whose id the column refers to.
pub record Column : Type 0 where
  pub name : String
  pub type_ : SqlType
  pub primary_key : Bool
  pub nullable : Bool
  pub unique : Bool
  pub server_default : Option String
  pub references : Option (String × OnDelete)

-- A table with the constraints that span several columns, by their names. An exclusion constraint
-- comes with the extension that has its operator classes.
pub record Table : Type 0 where
  pub name : String
  pub columns : List Column
  pub uniques : List (String × List String)
  pub excludes : List (String × String)

-- `op.create_index`; `partial` is the text of its WHERE clause.
pub record Index : Type 0 where
  pub name : String
  pub table : String
  pub columns : List String
  pub partial : Option String
  pub gist : Bool

pub record Schema : Type 0 where
  pub extensions : List String
  pub tables : List Table
  pub indexes : List Index

abbrev pub Migration : Type 0
Migration = Schema → Option Schema

infixl 5 ◌and_then◌
-- One statement after another.
abbrev pub ◌and_then◌ : Migration → Migration → Migration
◌and_then◌ m k s = elim (m s) [ none ↦ none | some s' ↦ k s' ]

abbrev pub is_named : String → Table → Bool
is_named n t = str_eq t.name n

abbrev pub has_table : String → Schema → Bool
has_table n s = exists_where (is_named n) s.tables

abbrev pub has_column : List Column → String → Bool
has_column columns n = exists_where (λ (c : Column). str_eq c.name n) columns

abbrev pub points_at : String → Column → Bool
points_at n c = elim c.references [ none ↦ false | some r ↦ str_eq r.0 n ]

-- Another table has a foreign key to the table of that name.
abbrev pub refers_to : String → Table → Bool
refers_to n t = not (is_named n t) && exists_where (points_at n) t.columns

-- The tables that the columns refer to exist, or are the table itself.
abbrev pub dangles : Schema → String → Column → Bool
dangles s n c = elim c.references [ none ↦ false | some r ↦ not (str_eq r.0 n || has_table r.0 s) ]

-- CREATE EXTENSION IF NOT EXISTS
unfoldable pub create_extension : String → Migration
create_extension n s =
    if exists_where (λ x. str_eq x n) s.extensions
    then some s
    else some (record s { extensions = n ∷ s.extensions })

-- DROP EXTENSION IF EXISTS, which is refused while an exclusion constraint needs it.
unfoldable pub drop_extension : String → Migration
drop_extension n s =
    if exists_where (λ (t : Table). exists_where (λ x. str_eq x.1 n) t.excludes) s.tables
    then none
    else some (record s { extensions = select_where (λ x. not (str_eq x n)) s.extensions })

-- CREATE TABLE
unfoldable pub create_table : Table → Migration
create_table t s =
    if has_table t.name s || exists_where (dangles s t.name) t.columns
    then none
    else some (record s { tables = t ∷ s.tables })

-- ALTER TABLE ... ADD CONSTRAINT ... EXCLUDE
unfoldable pub add_exclude : String → String × String → Migration
add_exclude n constraint s =
    if has_table n s && exists_where (λ x. str_eq x constraint.1) s.extensions
    then some (record s {
      tables =
          update_where (is_named n) (λ t. record t { excludes = constraint ∷ t.excludes }) s.tables;
    })
    else none

-- CREATE INDEX: its table and columns exist, and its name is free.
unfoldable pub create_index : Index → Migration
create_index i s =
    if exists_where (λ (j : Index). str_eq j.name i.name) s.indexes
    then none
    else elim (select_one (is_named i.table) s.tables) [
      | none ↦ none
      | some t ↦
          if exists_where (λ n. not (has_column t.columns n)) i.columns
          then none
          else some (record s { indexes = i ∷ s.indexes })
    ]

-- DROP TABLE, with its indexes; it is refused while another table refers to it.
unfoldable pub drop_table : String → Migration
drop_table n s =
    if not (has_table n s) || exists_where (refers_to n) s.tables
    then none
    else some (record s {
      tables = select_where (λ t. not (is_named n t)) s.tables;
      indexes = select_where (λ (i : Index). not (str_eq i.table n)) s.indexes;
    })

-- ALTER TABLE ... ALTER COLUMN ... DROP NOT NULL
unfoldable pub set_nullable : String → String → Migration
set_nullable n column s =
    if exists_where (λ t. is_named n t && has_column t.columns column) s.tables
    then some (record s {
      tables =
          update_where (is_named n)
            (λ t. record t {
              columns =
                  update_where (λ (c : Column). str_eq c.name column)
                    (λ c. record c { nullable = true }) t.columns;
            })
            s.tables;
    })
    else none

-- ALTER TABLE ... ADD COLUMN
unfoldable pub add_column : String → Column → Migration
add_column n column s =
    if exists_where (λ t. is_named n t && not (has_column t.columns column.name)) s.tables
    then some (record s {
      tables =
          update_where (is_named n) (λ t. record t { columns = t.columns ++ column ∷ [] }) s.tables;
    })
    else none

-- ALTER TABLE ... DROP COLUMN
unfoldable pub drop_column : String → String → Migration
drop_column n column s =
    if exists_where (λ t. is_named n t && has_column t.columns column) s.tables
    then some (record s {
      tables =
          update_where (is_named n)
            (λ t. record t {
              columns = select_where (λ (c : Column). not (str_eq c.name column)) t.columns;
            })
            s.tables;
    })
    else none
