-- ===== src/Persistence/Migrations.antt =====
-- The runner of schema migrations (`run_migrations` of src/persistence/migrations.py) on a connection that
-- no transaction is open on. What a statement does to the schema is the database's, and an argument; a
-- statement that fails may have changed the schema before.
pub mod Runs
pub mod Whole
use shelf_life_copilot.Prelude.{
  ℕ, zero, ◌+◌, String, Bool, true, false, Option, none, some, List, [], ◌∷◌, ◌++◌, Result, ok, err,
  Error, value_error, nat_eq, leb, max, if◌then◌else◌,
}
use shelf_life_copilot.Prelude.Table.{contains}

pub record Migration (Statement : Type 0) : Type 0 where
  pub version : ℕ
  pub name : String
  pub statements : List Statement

abbrev pub Rows : Type 0
Rows = List (ℕ × String)

-- the schema, and the table `schema_migrations` once it is created
pub record Migrated (Schema : Type 0) : Type 0 where
  pub schema : Schema
  pub table : Option Rows

-- what the connection sees, and what was committed last
pub record Connection (Schema : Type 0) : Type 0 where
  pub current : Migrated Schema
  pub committed : Migrated Schema

abbrev pub commit : {Schema : Type 0} → Connection Schema → Connection Schema
commit c = record c { committed = c.current }

abbrev pub rollback : {Schema : Type 0} → Connection Schema → Connection Schema
rollback c = record c { current = c.committed }

abbrev pub rows_of : Option Rows → Rows
rows_of none = []
rows_of (some rows) = rows

-- the rows that the connection sees
abbrev pub rows : {Schema : Type 0} → Connection Schema → Rows
rows c = rows_of c.current.table

abbrev pub with_schema : {Schema : Type 0} → Connection Schema → Schema → Connection Schema
with_schema c s = record c { current = record (c.current) { schema = s } }

abbrev pub with_rows : {Schema : Type 0} → Connection Schema → Rows → Connection Schema
with_rows c rows = record c { current = record (c.current) { table = some rows } }

-- the transaction of CREATE TABLE IF NOT EXISTS schema_migrations
abbrev pub create_table : {Schema : Type 0} → Connection Schema → Connection Schema
create_table c = commit (with_rows c (rows c))

abbrev pub has_version : ℕ → ℕ × String → Bool
has_version version row = nat_eq row.0 version

abbrev pub row_of : {Statement : Type 0} → Migration Statement → ℕ × String
row_of m = (m.version, m.name)

-- SELECT COALESCE(MAX(version), 0)
unfoldable pub latest : Rows → ℕ
latest [] = 0
latest (row ∷ rest) = max row.0 (latest rest)

module _ {Statement Schema : Type 0}
    (execute : Statement → Schema → Result (Unit {0}) × Schema) where
  abbrev pub then_execute :
      (Connection Schema → Result (Unit {0}) × Connection Schema)
      → Connection Schema
      → Result (Unit {0}) × Schema
      → Result (Unit {0}) × Connection Schema
  then_execute next c (ok _, s) = next (with_schema c s)
  then_execute next c (err e, s) = (err e, with_schema c s)

  -- the statements of a migration
  unfoldable pub execute_all :
      List Statement → Connection Schema → Result (Unit {0}) × Connection Schema
  execute_all [] c = (ok tt, c)
  execute_all (statement ∷ rest) c =
      then_execute (execute_all rest) c (execute statement c.current.schema)

  -- the INSERT with the commit, or the rollback
  abbrev pub ended :
      Migration Statement
      → Result (Unit {0}) × Connection Schema
      → Result (Unit {0}) × Connection Schema
  ended m (ok _, c) = (ok tt, commit (with_rows c (rows c ++ row_of m ∷ [])))
  ended m (err e, c) = (err e, rollback c)

  -- the transaction of one migration
  unfoldable pub apply_migration :
      Migration Statement → Connection Schema → Result (Unit {0}) × Connection Schema
  unfolding execute_all
  apply_migration m c =
      if contains (has_version m.version) (rows c)
      then (ok tt, commit c)
      else ended m (execute_all m.statements c)

  abbrev pub go_on :
      (Connection Schema → Result ℕ × Connection Schema)
      → Result (Unit {0}) × Connection Schema
      → Result ℕ × Connection Schema
  go_on next (err e, c) = (err e, c)
  go_on next (ok _, c) = next c

  -- the loop over the migrations
  unfoldable pub run_from :
      ℕ → List (Migration Statement) → Connection Schema → Result ℕ × Connection Schema
  unfolding apply_migration latest
  run_from previous [] c = (ok (latest (rows c)), c)
  run_from previous (m ∷ ms) c =
      if leb m.version previous
      then (err value_error, c)
      else go_on (run_from m.version ms) (apply_migration m c)

  -- `run_migrations`
  unfoldable pub run_migrations :
      List (Migration Statement) → Connection Schema → Result ℕ × Connection Schema
  unfolding run_from
  run_migrations migrations c = run_from 0 migrations (create_table c)
