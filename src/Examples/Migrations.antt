-- ===== src/Examples/Migrations.antt =====
-- Two migrations of which the second one fails, then the first alone (src/persistence/migrations.py). A schema
-- is the list of the statements that were executed, and the statement "" fails after a change.
use shelf_life_copilot.Prelude.{
  String, ◌≡◌, refl, none, some, List, [], ◌∷◌, ◌++◌, Result, ok, err, failure, ◌==◌, if◌then◌else◌,
}
use shelf_life_copilot.Prelude.Table.{All, contains}
use shelf_life_copilot.Persistence.Migrations.{
  Migration, Migrated, Connection, rows, latest, execute_all, apply_migration, run_from,
  run_migrations,
}
use shelf_life_copilot.Persistence.Migrations.Runs.{IsApplied, run_migrations-again}

abbrev execute : String → List String → Result (Unit {0}) × List String
execute statement s = (if statement == "" then err failure else ok tt, s ++ statement ∷ [])

abbrev closed : Migrated (List String) → Connection (List String)
closed m = record { current = m; committed = m }

abbrev fresh : Connection (List String)
fresh = closed (record { schema = []; table = none })

abbrev orders : Migration String
orders = record { version = 1; name = "orders"; statements = "create" ∷ "index" ∷ [] }

abbrev tasks : Migration String
tasks = record { version = 2; name = "tasks"; statements = "create" ∷ "" ∷ [] }

abbrev first_only : Connection (List String)
first_only = closed (record { schema = "create" ∷ "index" ∷ []; table = some ((1, "orders") ∷ []) })

runs : run_migrations execute (orders ∷ []) fresh ≡ (ok 1, first_only)
unfolding run_migrations run_from apply_migration execute_all latest contains
runs = refl

-- the second migration is rolled back
fails : run_migrations execute (orders ∷ tasks ∷ []) fresh ≡ (err failure, first_only)
unfolding run_migrations run_from apply_migration execute_all latest contains
fails = refl

run_migrations-again_example :
    All (IsApplied first_only) (orders ∷ [])
    × (1 ≡ latest (rows first_only))
    × (run_migrations execute (orders ∷ []) first_only ≡ (ok 1, first_only))
run_migrations-again_example = run_migrations-again execute (orders ∷ []) fresh runs
