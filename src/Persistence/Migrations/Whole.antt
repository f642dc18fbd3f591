-- ===== src/Persistence/Migrations/Whole.antt =====
-- Migrations are applied whole, or not at all (src/persistence/migrations.py).
use shelf_life_copilot.Prelude.{
  ℕ, ◌≡◌, refl, sym, ◌∙◌, ap, true, false, List, [], ◌∷◌, ◌++◌, Result, ok, err, Error, Bool-cases,
  inl, inr,
}
use shelf_life_copilot.Prelude.Table.{contains}
use shelf_life_copilot.Persistence.Migrations.{
  Migration, Migrated, Connection, Rows, rows, row_of, has_version, commit, rollback, with_schema,
  with_rows, then_execute, execute_all, ended, apply_migration,
}

-- No transaction is open.
abbrev pub IsClosed : {Schema : Type 0} → Connection Schema → Type 0
IsClosed c = c.committed ≡ c.current

module _ {Statement Schema : Type 0}
    (execute : Statement → Schema → Result (Unit {0}) × Schema) where
  -- Every statement succeeds, from one schema to the other.
  abbrev pub Executed : List Statement → Schema → Schema → Type 0
  Executed [] s s' = s ≡ s'
  Executed (statement ∷ rest) s s' =
      (mid : Schema) × (execute statement s ≡ (ok tt, mid)) × Executed rest mid s'

  -- Migrations take a schema and a table to another: one whose version is in the table does nothing, and
  -- each other one executes all its statements and adds its row.
  pub data Applied : List (Migration Statement) → Rows → Schema → Rows → Schema → Type 0 where
    nothing : {r : Rows} {s : Schema} → Applied [] r s r s
    skipped :
        {m : Migration Statement} {ms : List (Migration Statement)} {r r' : Rows} {s s' : Schema}
        → contains (has_version m.version) r ≡ true
        → Applied ms r s r' s'
        → Applied (m ∷ ms) r s r' s'
    migrated :
        {m : Migration Statement} {ms : List (Migration Statement)} {r r' : Rows}
        {s mid s' : Schema}
        → contains (has_version m.version) r ≡ false
        → Executed m.statements s mid
        → Applied ms (r ++ row_of m ∷ []) mid r' s'
        → Applied (m ∷ ms) r s r' s'

  -- What executing some statements does, and that it leaves the table and what was committed alone.
  pub data Ran (statements : List Statement) (c : Connection Schema)
      (x : Result (Unit {0}) × Connection Schema) : Type 0 where
    all_done :
        (s : Schema)
        → Executed statements c.current.schema s
        → x ≡ (ok tt, with_schema c s)
        → Ran statements c x
    stopped : (e : Error) → (s : Schema) → x ≡ (err e, with_schema c s) → Ran statements c x

  then_execute-Ran :
      (statement : Statement) (rest : List Statement) (c : Connection Schema)
      (m : Result (Unit {0}) × Schema)
      → execute statement c.current.schema ≡ m
      → ((s : Schema) → Ran rest (with_schema c s) (execute_all execute rest (with_schema c s)))
      → Ran (statement ∷ rest) c (then_execute execute (execute_all execute rest) c m)
  then_execute-Ran statement rest c (err e, s) h later = stopped e s refl
  then_execute-Ran statement rest c (ok tt, s) h later = elim (later s) [
    | all_done s' done same ↦ all_done s' (s, h, done) same
    | stopped e s' same ↦ stopped e s' same
  ]

  execute_all-Ran :
      (statements : List Statement) (c : Connection Schema)
      → Ran statements c (execute_all execute statements c)
  unfolding execute_all
  execute_all-Ran [] c = all_done c.current.schema refl refl
  execute_all-Ran (statement ∷ rest) c =
      then_execute-Ran statement rest c (execute statement c.current.schema) refl
        (λ s. execute_all-Ran rest (with_schema c s))

  -- What one transaction does.
  pub data Ended (m : Migration Statement) (c : Connection Schema)
      (x : Result (Unit {0}) × Connection Schema) : Type 0 where
    present : contains (has_version m.version) (rows c) ≡ true → x ≡ (ok tt, c) → Ended m c x
    new :
        (s : Schema)
        → contains (has_version m.version) (rows c) ≡ false
        → Executed m.statements c.current.schema s
        → x ≡ (ok tt, commit (with_rows (with_schema c s) (rows c ++ row_of m ∷ [])))
        → Ended m c x
    undone : (e : Error) → x ≡ (err e, c) → Ended m c x

  pub commit_closed : (c : Connection Schema) → IsClosed c → commit c ≡ c
  commit_closed c h = ap (λ (z : Migrated Schema). record c { committed = z }) (sym h)

  rollback_closed :
      (c : Connection Schema) (s : Schema) → IsClosed c → rollback (with_schema c s) ≡ c
  rollback_closed c s h = ap (λ (z : Migrated Schema). record c { current = z }) h

  pub apply_migration-Ended :
      (m : Migration Statement) (c : Connection Schema)
      → IsClosed c
      → Ended m c (apply_migration execute m c)
  unfolding apply_migration
  apply_migration-Ended m c closed = elim (Bool-cases (contains (has_version m.version) (rows c))) [
    | inl e ↦ rw e (present e (ap (λ z. (ok tt, z)) (commit_closed c closed)))
    | inr e ↦ rw e (elim (execute_all-Ran m.statements c) [
      | all_done s done same ↦ new s e done (ap (ended execute m) same)
      | stopped x s same ↦
          undone x (ap (ended execute m) same ∙ ap (λ z. (err x, z)) (rollback_closed c s closed))
    ])
  ]

  -- What a run leaves: no open transaction, and the schema and the table to which its first migrations, to
  -- some point, take those from before; a run that returns has got through all of them.
  pub record IsWhole (ms : List (Migration Statement)) (c : Connection Schema)
      (x : Result ℕ × Connection Schema) : Type 0 where
    pub closed : IsClosed x.1
    pub first : List (Migration Statement)
    pub rest : List (Migration Statement)
    pub split : ms ≡ first ++ rest
    pub whole : Applied first (rows c) c.current.schema (rows x.1) x.1.current.schema
    pub complete : (v : ℕ) → x.0 ≡ ok v → rest ≡ []
