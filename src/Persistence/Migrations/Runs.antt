-- ===== src/Persistence/Migrations/Runs.antt =====
-- Migrations are applied once (src/persistence/migrations.py).
use shelf_life_copilot.Prelude.{
  sym, Option, some, ap, ◌∙◌, ℕ, String, ◌≡◌, refl, true, false, List, [], ◌∷◌, ◌++◌, Result, ok,
  err, nat_eq_iff, leb, Bool-cases, inl, inr,
}
use shelf_life_copilot.Prelude.Table.{All, contains}
use shelf_life_copilot.Persistence.Migrations.{
  Migration, Connection, Rows, rows, row_of, has_version, commit, create_table, latest,
  apply_migration, go_on, run_from, run_migrations,
}
use shelf_life_copilot.Persistence.Migrations.Whole.{
  IsClosed, Ended, present, new, undone, apply_migration-Ended, commit_closed,
}

-- the migration's version is in the table
abbrev pub IsApplied :
    {Statement Schema : Type 0} → Connection Schema → Migration Statement → Type 0
IsApplied c m = contains (has_version m.version) (rows c) ≡ true

-- the table is there
abbrev HasTable : {Schema : Type 0} → Connection Schema → Type 0
HasTable c = c.current.table ≡ some (rows c)

contains_more :
    (version : ℕ) (xs ys : List (ℕ × String))
    → contains (has_version version) xs ≡ true
    → contains (has_version version) (xs ++ ys) ≡ true
unfolding contains
contains_more version [] ys h = absurd (cc)
contains_more version (x ∷ xs) ys h = elim (Bool-cases (has_version version x)) [
  | inl e ↦ rw e refl
  | inr e ↦ rw e (contains_more version xs ys (rw (contains, e) at h))
]

contains_last :
    (version : ℕ) (name : String) (xs : List (ℕ × String))
    → contains (has_version version) (xs ++ (version, name) ∷ []) ≡ true
unfolding contains
contains_last version name [] = rw ((nat_eq_iff version version).1 refl) refl
contains_last version name (x ∷ xs) = elim (Bool-cases (has_version version x)) [
  | inl e ↦ rw e refl
  | inr e ↦ rw e (contains_last version name xs)
]

module _ {Statement Schema : Type 0}
    (execute : Statement → Schema → Result (Unit {0}) × Schema) where
  go_on-ok :
      (next : Connection Schema → Result ℕ × Connection Schema)
      (x : Result (Unit {0}) × Connection Schema) {v : ℕ} {c' : Connection Schema}
      → go_on execute next x ≡ (ok v, c')
      → (mid : Connection Schema) × (x ≡ (ok tt, mid)) × (next mid ≡ (ok v, c'))
  go_on-ok next (err e, c) h = absurd (cc)
  go_on-ok next (ok tt, mid) h = (mid, refl, h)

  -- What a transaction that succeeds keeps and adds.
  record IsStep (m : Migration Statement) (c mid : Connection Schema) : Type 0 where
    pub closed : IsClosed mid
    pub added : IsApplied mid m
    pub tabled : HasTable c → HasTable mid
    pub kept :
        (version : ℕ)
        → contains (has_version version) (rows c) ≡ true
        → contains (has_version version) (rows mid) ≡ true

  done_same :
      {x : Result (Unit {0}) × Connection Schema} {a b : Connection Schema}
      → x ≡ (ok tt, a)
      → x ≡ (ok tt, b)
      → a ≡ b
  done_same h k = ap (λ (z : Result (Unit {0}) × Connection Schema). z.1) (sym h ∙ k)

  Ended-IsStep :
      (m : Migration Statement) (c : Connection Schema) {mid : Connection Schema}
      (x : Result (Unit {0}) × Connection Schema)
      → IsClosed c
      → Ended execute m c x
      → x ≡ (ok tt, mid)
      → IsStep m c mid
  Ended-IsStep m c x closed (present e same) h =
      rw (← done_same same h)
        (record { closed = closed; added = e; tabled = λ t. t; kept = λ version k. k })
  Ended-IsStep m c x closed (new s e done same) h = rw (← done_same same h) (record {
    closed = refl;
    added = contains_last m.version m.name (rows c);
    tabled = λ t. refl;
    kept = λ version k. contains_more version (rows c) (row_of m ∷ []) k;
  })
  Ended-IsStep m c x closed (undone e same) h = absurd (cc)

  -- the parts of a step that succeeds
  run_from-ok :
      (previous : ℕ) (m : Migration Statement) (ms : List (Migration Statement))
      (c : Connection Schema) {v : ℕ} {c' : Connection Schema}
      → IsClosed c
      → run_from execute previous (m ∷ ms) c ≡ (ok v, c')
      → (leb m.version previous ≡ false)
        × (mid : Connection Schema) × IsStep m c mid
        × (run_from execute m.version ms mid ≡ (ok v, c'))
  unfolding run_from
  run_from-ok previous m ms c closed h = elim (Bool-cases (leb m.version previous)) [
    | inl e ↦ absurd (cc (rw e at h))
    | inr e ↦
        (let (mid, first, rest) =
            go_on-ok (run_from execute m.version ms) (apply_migration execute m c) (rw e at h) in
          (
            e,
            mid,
            Ended-IsStep m c (apply_migration execute m c) closed
                (apply_migration-Ended execute m c closed) first,
            rest,
          ))
  ]

  run_from-keeps :
      (previous : ℕ) (ms : List (Migration Statement)) (c : Connection Schema) (version : ℕ) {v : ℕ}
      {c' : Connection Schema}
      → IsClosed c
      → run_from execute previous ms c ≡ (ok v, c')
      → contains (has_version version) (rows c) ≡ true
      → contains (has_version version) (rows c') ≡ true
  unfolding run_from
  run_from-keeps previous [] c version closed h k =
      rw (ap (λ (x : Result ℕ × Connection Schema). x.1) h) at k
  run_from-keeps previous (m ∷ ms) c version closed h k =
      let (_, mid, step, rest) = run_from-ok previous m ms c closed h in
      run_from-keeps m.version ms mid version step.closed rest (step.kept version k)

  -- after a successful run every migration is in the table
  run_from-IsApplied :
      (previous : ℕ) (ms : List (Migration Statement)) (c : Connection Schema) {v : ℕ}
      {c' : Connection Schema}
      → IsClosed c
      → run_from execute previous ms c ≡ (ok v, c')
      → All (IsApplied c') ms
  run_from-IsApplied previous [] c closed h = tt
  run_from-IsApplied previous (m ∷ ms) c closed h =
      let (_, mid, step, rest) = run_from-ok previous m ms c closed h in
      (
        run_from-keeps m.version ms mid m.version step.closed rest step.added,
        run_from-IsApplied m.version ms mid step.closed rest,
      )

  run_from-latest :
      (previous : ℕ) (ms : List (Migration Statement)) (c : Connection Schema) {v : ℕ}
      {c' : Connection Schema}
      → IsClosed c
      → run_from execute previous ms c ≡ (ok v, c')
      → v ≡ latest (rows c')
  unfolding run_from
  run_from-latest previous [] c closed h = cc
  run_from-latest previous (m ∷ ms) c closed h =
      let (_, mid, step, rest) = run_from-ok previous m ms c closed h in
      run_from-latest m.version ms mid step.closed rest

  applied_again :
      (m : Migration Statement) (c : Connection Schema)
      → IsClosed c
      → IsApplied c m
      → apply_migration execute m c ≡ (ok tt, c)
  unfolding apply_migration
  applied_again m c closed a = rw a (ap (λ z. (ok tt, z)) (commit_closed execute c closed))

  -- a run over migrations that are all in the table does nothing
  run_from-done :
      (previous : ℕ) (ms : List (Migration Statement)) (c c2 : Connection Schema) {v : ℕ}
      {c' : Connection Schema}
      → IsClosed c
      → IsClosed c2
      → run_from execute previous ms c ≡ (ok v, c')
      → All (IsApplied c2) ms
      → run_from execute previous ms c2 ≡ (ok (latest (rows c2)), c2)
  unfolding run_from
  run_from-done previous [] c c2 closed closed2 h a = refl
  run_from-done previous (m ∷ ms) c c2 closed closed2 h a =
      let (larger, mid, step, rest) = run_from-ok previous m ms c closed h in
      rw (larger, applied_again m c2 closed2 a.0)
        (run_from-done m.version ms mid c2 step.closed closed2 rest a.1)

  run_from-HasTable :
      (previous : ℕ) (ms : List (Migration Statement)) (c : Connection Schema) {v : ℕ}
      {c' : Connection Schema}
      → IsClosed c
      → HasTable c
      → run_from execute previous ms c ≡ (ok v, c')
      → IsClosed c' × HasTable c'
  unfolding run_from
  run_from-HasTable previous [] c closed t h = (
    rw (ap (λ (x : Result ℕ × Connection Schema). x.1) h) at closed,
    rw (ap (λ (x : Result ℕ × Connection Schema). x.1) h) at t,
  )
  run_from-HasTable previous (m ∷ ms) c closed t h =
      let (_, mid, step, rest) = run_from-ok previous m ms c closed h in
      run_from-HasTable m.version ms mid step.closed (step.tabled t) rest

  table_kept : (c : Connection Schema) → IsClosed c → HasTable c → create_table c ≡ c
  table_kept c closed t =
      ap (λ (z : Option Rows). commit (record c { current = record (c.current) { table = z } }))
        (sym t)
      ∙ commit_closed execute c closed

  -- After a run that succeeds, every migration is in the table, the answer is the latest version there,
  -- and the same run again changes nothing and answers the same.
  pub run_migrations-again :
      (ms : List (Migration Statement)) (c : Connection Schema) {v : ℕ} {c' : Connection Schema}
      → run_migrations execute ms c ≡ (ok v, c')
      → All (IsApplied c') ms × (v ≡ latest (rows c')) × (run_migrations execute ms c' ≡ (ok v, c'))
  unfolding run_migrations
  run_migrations-again ms c {v} {c'} h =
      let applied = run_from-IsApplied 0 ms (create_table c) refl h in
      let last = run_from-latest 0 ms (create_table c) refl h in
      let (closed, t) = run_from-HasTable 0 ms (create_table c) refl refl h in
      (
        applied,
        last,
        ap (run_from execute 0 ms) (table_kept c' closed t)
            ∙ run_from-done 0 ms (create_table c) c' refl closed h applied
            ∙ ap (λ n. (ok n, c')) (sym last),
      )
