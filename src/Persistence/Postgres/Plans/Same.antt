-- ===== src/Persistence/Postgres/Plans/Same.antt =====
-- Both stores of optimization plans (src/persistence/postgres.py and
-- src/persistence/optimization_store.py) execute a plan alike.
use shelf_life_copilot.Prelude.{
  ℕ, suc, ◌+◌, String, ◌≡◌, refl, ◌∙◌, ap, Bool, true, false, not, Option, none, some, List, [],
  ◌∷◌, DateTime, Result, ok, err, ◌>>=◌, value_error, key_error, nat_eq, Bool-cases, inl, inr,
  if◌then◌else◌,
}
use shelf_life_copilot.Prelude.Table.{find}
use shelf_life_copilot.Optimization.{OptimizationAssignment, OptimizationBatch}
use shelf_life_copilot.Optimization.Plans.{OptimizationPlan, is_pending, validate_plan}
use shelf_life_copilot.Persistence.Approvals.{Tables, stored, insert_decision, insert_work_order}
use shelf_life_copilot.Persistence.OptimizationStore.{
  Database, Supplies, has_plan_id, batch_of, known_batch, order_batch, order_all, as_value_error,
  written, execute_plan, required_plan, approved_decision, decision_key,
}
use shelf_life_copilot.Persistence.OptimizationStore as OptimizationStore
use shelf_life_copilot.Persistence.Postgres.Plans.{
  Progress, with_order, insert_batch, go_on, with_batch, insert_all, committed, locked_plan,
  optimization_row, execute,
}

-- The same answer, and the same rows; only the number that the sequence gives next may differ.
pub record SameRows (x y : Result OptimizationPlan × Database) : Type 0 where
  pub answer : x.0 ≡ y.0
  pub plans : x.1.plans ≡ y.1.plans
  pub decisions : x.1.tables.decisions ≡ y.1.tables.decisions
  pub work_orders : x.1.tables.work_orders ≡ y.1.tables.work_orders

same_rows : (x : Result OptimizationPlan × Database) → SameRows x x
same_rows x = record { answer = refl; plans = refl; decisions = refl; work_orders = refl }

module _ (s : Supplies) (p : OptimizationPlan) (at : DateTime) where
  insert_batch_same :
      (n : ℕ) (a : OptimizationAssignment) (b : OptimizationBatch) (t : Tables)
      → (insert_batch s p at n a b t).0 ≡ order_batch s p at n a b t
  unfolding insert_batch order_batch
  insert_batch_same n a b t =
      go (insert_decision (approved_decision s p at a b) (decision_key p.plan_id b) t)
    where
      go :
          (m : Result Tables)
          → (with_order (t.last_id + 1) (OptimizationStore.pending_order (s.new_id n) p at a b) m).0
            ≡ (m >>= λ t'.
                insert_work_order
                  (t.last_id + 1)
                  (OptimizationStore.pending_order (s.new_id n) p at a b)
                  t')
      go (err e) = refl
      go (ok t') = refl

  go_on_same :
      (next : Tables → Progress) (then_next : Tables → Result Tables) (x : Progress)
      → ((t : Tables) → (next t).0 ≡ then_next t)
      → (go_on next x).0 ≡ (x.0 >>= then_next)
  go_on_same next then_next (err e, id) h = refl
  go_on_same next then_next (ok t, id) h = h t

  with_batch_same :
      (id : ℕ) (body : OptimizationBatch → Progress) (then_body : OptimizationBatch → Result Tables)
      (m : Option OptimizationBatch)
      → ((b : OptimizationBatch) → (body b).0 ≡ then_body b)
      → (with_batch id body m).0 ≡ (known_batch m >>= then_body)
  with_batch_same id body then_body none h = refl
  with_batch_same id body then_body (some b) h = h b

  insert_all_same :
      (n : ℕ) (plan : List OptimizationAssignment) (t : Tables)
      → (insert_all s p at n plan t).0 ≡ order_all s p at n plan t
  unfolding insert_all order_all
  insert_all_same n [] t = refl
  insert_all_same n (a ∷ rest) t = elim (Bool-cases (nat_eq a.allocated_qty 0)) [
    | inl e ↦ rw (insert_all, order_all, e) (insert_all_same n rest t)
    | inr e ↦
        rw (insert_all, order_all, e)
          (with_batch_same t.last_id _ _ (batch_of a.batch_id p.request.batches) (λ b.
            go_on_same (λ t'. insert_all s p at (suc n) rest t') _ (insert_batch s p at n a b t)
              (λ t'. insert_all_same (suc n) rest t')
            ∙ ap (λ (m : Result Tables). m >>= λ t'. order_all s p at (suc n) rest t')
                (insert_batch_same n a b t)))
  ]

committed-SameRows :
    (id by : String) (at : DateTime) (p : OptimizationPlan) (db : Database) (x : Progress)
    (m : Result Tables)
    → x.0 ≡ m
    → SameRows (committed id by at p db x) (written id by at p db m)
committed-SameRows id by at p db (err e, number) m h =
    rw (← h) (record { answer = refl; plans = refl; decisions = refl; work_orders = refl })
committed-SameRows id by at p db (ok t, number) m h =
    rw (← h) (record { answer = refl; plans = refl; decisions = refl; work_orders = refl })

module _ (s : Supplies) (id by : String) (at : DateTime) (db : Database) where
  valid-SameRows :
      (p : OptimizationPlan)
      → SameRows (locked_plan s id by at db (ok (some p))) (execute_plan s id by at db (ok p))
  valid-SameRows p = elim (Bool-cases (is_pending p.status)) [
    | inl e ↦
        rw (locked_plan, e)
          (committed-SameRows id by at p db
            (insert_all s p (stored at) 0 p.result.assignments db.tables)
            (order_all s p (stored at) 0 p.result.assignments db.tables)
            (insert_all_same s p (stored at) 0 p.result.assignments db.tables))
    | inr e ↦ rw (locked_plan, e) (same_rows (err value_error, db))
  ]

  read-SameRows :
      (m : Option OptimizationPlan)
      → SameRows
          (locked_plan s id by at db (optimization_row m))
          (execute_plan s id by at db (required_plan m))
  read-SameRows none = same_rows (err key_error, db)
  read-SameRows (some p) = by_validity (validate_plan p)
    where
      by_validity :
          (v : Result OptimizationPlan)
          → SameRows
              (locked_plan s id by at db (v >>= λ q. ok (some q)))
              (execute_plan s id by at db v)
      by_validity (err e) = same_rows (err e, db)
      by_validity (ok q) = valid-SameRows q

-- An execution by the PostgreSQL store answers what the SQLite store answers and leaves the same
-- plans, decisions and work orders, errors included; after a rollback only the next number of the
-- sequence differs.
pub execute-SameRows :
    (s : Supplies) (id by : String) (at : DateTime) (db : Database)
    → SameRows (execute s id by at db) (OptimizationStore.execute s id by at db)
unfolding execute OptimizationStore.execute
execute-SameRows s id by at db = by_zone at.tz
  where
    by_zone :
        (aware : Bool)
        → SameRows
            (if not aware
              then (err value_error, db)
              else locked_plan s id by at db (optimization_row (find (has_plan_id id) db.plans)))
            (if aware
              then execute_plan s id by at db (required_plan (find (has_plan_id id) db.plans))
              else (err value_error, db))
    by_zone true = read-SameRows s id by at db (find (has_plan_id id) db.plans)
    by_zone false = same_rows (err value_error, db)
