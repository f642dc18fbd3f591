-- ===== src/Persistence/Postgres/Plans.antt =====
-- `PostgresOptimizationPlanStore` (src/persistence/postgres.py) on the database of
-- `Persistence.OptimizationStore`.
pub mod Same
use shelf_life_copilot.Prelude.{
  ℕ, suc, ◌+◌, String, Bool, true, false, not, Option, none, some, List, [], ◌∷◌, ◌++◌, DateTime,
  Result, ok, err, Error, ◌>>=◌, value_error, key_error, integrity_error, nat_eq, if◌then◌else◌,
}
use shelf_life_copilot.Prelude.Table.{find, contains, update_where}
use shelf_life_copilot.Models.WorkOrder.{WorkOrder}
use shelf_life_copilot.Optimization.{OptimizationAssignment, OptimizationBatch}
use shelf_life_copilot.Optimization.Plans.{OptimizationPlan, executed, is_pending, validate_plan}
use shelf_life_copilot.Persistence.Approvals.{Tables, stored, insert_decision, insert_work_order}
use shelf_life_copilot.Persistence.OptimizationStore.{
  Database, Supplies, has_plan_id, batch_of, known_batch, approved_decision, pending_order,
  decision_key,
}

-- `save`
unfoldable pub save : OptimizationPlan → Database → Result (Unit {0}) × Database
save p db = if contains (has_plan_id p.plan_id) db.plans then (err integrity_error, db) else (
  ok tt,
  record db {
    plans =
        db.plans
        ++ record p { created_at = stored p.created_at; approved_by = none; approved_at = none }
          ∷ [];
  },
)

-- `_optimization_from_row`
abbrev pub optimization_row : Option OptimizationPlan → Result (Option OptimizationPlan)
optimization_row none = ok none
optimization_row (some p) = validate_plan p >>= λ v. ok (some v)

-- `get`
unfoldable pub get : String → Database → Result (Option OptimizationPlan)
get id db = optimization_row (find (has_plan_id id) db.plans)

-- The tables after some rounds of the loop or the exception, and the last number of the sequence of
-- `decisions`, which a rollback does not give back.
abbrev pub Progress : Type 0
Progress = Result Tables × ℕ

-- the second INSERT, whose decision has the number `id`
abbrev pub with_order : ℕ → WorkOrder → Result Tables → Progress
with_order id o (err e) = (err e, id)
with_order id o (ok t) = (insert_work_order id o t, id)

-- the two INSERTs of one assignment
unfoldable pub insert_batch :
    Supplies
    → OptimizationPlan
    → DateTime
    → ℕ
    → OptimizationAssignment
    → OptimizationBatch
    → Tables
    → Progress
insert_batch s p at n a b t =
    with_order (t.last_id + 1) (pending_order (s.new_id n) p at a b)
      (insert_decision (approved_decision s p at a b) (decision_key p.plan_id b) t)

-- the next round runs on the tables of this one; the first argument is that round
abbrev pub go_on : (Tables → Progress) → Progress → Progress
go_on next (err e, id) = (err e, id)
go_on next (ok t, id) = next t

abbrev pub with_batch : ℕ → (OptimizationBatch → Progress) → Option OptimizationBatch → Progress
with_batch id body none = (err key_error, id)
with_batch id body (some b) = body b

-- the loop over the assignments
unfoldable pub insert_all :
    Supplies → OptimizationPlan → DateTime → ℕ → List OptimizationAssignment → Tables → Progress
unfolding insert_batch batch_of
insert_all s p at n [] t = (ok t, t.last_id)
insert_all s p at n (a ∷ rest) t = elim (nat_eq a.allocated_qty 0) [
  | true ↦ insert_all s p at n rest t
  | false ↦
      with_batch t.last_id
        (λ b. go_on (λ t'. insert_all s p at (suc n) rest t') (insert_batch s p at n a b t))
        (batch_of a.batch_id p.request.batches)
]

-- the `except` clauses
abbrev pub translated : Error → Error
translated integrity_error = value_error
translated e = e

abbrev pub committed :
    String
    → String
    → DateTime
    → OptimizationPlan
    → Database
    → Progress
    → Result OptimizationPlan × Database
committed id by at p db (err e, number) =
    (err (translated e), record db { tables = record db.tables { last_id = number } })
committed id by at p db (ok t, number) = (
  ok (record p { status = executed; approved_by = some by; approved_at = some at }),
  record {
    plans =
        update_where (has_plan_id id)
          (λ q. record q {
            status = executed;
            approved_by = some by;
            approved_at = some (stored at);
          })
          db.plans;
    tables = t;
  },
)

abbrev pub locked_plan :
    Supplies
    → String
    → String
    → DateTime
    → Database
    → Result (Option OptimizationPlan)
    → Result OptimizationPlan × Database
locked_plan s id by at db (err e) = (err e, db)
locked_plan s id by at db (ok none) = (err key_error, db)
locked_plan s id by at db (ok (some p)) =
    if is_pending p.status
    then committed id by at p db (insert_all s p (stored at) 0 p.result.assignments db.tables)
    else (err value_error, db)

-- `execute`, where the row of the plan is locked
unfoldable pub execute :
    Supplies → String → String → DateTime → Database → Result OptimizationPlan × Database
unfolding insert_all
execute s id by at db =
    if not at.tz
    then (err value_error, db)
    else locked_plan s id by at db (optimization_row (find (has_plan_id id) db.plans))
