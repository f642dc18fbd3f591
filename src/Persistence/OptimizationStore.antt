-- ===== src/Persistence/OptimizationStore.antt =====
-- `OptimizationPlanStore` (src/persistence/optimization_store.py) on the table `optimization_plans` and the
-- tables of `Persistence.Approvals`. The JSON columns stand for the request and the result that were
-- written to them. A transaction that raises leaves the database as it was.
pub mod Execution
pub mod Once
use Prim.Native.String
use shelf_life_copilot.Prelude.{
  ℕ, suc, ◌+◌, String, Bool, true, false, not, ◌&&◌, Option, none, some, List, [], ◌∷◌, ◌++◌,
  DateTime, Result, ok, err, Error, guard, ◌>>◌, ◌>>=◌, value_error, key_error, integrity_error,
  ◌==◌, nat_eq, if◌then◌else◌,
}
use shelf_life_copilot.Prelude.Table.{find, contains, update_where}
use shelf_life_copilot.Models.Action.{Amount, ActionType}
use shelf_life_copilot.Models.Decision.{Decision, DecisionOutcome}
use shelf_life_copilot.Models.WorkOrder.{WorkOrder, WorkOrderStatus}
use shelf_life_copilot.Optimization.{OptimizationBatch, OptimizationAssignment}
use shelf_life_copilot.Optimization.Plans.{
  OptimizationPlan, PlanStatus, pending_approval, executed, is_pending, validate_plan,
}
use shelf_life_copilot.Persistence.Approvals.{Tables, stored, insert_decision, insert_work_order}

pub record Database : Type 0 where
  pub plans : List OptimizationPlan
  pub tables : Tables

abbrev pub has_plan_id : String → OptimizationPlan → Bool
has_plan_id id p = p.plan_id == id

-- `save`, which writes no columns of an approval
unfoldable pub save : OptimizationPlan → Database → Result (Unit {0}) × Database
save p db = if contains (has_plan_id p.plan_id) db.plans then (err integrity_error, db) else (
  ok tt,
  record db {
    plans =
        db.plans
        ++ record p { created_at = stored p.created_at; approved_by = none; approved_at = none }
          ∷ [];
  },
)

-- `_from_row`
abbrev pub plan_row : Option OptimizationPlan → Result (Option OptimizationPlan)
plan_row none = ok none
plan_row (some p) = validate_plan p >>= λ v. ok (some v)

-- `get`
unfoldable pub get : String → Database → Result (Option OptimizationPlan)
get id db = plan_row (find (has_plan_id id) db.plans)

-- `{batch.batch_id: batch for batch in ...}[batch_id]`: of batches with one id the last
unfoldable pub batch_of : String → List OptimizationBatch → Option OptimizationBatch
batch_of id [] = none
batch_of id (b ∷ bs) = elim (batch_of id bs) [
  | none ↦ if b.batch_id == id then some b else none
  | some later ↦ some later
]

-- what the execution is given: the text of the note for an amount, and the ids that `uuid4` returns
pub record Supplies : Type 0 where
  pub note : String → Amount → String
  pub new_id : ℕ → String

-- `batch.material_name or batch.batch_id`
abbrev pub material : OptimizationBatch → String
material b = if b.material_name == "" then b.batch_id else b.material_name

abbrev pub decision_key : String → OptimizationBatch → String
decision_key plan b = String.◌++◌ "optimization:" (String.◌++◌ plan (String.◌++◌ ":" b.batch_id))

abbrev pub approved_decision :
    Supplies → OptimizationPlan → DateTime → OptimizationAssignment → OptimizationBatch → Decision
approved_decision s p at a b = record {
  batch_id = b.batch_id;
  customer_id = p.request.customer_id;
  material_name = material b;
  decided_at = at;
  action = a.action;
  outcome = DecisionOutcome.approved;
  savings_estimate = 0;
  actual_savings = none;
  actual_qty = none;
  notes = some (s.note p.plan_id a.allocated_qty);
}

abbrev pub pending_order :
    String → OptimizationPlan → DateTime → OptimizationAssignment → OptimizationBatch → WorkOrder
pending_order id p at a b = record {
  work_order_id = id;
  batch_id = b.batch_id;
  customer_id = p.request.customer_id;
  material_name = material b;
  action = a.action;
  status = WorkOrderStatus.pending;
  created_at = at;
  updated_at = at;
  actual_qty = none;
  actual_savings = none;
  completed_by = none;
  completed_at = none;
  completion_source = none;
}

-- the two INSERTs of one assignment
unfoldable pub order_batch :
    Supplies
    → OptimizationPlan
    → DateTime
    → ℕ
    → OptimizationAssignment
    → OptimizationBatch
    → Tables
    → Result Tables
order_batch s p at n a b t =
    insert_decision (approved_decision s p at a b) (decision_key p.plan_id b) t >>= λ t'.
    insert_work_order (t.last_id + 1) (pending_order (s.new_id n) p at a b) t'

abbrev pub known_batch : Option OptimizationBatch → Result OptimizationBatch
known_batch none = err key_error
known_batch (some b) = ok b

-- the loop over the assignments; `n` counts the ids that were taken
unfoldable pub order_all :
    Supplies
    → OptimizationPlan
    → DateTime
    → ℕ
    → List OptimizationAssignment
    → Tables
    → Result Tables
unfolding order_batch batch_of
order_all s p at n [] t = ok t
order_all s p at n (a ∷ rest) t = elim (nat_eq a.allocated_qty 0) [
  | true ↦ order_all s p at n rest t
  | false ↦
      (known_batch (batch_of a.batch_id p.request.batches) >>= λ b.
      order_batch s p at n a b t >>= λ t'. order_all s p at (suc n) rest t')
]

-- the UPDATE of the plan's row
abbrev pub approve_row : String → DateTime → OptimizationPlan → OptimizationPlan
approve_row approved_by at p = record p {
  status = executed;
  approved_by = some approved_by;
  approved_at = some (stored at);
}

-- `except sqlite3.IntegrityError`
abbrev pub as_value_error : Error → Error
as_value_error integrity_error = value_error
as_value_error e = e

abbrev pub written :
    String
    → String
    → DateTime
    → OptimizationPlan
    → Database
    → Result Tables
    → Result OptimizationPlan × Database
written id by at p db (err e) = (err (as_value_error e), db)
written id by at p db (ok t) = (
  ok (record p { status = executed; approved_by = some by; approved_at = some at }),
  record { plans = update_where (has_plan_id id) (approve_row by at) db.plans; tables = t },
)

abbrev pub execute_plan :
    Supplies
    → String
    → String
    → DateTime
    → Database
    → Result OptimizationPlan
    → Result OptimizationPlan × Database
execute_plan s id by at db (err e) = (err e, db)
execute_plan s id by at db (ok p) =
    if is_pending p.status
    then written id by at p db (order_all s p (stored at) 0 p.result.assignments db.tables)
    else (err value_error, db)

abbrev pub required_plan : Option OptimizationPlan → Result OptimizationPlan
required_plan none = err key_error
required_plan (some p) = validate_plan p

-- `execute`
unfoldable pub execute :
    Supplies → String → String → DateTime → Database → Result OptimizationPlan × Database
unfolding order_all
execute s id by at db =
    if at.tz
    then execute_plan s id by at db (required_plan (find (has_plan_id id) db.plans))
    else (err value_error, db)
