-- ===== src/Examples/Execution.antt =====
-- A plan of two batches that is executed (src/persistence/optimization_store.py and postgres.py,
-- src/api/router.py).
use shelf_life_copilot.Prelude.{
  ℕ, String, ◌≡◌, refl, none, some, [], ◌∷◌, ok, err, value_error, utc,
}
use shelf_life_copilot.Prelude.Int.{pos}
use shelf_life_copilot.Prelude.Table.{find, contains}
use shelf_life_copilot.Models.Action.{ActionType, transform}
use shelf_life_copilot.Optimization.{OptimizationBatch, OptimizationAssignment}
use shelf_life_copilot.Optimization.Plans.{
  OptimizationPlan, pending_approval, executed, validate_plan,
}
use shelf_life_copilot.Persistence.Approvals.{empty, insert_decision, insert_work_order}
use shelf_life_copilot.Persistence.OptimizationStore.{
  Supplies, Database, execute, order_all, order_batch, batch_of,
}
use shelf_life_copilot.Persistence.OptimizationStore.Once.{
  IsExecuted, execute-IsExecuted, execute-once,
}
use shelf_life_copilot.Persistence.OptimizationStore.{get}
use shelf_life_copilot.Persistence.Postgres.Plans as Postgres
use shelf_life_copilot.Persistence.Postgres.Plans.Same.{SameRows, execute-SameRows}
use shelf_life_copilot.Security.{Principal, operator, require_customer}
use shelf_life_copilot.Api.Plans.{answered, execute_optimization_plan}
use shelf_life_copilot.Api.Plans.Again.{Refused, execute_optimization_plan-again}

abbrev batch : String → OptimizationBatch
batch id = record {
  batch_id = id;
  material_name = "";
  days_left = pos 2;
  stock_qty = 5;
  allowed_actions = transform ∷ [];
}

abbrev assigned : String → ℕ → OptimizationAssignment
assigned id qty = record { batch_id = id; action = transform; allocated_qty = qty }

abbrev capacity : ActionType → ℕ
capacity _ = 5

abbrev plan : OptimizationPlan
plan = record {
  plan_id = "p1";
  request = record {
    customer_id = "c1";
    batches = batch "b1" ∷ batch "b2" ∷ [];
    capacity_by_action = capacity;
  };
  result = record { assignments = assigned "b1" 5 ∷ assigned "b2" 0 ∷ []; coverage_rate = 50 };
  status = pending_approval;
  created_at = utc 10;
  approved_by = none;
  approved_at = none;
}

abbrev supplies : Supplies
supplies = record { note = λ id qty. "allocated"; new_id = λ n. "w1" }

abbrev database : Database
database = record { plans = plan ∷ []; tables = empty }

abbrev executed_database : Database
executed_database = (execute supplies "p1" "ann" (utc 20) database).1

abbrev executed_plan : OptimizationPlan
executed_plan = record plan {
  status = executed;
  approved_by = some "ann";
  approved_at = some (utc 20);
}

executes : execute supplies "p1" "ann" (utc 20) database ≡ (ok executed_plan, executed_database)
unfolding execute order_all order_batch batch_of find contains validate_plan insert_decision
    insert_work_order
executes = refl

execute-IsExecuted_example :
    IsExecuted supplies "p1" "ann" (utc 20) database executed_plan executed_database
execute-IsExecuted_example = execute-IsExecuted supplies "p1" "ann" (utc 20) database executes

execute-once_example :
    execute supplies "p1" "bob" (utc 30) executed_database ≡ (err value_error, executed_database)
execute-once_example =
    execute-once supplies "p1" "ann" (utc 20) database executes supplies "bob" (utc 30)

abbrev ann : Principal
ann = record { subject = "ann"; customer_ids = "c1" ∷ []; roles = operator ∷ [] }

answers :
    execute_optimization_plan supplies ann "p1" "ann" 20 database
    ≡ (answered executed_plan, executed_database)
unfolding execute_optimization_plan get execute order_all order_batch batch_of find contains
    validate_plan insert_decision insert_work_order require_customer
answers = refl

execute_optimization_plan-again_example :
    Refused executed_database
      (execute_optimization_plan supplies ann "p1" "bob" 30 executed_database)
execute_optimization_plan-again_example =
    execute_optimization_plan-again supplies ann "p1" "ann" 20 database answers supplies ann "bob"
      30

execute-SameRows_example :
    SameRows
      (Postgres.execute supplies "p1" "ann" (utc 20) database)
      (execute supplies "p1" "ann" (utc 20) database)
execute-SameRows_example = execute-SameRows supplies "p1" "ann" (utc 20) database
