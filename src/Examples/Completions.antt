-- ===== src/Examples/Completions.antt =====
-- A completion request for an order in progress (src/api/router.py).
use shelf_life_copilot.Prelude.{refl, [], ◌∷◌, ok}
use shelf_life_copilot.Prelude.Table.{find, contains}
use shelf_life_copilot.Models.WorkOrder.{validate, receipt_fits}
use shelf_life_copilot.Persistence.IdempotencyStore.Phases.{phase}
use shelf_life_copilot.Persistence.WorkOrderStore.{get}
use shelf_life_copilot.Security.{Principal, operator, require_customer}
use shelf_life_copilot.Completion.{
  WorkOrderCompletionRequest, Json, Database, key_of, completion, complete_work_order,
}
use shelf_life_copilot.Completion.Settled.{IsSettled, complete_work_order-IsSettled}
use shelf_life_copilot.Examples.Orders.{started, moved_tables}

abbrev command : WorkOrderCompletionRequest
command = record {
  actual_qty = 5;
  actual_savings = 40;
  source = "api";
  operator_id = "ann";
  idempotency_key = "r1";
}

abbrev json : Json
json = record { to_json = λ o. "{}"; from_json = λ s. ok started }

abbrev ann : Principal
ann = record { subject = "ann"; customer_ids = "c1" ∷ []; roles = operator ∷ [] }

abbrev database : Database
database = record { tables = moved_tables; records = [] }

complete_work_order-IsSettled_example :
    IsSettled json
      (key_of command)
      (completion "w1" command 30 moved_tables)
      moved_tables
      (complete_work_order json ann "w1" command 30 database)
unfolding get find contains validate receipt_fits require_customer phase
complete_work_order-IsSettled_example =
    complete_work_order-IsSettled json ann "w1" command 30 database {o = started} tt refl refl refl
