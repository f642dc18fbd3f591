-- ===== src/Persistence/Postgres/Decisions.antt =====
-- `PostgresDecisionStore` (src/persistence/postgres.py) on the tables of `Persistence.Approvals`.
pub mod Repeats
use shelf_life_copilot.Prelude.{
  ℕ, ◌+◌, String, Bool, true, false, not, ◌&&◌, Option, none, some, List, [], ◌∷◌, ◌++◌, DateTime,
  Result, ok, err, Error, guard, ◌>>◌, ◌>>=◌, value_error, ◌==◌, nat_eq,
}
use shelf_life_copilot.Prelude.Table.{find}
use shelf_life_copilot.Models.Action.{action_eq}
use shelf_life_copilot.Models.Decision.{Decision, is_approved}
use shelf_life_copilot.Models.WorkOrder.{WorkOrder, validate}
use shelf_life_copilot.Persistence.Approvals.{
  DecisionRow, WorkOrderRow, Tables, same_key, decision_values, insert_decision, insert_work_order,
}

-- BIGSERIAL: a number that is given out is not given again, also after a rollback
abbrev pub number_taken : Tables → Tables
number_taken t = record t { last_id = t.last_id + 1 }

-- `save`
unfoldable pub save : Decision → Tables → ℕ × Tables
save d t = (
  t.last_id + 1,
  record t {
    decisions =
        t.decisions
        ++ (record { id = t.last_id + 1; decision = decision_values d; idempotency_key = none }
            ∷ []);
    last_id = t.last_id + 1;
  },
)

-- `_work_order_from_row` of the eight columns that the SELECT of `record_approval` names
abbrev pub short_row : WorkOrder → WorkOrder
short_row o = record o {
  actual_qty = none;
  actual_savings = none;
  completed_by = none;
  completed_at = none;
  completion_source = none;
}

abbrev pub joined : Tables → Option DecisionRow → Option WorkOrderRow
joined t none = none
joined t (some d) = find (λ w. nat_eq w.decision_id d.id) t.work_orders

-- FROM decisions d JOIN work_orders w ON w.decision_id=d.id WHERE d.idempotency_key=...
unfoldable pub approval_for_key : String → Tables → Option WorkOrderRow
approval_for_key key t = joined t (find (λ d. same_key key d.idempotency_key) t.decisions)

-- the rest of the handler; the first argument is the exception
abbrev pub existing : Error → Option WorkOrderRow → Result (ℕ × WorkOrder × Bool)
existing e none = err e
existing e (some w) = validate (short_row w.order) >>= λ o. ok (w.decision_id, o, false)

unfoldable pub checks : Decision → WorkOrder → String → Result (Unit {0})
checks d o key =
    guard (is_approved d) value_error
    >> guard (not (key == "")) value_error
    >> guard
        (d.customer_id == o.customer_id
          && (d.batch_id == o.batch_id && action_eq d.action o.action))
        value_error

-- the two INSERTs
unfoldable pub inserts : Decision → WorkOrder → String → Tables → Result Tables
inserts d o key t = do t' ← insert_decision d key t; insert_work_order (t.last_id + 1) o t'

abbrev pub ended :
    WorkOrder → String → Tables → Result Tables → Result (ℕ × WorkOrder × Bool) × Tables
ended o key t (ok t') = (ok (t.last_id + 1, o, true), t')
ended o key t (err e) = (existing e (approval_for_key key t), number_taken t)

abbrev pub checked :
    Decision
    → WorkOrder
    → String
    → Tables
    → Result (Unit {0})
    → Result (ℕ × WorkOrder × Bool) × Tables
checked d o key t (err e) = (err e, t)
checked d o key t (ok _) = ended o key t (inserts d o key t)

-- `record_approval`
unfoldable pub record_approval :
    Decision → WorkOrder → String → Tables → Result (ℕ × WorkOrder × Bool) × Tables
record_approval d o key t = checked d o key t (checks d o key)
