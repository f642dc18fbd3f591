-- ===== src/Persistence/Approvals.antt =====
-- The tables `decisions` and `work_orders` (src/persistence/migrations.py) and the methods of
-- `DecisionStore` (src/persistence/decision_store.py); `WorkOrderStore` works on the same tables.
-- A transaction is a function that returns the new tables or an error; on an error the caller goes
-- on from the tables before it, which is what the rollback leaves.
pub mod Keeps
pub mod Recording
use shelf_life_copilot.Prelude.{
  ℕ, suc, ◌+◌, String, Bool, true, false, not, ◌&&◌, ◌||◌, Option, none, some, List, [], ◌∷◌, ◌++◌,
  DateTime, utc, Result, ok, err, Error, guard, ◌>>◌, ◌>>=◌, value_error, key_error,
  integrity_error, ◌==◌, nat_eq, leb, ltb, if◌then◌else◌,
}
use shelf_life_copilot.Prelude.Table.{find, contains, update_where}
use shelf_life_copilot.Models.Action.{Amount, ActionType, action_eq}
use shelf_life_copilot.Models.Decision.{Decision, is_approved}
use shelf_life_copilot.Models.WorkOrder.{WorkOrder, validate}

pub record DecisionRow : Type 0 where
  pub id : ℕ
  pub decision : Decision
  pub idempotency_key : Option String

-- A row of `work_orders`: the foreign key and the columns of the order.
pub record WorkOrderRow : Type 0 where
  pub decision_id : ℕ
  pub order : WorkOrder

pub record Tables : Type 0 where
  pub decisions : List DecisionRow
  -- the AUTOINCREMENT sequence of `decisions`
  pub last_id : ℕ
  pub work_orders : List WorkOrderRow

abbrev pub empty : Tables
empty = record { decisions = []; last_id = 0; work_orders = [] }

-- `astimezone(UTC)` on the way into a column
abbrev pub stored : DateTime → DateTime
stored t = utc t.instant

abbrev pub stored? : Option DateTime → Option DateTime
stored? none = none
stored? (some t) = some (stored t)

abbrev pub decision_values : Decision → Decision
decision_values d = record d { decided_at = stored d.decided_at }

-- WHERE customer_id = ? AND batch_id = ?
abbrev pub for_batch : String → String → WorkOrderRow → Bool
for_batch customer batch r = r.order.customer_id == customer && r.order.batch_id == batch

-- WHERE work_order_id = ?
abbrev pub has_order_id : String → WorkOrderRow → Bool
has_order_id id r = r.order.work_order_id == id

abbrev pub same_key : String → Option String → Bool
same_key k none = false
same_key k (some j) = j == k

-- `_from_row`: construction validates the order again
abbrev pub from_row : WorkOrderRow → Result WorkOrder
from_row r = validate r.order

abbrev append_decision : Decision → Option String → Tables → Tables
append_decision d key t = record t {
  decisions =
      t.decisions
      ++ (record { id = t.last_id + 1; decision = decision_values d; idempotency_key = key } ∷ []);
  last_id = t.last_id + 1;
}

-- `DecisionStore.save`
unfoldable pub save : Decision → Tables → ℕ × Tables
save d t = (t.last_id + 1, append_decision d none t)

-- INSERT INTO decisions with the unique index on `idempotency_key`
unfoldable pub insert_decision : Decision → String → Tables → Result Tables
insert_decision d key t =
    if contains (λ r. same_key key r.idempotency_key) t.decisions
    then err integrity_error
    else ok (append_decision d (some key) t)

-- the columns that `record_approval` writes; the receipt's are NULL
abbrev pub fresh_columns : WorkOrder → WorkOrder
fresh_columns o = record o {
  created_at = stored o.created_at;
  updated_at = stored o.updated_at;
  actual_qty = none;
  actual_savings = none;
  completed_by = none;
  completed_at = none;
  completion_source = none;
}

-- INSERT INTO work_orders with its three unique constraints
unfoldable pub insert_work_order : ℕ → WorkOrder → Tables → Result Tables
insert_work_order decision_id o t =
    if contains (has_order_id o.work_order_id) t.work_orders
      || (contains (λ r. nat_eq r.decision_id decision_id) t.work_orders
          || contains (for_batch o.customer_id o.batch_id) t.work_orders)
    then err integrity_error
    else ok (record t {
      work_orders =
          t.work_orders ++ (record { decision_id = decision_id; order = fresh_columns o } ∷ []);
    })

-- `_approval_for_batch`
unfoldable pub approval_for_batch : String → String → Tables → Result (Option (ℕ × WorkOrder))
approval_for_batch customer batch t = elim (find (for_batch customer batch) t.work_orders) [
  | none ↦ ok none
  | some r ↦ (from_row r >>= λ o. ok (some (r.decision_id, o)))
]

-- the checks before the transaction of `record_approval`
unfoldable pub approval_checks : Decision → WorkOrder → String → Result (Unit {0})
approval_checks d o key =
    guard (is_approved d) value_error
    >> guard (not (key == "")) value_error
    >> guard
        (d.customer_id == o.customer_id
          && (d.batch_id == o.batch_id && action_eq d.action o.action))
        value_error

-- the body of the transaction
unfoldable pub approve : Decision → WorkOrder → String → Tables → Result Tables
unfolding insert_decision insert_work_order
approve d o key t = do t' ← insert_decision d key t; insert_work_order (t.last_id + 1) o t'

-- the handler of `sqlite3.IntegrityError`
abbrev pub existing_approval : Option (ℕ × WorkOrder) → Result (ℕ × WorkOrder × Bool)
existing_approval none = err integrity_error
existing_approval (some (id, o)) = ok (id, o, false)

abbrev pub approval_outcome :
    Decision → WorkOrder → Tables → Result Tables → Result (ℕ × WorkOrder × Bool) × Tables
approval_outcome d o t (ok t') = (ok (t.last_id + 1, o, true), t')
approval_outcome d o t (err e) =
    ((approval_for_batch d.customer_id d.batch_id t >>= existing_approval), t)

abbrev pub checked_approval :
    Decision
    → WorkOrder
    → String
    → Tables
    → Result (Unit {0})
    → Result (ℕ × WorkOrder × Bool) × Tables
checked_approval d o key t (err e) = (err e, t)
checked_approval d o key t (ok _) = approval_outcome d o t (approve d o key t)

-- `DecisionStore.record_approval`
unfoldable pub record_approval :
    Decision → WorkOrder → String → Tables → Result (ℕ × WorkOrder × Bool) × Tables
record_approval d o key t = checked_approval d o key t (approval_checks d o key)
