-- ===== src/Persistence/WorkOrderStore.antt =====
-- The methods of `WorkOrderStore` (src/persistence/work_order_store.py) on the tables of
-- `Persistence.Approvals`.
pub mod Rows
pub mod Receipts
use shelf_life_copilot.Prelude.{
  ℕ, String, Bool, Option, none, some, DateTime, Result, ok, err, ◌>>=◌, key_error, ◌==◌, nat_eq,
}
use shelf_life_copilot.Prelude.Table.{find, update_where}
use shelf_life_copilot.Models.WorkOrder.{
  WorkOrder, WorkOrderStatus, WorkOrderReceipt, transition_to, complete,
}
use shelf_life_copilot.Persistence.Approvals.{
  DecisionRow, WorkOrderRow, Tables, for_batch, has_order_id, from_row, stored, stored?,
}

abbrev read : Option WorkOrderRow → Result (Option WorkOrder)
read none = ok none
read (some r) = from_row r >>= λ o. ok (some o)

-- `get_for_batch`
unfoldable pub get_for_batch : String → String → Tables → Result (Option WorkOrder)
get_for_batch customer batch t = read (find (for_batch customer batch) t.work_orders)

-- `get`
unfoldable pub get : String → Tables → Result (Option WorkOrder)
get id t = read (find (has_order_id id) t.work_orders)

-- the SELECT that opens the transactions of `transition` and `complete`
abbrev pub required : Option WorkOrderRow → Result WorkOrder
required none = err key_error
required (some r) = from_row r

abbrev pub write_transition : WorkOrder → WorkOrderRow → WorkOrderRow
write_transition o r = record r {
  order = record r.order { status = o.status; updated_at = stored o.updated_at };
}

-- `transition`
unfoldable pub transition :
    String → WorkOrderStatus → DateTime → Tables → Result (WorkOrder × Tables)
transition id status at t = required (find (has_order_id id) t.work_orders) >>= λ o.
    transition_to o status at >>= λ moved. ok (
      moved,
      record t {
        work_orders = update_where (has_order_id id) (write_transition moved) t.work_orders;
      },
    )

abbrev pub write_receipt : WorkOrder → WorkOrderRow → WorkOrderRow
write_receipt o r = record r {
  order = record r.order {
    status = o.status;
    updated_at = stored o.updated_at;
    actual_qty = o.actual_qty;
    actual_savings = o.actual_savings;
    completed_by = o.completed_by;
    completed_at = stored? o.completed_at;
    completion_source = o.completion_source;
  };
}

-- WHERE id = (SELECT decision_id FROM work_orders WHERE work_order_id = ?)
abbrev pub is_linked : Option WorkOrderRow → DecisionRow → Bool
is_linked none d = Bool.false
is_linked (some r) d = nat_eq d.id r.decision_id

abbrev pub write_actuals : WorkOrder → DecisionRow → DecisionRow
write_actuals o d = record d {
  decision = record d.decision { actual_qty = o.actual_qty; actual_savings = o.actual_savings };
}

-- `complete`
unfoldable pub complete_order : String → WorkOrderReceipt → Tables → Result (WorkOrder × Tables)
complete_order id receipt t = required (find (has_order_id id) t.work_orders) >>= λ o.
    complete o receipt >>= λ done.
    let orders = update_where (has_order_id id) (write_receipt done) t.work_orders in
    ok (
      done,
      record t {
        work_orders = orders;
        decisions =
            update_where (is_linked (find (has_order_id id) orders)) (write_actuals done)
              t.decisions;
      },
    )
