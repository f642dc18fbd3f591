-- ===== src/Persistence/Postgres/Orders.antt =====
-- `PostgresWorkOrderStore` (src/persistence/postgres.py) on the tables of `Persistence.Approvals`.
pub mod Same
use shelf_life_copilot.Prelude.{
  ℕ, String, Bool, false, Option, none, some, DateTime, Result, ok, err, ◌>>=◌, key_error, nat_eq,
}
use shelf_life_copilot.Prelude.Table.{find, update_where}
use shelf_life_copilot.Models.WorkOrder.{
  WorkOrder, WorkOrderStatus, WorkOrderReceipt, transition_to, complete, validate,
}
use shelf_life_copilot.Persistence.Approvals.{
  DecisionRow, WorkOrderRow, Tables, for_batch, has_order_id, stored, stored?,
}

-- `_work_order_from_row`, if there is a row
abbrev pub fetched : Option WorkOrderRow → Result (Option WorkOrder)
fetched none = ok none
fetched (some r) = validate r.order >>= λ o. ok (some o)

-- `_fetch` and `_fetch_on`
unfoldable pub fetch : (WorkOrderRow → Bool) → Tables → Result (Option WorkOrder)
fetch where_clause t = fetched (find where_clause t.work_orders)

-- `get_for_batch`
unfoldable pub get_for_batch : String → String → Tables → Result (Option WorkOrder)
unfolding fetch
get_for_batch customer batch t = fetch (for_batch customer batch) t

-- `get`
unfoldable pub get : String → Tables → Result (Option WorkOrder)
unfolding fetch
get id t = fetch (has_order_id id) t

abbrev pub present : Option WorkOrder → Result WorkOrder
present none = err key_error
present (some o) = ok o

abbrev pub status_columns : WorkOrderStatus → DateTime → WorkOrderRow → WorkOrderRow
status_columns status at r = record r {
  order = record r.order { status = status; updated_at = stored at };
}

-- `transition`, which writes the arguments, not the fields of the order it returns
unfoldable pub transition :
    String → WorkOrderStatus → DateTime → Tables → Result (WorkOrder × Tables)
unfolding fetch
transition id status at t = (fetch (has_order_id id) t >>= present) >>= λ o.
    transition_to o status at >>= λ moved. ok (
      moved,
      record t {
        work_orders = update_where (has_order_id id) (status_columns status at) t.work_orders;
      },
    )

abbrev pub receipt_columns : WorkOrder → WorkOrderRow → WorkOrderRow
receipt_columns o r = record r {
  order = record r.order {
    status = o.status;
    updated_at = stored o.updated_at;
    actual_qty = o.actual_qty;
    actual_savings = o.actual_savings;
    completed_by = o.completed_by;
    completed_at = stored? o.completed_at;
    completion_source = o.completion_source;
  };
}

-- id=(SELECT decision_id FROM work_orders WHERE work_order_id=...)
abbrev pub decision_of : Option WorkOrderRow → DecisionRow → Bool
decision_of none d = false
decision_of (some r) d = nat_eq d.id r.decision_id

abbrev pub actual_columns : WorkOrder → DecisionRow → DecisionRow
actual_columns o d = record d {
  decision = record d.decision { actual_qty = o.actual_qty; actual_savings = o.actual_savings };
}

-- `complete`
unfoldable pub complete_order : String → WorkOrderReceipt → Tables → Result (WorkOrder × Tables)
unfolding fetch
complete_order id receipt t = (fetch (has_order_id id) t >>= present) >>= λ o.
    complete o receipt >>= λ done.
    let orders = update_where (has_order_id id) (receipt_columns done) t.work_orders in
    ok (
      done,
      record t {
        work_orders = orders;
        decisions =
            update_where (decision_of (find (has_order_id id) orders)) (actual_columns done)
              t.decisions;
      },
    )
