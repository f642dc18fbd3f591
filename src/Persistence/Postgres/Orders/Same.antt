-- ===== src/Persistence/Postgres/Orders/Same.antt =====
-- Both backends (src/persistence/postgres.py and src/persistence/work_order_store.py) keep work orders
-- alike.
use shelf_life_copilot.Prelude.{
  String, ◌≡◌, refl, sym, ap, Option, none, some, DateTime, ok, err, ◌>>=◌, >>=-same,
}
use shelf_life_copilot.Prelude.Table.{find}
use shelf_life_copilot.Models.WorkOrder.{
  WorkOrder, WorkOrderStatus, WorkOrderReceipt, transition_to, validate,
}
use shelf_life_copilot.Models.WorkOrder.Lifecycle.{validate-same, moved-validated}
use shelf_life_copilot.Persistence.Approvals.{WorkOrderRow, Tables, has_order_id}
use shelf_life_copilot.Persistence.WorkOrderStore as WorkOrderStore
use shelf_life_copilot.Persistence.Postgres.Orders.{
  fetch, fetched, present, transition, complete_order,
}

fetched-required : (m : Option WorkOrderRow) → (fetched m >>= present) ≡ WorkOrderStore.required m
fetched-required none = refl
fetched-required (some r) =
    elim (validate r.order) as (λ v. ((v >>= λ o. ok (some o)) >>= present) ≡ v) [
      | err e ↦ refl
      | ok o ↦ refl
    ]

-- what a transition returns has the status and the time that it was given
moved_columns :
    (o : WorkOrder) (status : WorkOrderStatus) (at : DateTime) {moved : WorkOrder}
    → transition_to o status at ≡ ok moved
    → (moved.status ≡ status) × (moved.updated_at ≡ at)
moved_columns o status at {moved} h =
    let same =
      validate-same (record o { status = status; updated_at = at }) moved
        (moved-validated o status at h) in
    (sym (ap (λ (x : WorkOrder). x.status) same), sym (ap (λ (x : WorkOrder). x.updated_at) same))

-- The PostgreSQL store moves a work order exactly as the SQLite store does, errors included.
pub transition_same :
    (id : String) (status : WorkOrderStatus) (at : DateTime) (t : Tables)
    → transition id status at t ≡ WorkOrderStore.transition id status at t
unfolding transition WorkOrderStore.transition fetch
transition_same id status at t = rw (fetched-required (find (has_order_id id) t.work_orders)) (
    >>=-same (WorkOrderStore.required (find (has_order_id id) t.work_orders)) _ _ (λ o found.
      >>=-same (transition_to o status at) _ _
        (λ moved h. let (a, b) = moved_columns o status at h in rw (a, b) refl)))

-- The PostgreSQL store records a receipt, in the order and in its decision, exactly as the SQLite
-- store does, errors included.
pub complete_order_same :
    (id : String) (receipt : WorkOrderReceipt) (t : Tables)
    → complete_order id receipt t ≡ WorkOrderStore.complete_order id receipt t
unfolding complete_order WorkOrderStore.complete_order fetch
complete_order_same id receipt t = rw (fetched-required (find (has_order_id id) t.work_orders)) refl
