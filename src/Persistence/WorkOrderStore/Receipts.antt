-- ===== src/Persistence/WorkOrderStore/Receipts.antt =====
-- Transitions and receipts of stored orders (src/persistence/work_order_store.py): they keep the
-- constraints of the tables, and a receipt is written to the order and to its decision.
use mathlib.Core.Option
use shelf_life_copilot.Prelude.{
  ℕ, ◌≤◌, String, ◌≡◌, refl, ◌∙◌, Bool, true, Option, none, some, List, DateTime, ok, arith, nat_eq,
  if◌then◌else◌,
}
use shelf_life_copilot.Prelude.Table.{
  All, find, find_sound, contains, update_where, find-update_where, All-update_where, All-map,
}
use shelf_life_copilot.Prelude.Distinct.{Distinct-update_where, contains-update_where}
use shelf_life_copilot.Models.WorkOrder.{
  WorkOrder, WorkOrderStatus, WorkOrderReceipt, complete, with_receipt,
}
use shelf_life_copilot.Models.WorkOrder.Lifecycle.{
  IsValid, moved, finished, Step_lem, finished-validated, validate-same,
}
use shelf_life_copilot.Persistence.Approvals.{WorkOrderRow, Tables, DecisionRow, has_order_id}
use shelf_life_copilot.Persistence.Approvals.Keeps.{IsSound, decisions_conflict, has_id}
use shelf_life_copilot.Persistence.WorkOrderStore.{
  write_transition, write_receipt, write_actuals, is_linked, transition, complete_order, get,
}
use shelf_life_copilot.Persistence.WorkOrderStore.Rows.{
  KeepsKeys, completed_orders, orders-Distinct, orders-linked, orders_kept, transition-eq-ok,
  complete_order-eq-ok, row-moved, row-completed, transition-KeepsKeys, receipt-KeepsKeys,
}

-- A transition keeps the constraints of the tables.
pub transition-IsSound :
    (id : String) (s : WorkOrderStatus) (at : DateTime) (t : Tables) {o' : WorkOrder} {t' : Tables}
    → IsSound t
    → transition id s at t ≡ ok (o', t')
    → IsSound t'
transition-IsSound id s at t {o'} sound h =
    let (r, found, moves, same) = transition-eq-ok id s at t sound h in
    let keys = transition-KeepsKeys o' in
    rw same (record {
      orders_distinct =
          orders-Distinct (write_transition o') keys id t.work_orders sound.orders_distinct;
      decisions_distinct = sound.decisions_distinct;
      ids_bounded = sound.ids_bounded;
      linked = orders-linked (write_transition o') keys id t.decisions t.work_orders sound.linked;
      orders_valid =
          orders_kept (write_transition o') keys id t.work_orders sound.orders_distinct found
            sound.orders_valid (rw (row-moved r s at o' moves) (Step_lem (moved s at moves)).2);
    })

module _ (o : WorkOrder) (link : DecisionRow → Bool) (ds : List DecisionRow) where
  decisions-linked :
      (xs : List WorkOrderRow)
      → All (λ w. contains (has_id w.decision_id) ds ≡ true) xs
      → All
          (λ w. contains (has_id w.decision_id) (update_where link (write_actuals o) ds) ≡ true)
          xs
  decisions-linked xs h =
      All-map (λ w. contains (has_id w.decision_id) ds ≡ true)
        (λ w. contains (has_id w.decision_id) (update_where link (write_actuals o) ds) ≡ true)
        (λ w c.
          contains-update_where (has_id w.decision_id) link (write_actuals o) (λ d. refl) ds ∙ c)
        xs h

-- A completion keeps the constraints of the tables.
pub complete_order-IsSound :
    (id : String) (receipt : WorkOrderReceipt) (t : Tables) {o' : WorkOrder} {t' : Tables}
    → IsSound t
    → complete_order id receipt t ≡ ok (o', t')
    → IsSound t'
complete_order-IsSound id receipt t {o'} sound h =
    let (r, found, completes, same) = complete_order-eq-ok id receipt t sound h in
    let keys = receipt-KeepsKeys o' in
    let link = is_linked (find (has_order_id id) (completed_orders id o' t)) in
    rw same (record {
      orders_distinct =
          orders-Distinct (write_receipt o') keys id t.work_orders sound.orders_distinct;
      decisions_distinct =
          Distinct-update_where decisions_conflict link (write_actuals o') (λ a b. refl)
            (λ a b. refl) t.decisions sound.decisions_distinct;
      ids_bounded =
          All-update_where (λ d. d.id ≤ t.last_id) link (write_actuals o') (λ d _ b. b) t.decisions
            sound.ids_bounded;
      linked =
          orders-linked (write_receipt o') keys id
            (update_where link (write_actuals o') t.decisions) t.work_orders
            (decisions-linked o' link t.decisions t.work_orders sound.linked);
      orders_valid =
          orders_kept (write_receipt o') keys id t.work_orders sound.orders_distinct found
            sound.orders_valid
            (rw (row-completed r receipt o' completes) (Step_lem (finished receipt completes)).2);
    })

find_written :
    (id : String) (f : WorkOrderRow → WorkOrderRow) (xs : List WorkOrderRow) (r : WorkOrderRow)
    → KeepsKeys f
    → find (has_order_id id) xs ≡ some r
    → find (has_order_id id) (update_where (has_order_id id) f xs) ≡ some (f r)
find_written id f xs r k found =
    find-update_where (has_order_id id) (has_order_id id) f (λ a. rw (k.id a)) xs
    ∙ rw (found, find_sound (has_order_id id) xs found)

linked_by_id :
    (j : ℕ) (r : WorkOrderRow) (receipt : WorkOrderReceipt) (o' : WorkOrder)
    → complete r.order receipt ≡ ok o'
    → (m : Option DecisionRow) → ((d : DecisionRow) → m ≡ some d → has_id j d ≡ true)
    → Option.map (λ d. if nat_eq d.id r.decision_id then write_actuals o' d else d) m
      ≡ Option.map
          (λ d.
            if nat_eq j r.decision_id
            then record d {
              decision = record d.decision {
                actual_qty = some receipt.actual_qty;
                actual_savings = some receipt.actual_savings;
              };
            }
            else d)
          m
linked_by_id j r receipt o' completes none known = refl
linked_by_id j r receipt o' completes (some d) known =
    let same =
      validate-same (with_receipt r.order receipt) o'
        (finished-validated r.order receipt completes) in
    rw (← same) (ground (arith, known d refl))

-- After a completion the store returns the completed order, its decision holds the receipt's
-- quantity and savings, and every other decision is as it was.
-- The tables satisfy their constraints before.
pub complete_order-writes :
    (id : String) (receipt : WorkOrderReceipt) (t : Tables) {o' : WorkOrder} {t' : Tables}
    → IsSound t
    → complete_order id receipt t ≡ ok (o', t')
    → (r : WorkOrderRow) × (find (has_order_id id) t.work_orders ≡ some r)
      × (get id t' ≡ ok (some o'))
      × ((j : ℕ)
          → find (has_id j) t'.decisions
            ≡ Option.map
                (λ d.
                  if nat_eq j r.decision_id
                  then record d {
                    decision = record d.decision {
                      actual_qty = some receipt.actual_qty;
                      actual_savings = some receipt.actual_savings;
                    };
                  }
                  else d)
                (find (has_id j) t.decisions))
unfolding get
complete_order-writes id receipt t {o'} {t'} sound h =
    let (r, found, completes, same) = complete_order-eq-ok id receipt t sound h in
    let written = find_written id (write_receipt o') t.work_orders r (receipt-KeepsKeys o') found in
    let row = row-completed r receipt o' completes in
    let valid : IsValid (write_receipt o' r).order =
      rw row (Step_lem (finished receipt completes)).2 in
    (
      r,
      found,
      rw (same, written) (rw valid (rw row)),
      λ j.
          rw (same, written)
            (find-update_where (has_id j) (is_linked (some (write_receipt o' r))) (write_actuals o')
                (λ d. refl) t.decisions
              ∙ linked_by_id j r receipt o' completes (find (has_id j) t.decisions)
                  (λ d e. find_sound (has_id j) t.decisions e)),
    )
