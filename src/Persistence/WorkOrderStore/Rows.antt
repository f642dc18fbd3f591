-- ===== src/Persistence/WorkOrderStore/Rows.antt =====
-- What the two UPDATEs of a work order leave in the tables (src/persistence/work_order_store.py).
use shelf_life_copilot.Prelude.{
  String, ◌≡◌, refl, sym, ◌∙◌, true, Option, none, some, List, DateTime, ok, arith, eq_iff,
  >>=-eq-ok,
}
use shelf_life_copilot.Prelude.Table.{All, find, contains, update_where, All-find, All-update_where}
use shelf_life_copilot.Prelude.Distinct.{Distinct, Distinct-update_where, All-update_found}
use shelf_life_copilot.Models.WorkOrder.{
  WorkOrder, WorkOrderStatus, WorkOrderReceipt, validate, transition_to, complete,
}
use shelf_life_copilot.Models.WorkOrder.Lifecycle.{IsValid, moved-validated, finished-validated}
use shelf_life_copilot.Persistence.Approvals.{WorkOrderRow, Tables, DecisionRow, has_order_id}
use shelf_life_copilot.Persistence.Approvals.Keeps.{IsSound, orders_conflict, has_id}
use shelf_life_copilot.Persistence.WorkOrderStore.{
  required, write_transition, write_receipt, write_actuals, is_linked, transition, complete_order,
}

-- A change of one row that leaves the constrained columns alone.
pub record KeepsKeys (f : WorkOrderRow → WorkOrderRow) : Type 0 where
  pub id : (w : WorkOrderRow) → (f w).order.work_order_id ≡ w.order.work_order_id
  pub customer : (w : WorkOrderRow) → (f w).order.customer_id ≡ w.order.customer_id
  pub batch : (w : WorkOrderRow) → (f w).order.batch_id ≡ w.order.batch_id
  pub decision : (w : WorkOrderRow) → (f w).decision_id ≡ w.decision_id

module _ (f : WorkOrderRow → WorkOrderRow) (k : KeepsKeys f) (key : String) where
  pub orders-Distinct :
      (xs : List WorkOrderRow)
      → Distinct orders_conflict xs
      → Distinct orders_conflict (update_where (has_order_id key) f xs)
  orders-Distinct =
      Distinct-update_where orders_conflict (has_order_id key) f
        (λ a b. simp (k.id b, k.customer b, k.batch b, k.decision b))
        (λ a b. simp (k.id a, k.customer a, k.batch a, k.decision a))

  pub orders-linked :
      (ds : List DecisionRow) (xs : List WorkOrderRow)
      → All (λ w. contains (has_id w.decision_id) ds ≡ true) xs
      → All (λ w. contains (has_id w.decision_id) ds ≡ true) (update_where (has_order_id key) f xs)
  orders-linked ds =
      All-update_where (λ w. contains (has_id w.decision_id) ds ≡ true) (has_order_id key) f
        (λ w _ h. rw (k.decision w) h)

  pub orders_kept :
      (xs : List WorkOrderRow) {r : WorkOrderRow}
      → Distinct orders_conflict xs
      → find (has_order_id key) xs ≡ some r
      → All (λ w. IsValid w.order) xs
      → IsValid (f r).order
      → All (λ w. IsValid w.order) (update_where (has_order_id key) f xs)
  orders_kept =
      All-update_found orders_conflict (λ w. IsValid w.order) (has_order_id key) f
        (λ a b s t. ground (
          arith,
          eq_iff a.order.work_order_id key,
          eq_iff b.order.work_order_id key,
          eq_iff a.order.work_order_id b.order.work_order_id,
        ))

-- `required` of a sound table returns the order of the row.
pub required-eq-ok :
    (id : String) (t : Tables) (m : Option WorkOrderRow) {o : WorkOrder}
    → IsSound t
    → find (has_order_id id) t.work_orders ≡ m
    → required m ≡ ok o
    → (r : WorkOrderRow) × (m ≡ some r) × (o ≡ r.order)
required-eq-ok id t none s e h = cc
required-eq-ok id t (some r) {o} s e h = (r, refl, ok-injective (sym h ∙ valid))
  where
    valid : IsValid r.order
    valid = All-find (λ w. IsValid w.order) (has_order_id id) t.work_orders s.orders_valid e

    ok-injective : ok o ≡ ok r.order → o ≡ r.order
    ok-injective x = cc

abbrev pub moved_tables : String → WorkOrder → Tables → Tables
moved_tables id o t = record t {
  work_orders = update_where (has_order_id id) (write_transition o) t.work_orders;
}

-- A transition that goes through has found its row, and writes what `transition_to` made of it.
pub transition-eq-ok :
    (id : String) (s : WorkOrderStatus) (at : DateTime) (t : Tables) {o' : WorkOrder} {t' : Tables}
    → IsSound t
    → transition id s at t ≡ ok (o', t')
    → (r : WorkOrderRow) × (find (has_order_id id) t.work_orders ≡ some r)
      × (transition_to r.order s at ≡ ok o')
      × (t' ≡ moved_tables id o' t)
unfolding transition
transition-eq-ok id s at t sound h =
    let (o, read, rest) = >>=-eq-ok (required (find (has_order_id id) t.work_orders)) _ h in
    let (m, moves, same) = >>=-eq-ok (transition_to o s at) _ rest in
    let (r, found, row) =
      required-eq-ok id t (find (has_order_id id) t.work_orders) sound refl read in
    (r, found, rw (← row) (moves ∙ cc same), ground (arith, same))

abbrev pub completed_orders : String → WorkOrder → Tables → List WorkOrderRow
completed_orders id o t = update_where (has_order_id id) (write_receipt o) t.work_orders

abbrev pub completed_tables : String → WorkOrder → Tables → Tables
completed_tables id o t = record t {
  work_orders = completed_orders id o t;
  decisions =
      update_where (is_linked (find (has_order_id id) (completed_orders id o t))) (write_actuals o)
        t.decisions;
}

pub complete_order-eq-ok :
    (id : String) (receipt : WorkOrderReceipt) (t : Tables) {o' : WorkOrder} {t' : Tables}
    → IsSound t
    → complete_order id receipt t ≡ ok (o', t')
    → (r : WorkOrderRow) × (find (has_order_id id) t.work_orders ≡ some r)
      × (complete r.order receipt ≡ ok o')
      × (t' ≡ completed_tables id o' t)
unfolding complete_order
complete_order-eq-ok id receipt t sound h =
    let (o, read, rest) = >>=-eq-ok (required (find (has_order_id id) t.work_orders)) _ h in
    let (m, moves, same) = >>=-eq-ok (complete o receipt) _ rest in
    let (r, found, row) =
      required-eq-ok id t (find (has_order_id id) t.work_orders) sound refl read in
    (r, found, rw (← row) (moves ∙ cc same), ground (arith, same))

pub row-moved :
    (r : WorkOrderRow) (s : WorkOrderStatus) (at : DateTime) (o' : WorkOrder)
    → transition_to r.order s at ≡ ok o'
    → (write_transition o' r).order ≡ o'
unfolding validate
row-moved r s at o' h = ground (arith, moved-validated r.order s at h)

pub row-completed :
    (r : WorkOrderRow) (receipt : WorkOrderReceipt) (o' : WorkOrder)
    → complete r.order receipt ≡ ok o'
    → (write_receipt o' r).order ≡ o'
unfolding validate
row-completed r receipt o' h = ground (arith, finished-validated r.order receipt h)

pub transition-KeepsKeys : (o : WorkOrder) → KeepsKeys (write_transition o)
transition-KeepsKeys o = record {
  id = λ w. refl;
  customer = λ w. refl;
  batch = λ w. refl;
  decision = λ w. refl;
}

pub receipt-KeepsKeys : (o : WorkOrder) → KeepsKeys (write_receipt o)
receipt-KeepsKeys o = record {
  id = λ w. refl;
  customer = λ w. refl;
  batch = λ w. refl;
  decision = λ w. refl;
}
