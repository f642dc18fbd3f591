-- ===== src/Models/WorkOrder/Completion.antt =====
-- When `complete` of src/models/work_order.py accepts a receipt.
use shelf_life_copilot.Prelude.{◌≡◌, true, ok, arith}
use shelf_life_copilot.Models.WorkOrder.{
  WorkOrder, WorkOrderReceipt, pending, in_progress, completed, may_become, validate_receipt,
}
use shelf_life_copilot.Models.WorkOrder.Lifecycle.{Reach, here, next, Step_lem}

abbrev pub IsReceipt : WorkOrderReceipt → Type 0
IsReceipt r = validate_receipt r ≡ ok r

before_completed :
    (o o' : WorkOrder)
    → may_become o.status o'.status ≡ true
    → o'.status ≡ completed
    → o.status ≡ in_progress
unfolding may_become
before_completed o o' l c = ground arith

-- An order that is pending at first and completed in the end was in progress in between.
pub completed_needs_progress :
    {o o' : WorkOrder}
    → o.status ≡ pending
    → Reach o o'
    → o'.status ≡ completed
    → (m : WorkOrder) × Reach o m × (m.status ≡ in_progress)
completed_needs_progress p here c = ground arith
completed_needs_progress p (next {o' = m} {o'' = n} r s) c =
    (m, r, before_completed m n (Step_lem s).0 c)
