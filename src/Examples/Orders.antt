-- ===== src/Examples/Orders.antt =====
-- A batch that is approved, worked on and completed (src/models/work_order.py, src/persistence).
use mathlib.Core.Option
use shelf_life_copilot.Prelude.{
  ℕ, ◌≡◌, ◌↔◌, refl, true, false, none, some, [], ◌∷◌, ok, utc, nat_eq, if◌then◌else◌,
}
use shelf_life_copilot.Prelude.Table.{find, contains, update_where}
use shelf_life_copilot.Models.Action.{transform, action_eq}
use shelf_life_copilot.Models.Decision.{Decision, approved, is_approved}
use shelf_life_copilot.Models.WorkOrder.{
  WorkOrder, WorkOrderReceipt, pending, in_progress, validate, validate_receipt, receipt_fits,
  transition_to, complete, with_receipt,
}
use shelf_life_copilot.Models.WorkOrder.Lifecycle.{
  IsValid, MayMove, Step, moved, finished, Reach, here, next, transition_to-ok_iff,
}
use shelf_life_copilot.Models.WorkOrder.Completion.{IsReceipt}
use shelf_life_copilot.Persistence.Approvals.{
  Tables, DecisionRow, WorkOrderRow, empty, approval_checks, record_approval, fresh_columns,
  has_order_id, insert_decision, insert_work_order, approve,
}
use shelf_life_copilot.Persistence.Approvals.Keeps.{IsSound, IsSound-empty, approved_tables, has_id}
use shelf_life_copilot.Persistence.Approvals.Recording.{
  Outcome, record_approval-Outcome, record_approval-IsSound, record_approval-again,
}
use shelf_life_copilot.Persistence.WorkOrderStore.{get, transition, complete_order}
use shelf_life_copilot.Persistence.WorkOrderStore.Receipts.{
  transition-IsSound, complete_order-writes,
}

abbrev pub order : WorkOrder
order = record {
  work_order_id = "w1";
  batch_id = "b1";
  customer_id = "c1";
  material_name = "milk";
  action = transform;
  status = pending;
  created_at = utc 10;
  updated_at = utc 10;
  actual_qty = none;
  actual_savings = none;
  completed_by = none;
  completed_at = none;
  completion_source = none;
}

abbrev pub started : WorkOrder
started = record order { status = in_progress; updated_at = utc 20 }

abbrev pub receipt : WorkOrderReceipt
receipt = record {
  actual_qty = 5;
  actual_savings = 40;
  completed_by = "ann";
  completed_at = utc 30;
  source = "api";
}

abbrev done : WorkOrder
done = with_receipt started receipt

pub order-IsValid : IsValid order
unfolding validate receipt_fits
order-IsValid = refl

started-IsValid : IsValid started
unfolding validate receipt_fits
started-IsValid = refl

receipt-IsReceipt : IsReceipt receipt
unfolding validate_receipt
receipt-IsReceipt = refl

transition_to-ok_iff_example :
    (transition_to order in_progress (utc 20) ≡ ok started) ↔ MayMove order in_progress (utc 20)
transition_to-ok_iff_example = transition_to-ok_iff order in_progress (utc 20) order-IsValid

started-Step : Step order started
unfolding transition_to validate receipt_fits
started-Step = moved in_progress (utc 20) refl

done-Step : Step started done
unfolding complete validate receipt_fits
done-Step = finished receipt refl

abbrev history : Reach order done
history = next (next here started-Step) done-Step

abbrev pub decision : Decision
decision = record {
  batch_id = "b1";
  customer_id = "c1";
  material_name = "milk";
  decided_at = utc 10;
  action = transform;
  outcome = approved;
  savings_estimate = 50;
  actual_savings = none;
  actual_qty = none;
  notes = none;
}

abbrev pub tables : Tables
tables = approved_tables decision order "k1" empty

approved_first : record_approval decision order "k1" empty ≡ (ok (1, order, true), tables)
unfolding record_approval approval_checks approve insert_decision insert_work_order contains
    is_approved action_eq
approved_first = refl

record_approval-Outcome_example :
    Outcome decision order "k1" empty (record_approval decision order "k1" empty)
record_approval-Outcome_example = record_approval-Outcome decision order "k1" empty

abbrev again : WorkOrder
again = record order { work_order_id = "w2"; created_at = utc 15; updated_at = utc 15 }

again_passes : approval_checks decision again "k2" ≡ ok tt
unfolding approval_checks is_approved action_eq
again_passes = refl

record_approval-again_example :
    record_approval decision again "k2" tables ≡ (ok (1, fresh_columns order, false), tables)
record_approval-again_example =
    record_approval-again decision order "k1" empty order-IsValid refl approved_first decision again
      "k2" again_passes refl refl

first-IsSound : IsSound (record_approval decision order "k1" empty).1
first-IsSound = record_approval-IsSound decision order "k1" empty IsSound-empty order-IsValid refl

abbrev pub row : WorkOrderRow
row = record { decision_id = 1; order = order }

abbrev pub moved_tables : Tables
moved_tables = record tables { work_orders = record { decision_id = 1; order = started } ∷ [] }

tables-IsSound : IsSound tables
tables-IsSound = rw approved_first at first-IsSound

moves : transition "w1" in_progress (utc 20) tables ≡ ok (started, moved_tables)
unfolding transition find validate transition_to update_where
moves = refl

moved_tables-IsSound : IsSound moved_tables
moved_tables-IsSound = transition-IsSound "w1" in_progress (utc 20) tables tables-IsSound moves

abbrev decided : DecisionRow
decided = record {
  id = 1;
  decision = record decision { actual_qty = some 5; actual_savings = some 40 };
  idempotency_key = some "k1";
}

abbrev done_tables : Tables
done_tables = record tables {
  work_orders = record { decision_id = 1; order = done } ∷ [];
  decisions = decided ∷ [];
}

completes : complete_order "w1" receipt moved_tables ≡ ok (done, done_tables)
unfolding complete_order find validate complete update_where
completes = refl

complete_order-writes_example :
    (r : WorkOrderRow) × (find (has_order_id "w1") moved_tables.work_orders ≡ some r)
    × (get "w1" done_tables ≡ ok (some done))
    × ((j : ℕ)
        → find (has_id j) done_tables.decisions
          ≡ Option.map
              (λ d.
                if nat_eq j r.decision_id
                then record d {
                  decision = record d.decision {
                    actual_qty = some receipt.actual_qty;
                    actual_savings = some receipt.actual_savings;
                  };
                }
                else d)
              (find (has_id j) moved_tables.decisions))
complete_order-writes_example =
    complete_order-writes "w1" receipt moved_tables moved_tables-IsSound completes
