-- ===== src/Models/WorkOrder.antt =====
-- Work orders and their legal transitions (src/models/work_order.py).
pub mod Lifecycle
pub mod Completion
use shelf_life_copilot.Prelude.{
  String, Bool, true, false, not, ◌&&◌, ◌||◌, Option, none, some, DateTime, Result, ok, err, guard,
  ◌>>◌, ◌>>=◌, value_error, type_error, leb, ltb, is_none, is_some, ◌==◌, if◌then◌else◌,
}
use shelf_life_copilot.Models.Action.{Amount, ActionType}

pub data WorkOrderStatus : Type 0 where
  pending in_progress completed cancelled : WorkOrderStatus

abbrev pub is_completed : WorkOrderStatus → Bool
is_completed completed = true
is_completed _ = false

-- `status in _TRANSITIONS[self.status]`
unfoldable pub may_become : WorkOrderStatus → WorkOrderStatus → Bool
may_become pending in_progress = true
may_become pending cancelled = true
may_become in_progress completed = true
may_become in_progress cancelled = true
may_become _ _ = false

pub record WorkOrderReceipt : Type 0 where
  pub actual_qty : Amount
  pub actual_savings : Amount
  pub completed_by : String
  pub completed_at : DateTime
  pub source : String

-- the field constraints and `_require_aware_timestamp`, which construction runs
unfoldable pub validate_receipt : WorkOrderReceipt → Result WorkOrderReceipt
validate_receipt r =
    guard (not (r.completed_by == "")) value_error
    >> guard (not (r.source == "")) value_error
    >> guard r.completed_at.tz value_error
    >> ok r

pub record WorkOrder : Type 0 where
  pub work_order_id : String
  pub batch_id : String
  pub customer_id : String
  pub material_name : String
  pub action : ActionType
  pub status : WorkOrderStatus
  pub created_at : DateTime
  pub updated_at : DateTime
  pub actual_qty : Option Amount
  pub actual_savings : Option Amount
  pub completed_by : Option String
  pub completed_at : Option DateTime
  pub completion_source : Option String

abbrev all_given : WorkOrder → Bool
all_given o =
    is_some o.actual_qty
    && (is_some o.actual_savings
        && (is_some o.completed_by && (is_some o.completed_at && is_some o.completion_source)))

abbrev none_given : WorkOrder → Bool
none_given o =
    is_none o.actual_qty
    && (is_none o.actual_savings
        && (is_none o.completed_by && (is_none o.completed_at && is_none o.completion_source)))

abbrev aware? : Option DateTime → Bool
aware? none = true
aware? (some t) = t.tz

-- the part of `_validate_timestamps` about the receipt, by the status
unfoldable pub receipt_fits : WorkOrderStatus → WorkOrder → Result WorkOrder
receipt_fits completed o =
    guard (all_given o) value_error >> guard (aware? o.completed_at) value_error >> ok o
receipt_fits _ o = guard (none_given o) value_error >> ok o

-- the validators, which construction and `model_validate` run
unfoldable pub validate : WorkOrder → Result WorkOrder
unfolding receipt_fits
validate o =
    guard (not (o.work_order_id == "")) value_error
    >> guard (o.created_at.tz && o.updated_at.tz) value_error
    >> guard (leb o.created_at.instant o.updated_at.instant) value_error
    >> receipt_fits o.status o

unfoldable pub transition_to : WorkOrder → WorkOrderStatus → DateTime → Result WorkOrder
unfolding may_become
transition_to o status at =
    guard at.tz value_error
    >> guard (not (is_completed status)) value_error
    >> guard (may_become o.status status) value_error
    >> validate (record o { status = status; updated_at = at })

-- the order with the receipt attached, before it is validated
abbrev pub with_receipt : WorkOrder → WorkOrderReceipt → WorkOrder
with_receipt o r = record o {
  status = completed;
  updated_at = r.completed_at;
  actual_qty = some r.actual_qty;
  actual_savings = some r.actual_savings;
  completed_by = some r.completed_by;
  completed_at = some r.completed_at;
  completion_source = some r.source;
}

unfoldable pub complete : WorkOrder → WorkOrderReceipt → Result WorkOrder
unfolding may_become
complete o r = guard (may_become o.status completed) value_error >> validate (with_receipt o r)
