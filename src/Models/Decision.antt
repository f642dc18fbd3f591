-- ===== src/Models/Decision.antt =====
-- The decision log entry (src/models/decision.py).
use shelf_life_copilot.Prelude.{
  String, Bool, true, false, Option, DateTime, Result, ok, guard, ◌>>◌, value_error,
}
use shelf_life_copilot.Models.Action.{Amount, ActionType}

pub data DecisionOutcome : Type 0 where
  approved snoozed revised rejected : DecisionOutcome

pub record Decision : Type 0 where
  pub batch_id : String
  pub customer_id : String
  pub material_name : String
  pub decided_at : DateTime
  pub action : ActionType
  pub outcome : DecisionOutcome
  pub savings_estimate : Amount
  pub actual_savings : Option Amount
  pub actual_qty : Option Amount
  pub notes : Option String

-- the validator `_require_tz`, which construction runs
unfoldable pub validate_decision : Decision → Result Decision
validate_decision d = guard d.decided_at.tz value_error >> ok d

abbrev approving : DecisionOutcome → Bool
approving approved = true
approving revised = true
approving _ = false

unfoldable pub is_approved : Decision → Bool
is_approved d = approving d.outcome
