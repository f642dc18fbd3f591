-- ===== src/Optimization/Plans.antt =====
-- An allocation that waits for its approval (`OptimizationPlan` of src/optimization.py).
use shelf_life_copilot.Prelude.{
  String, Bool, true, false, not, ◌||◌, Option, none, some, DateTime, Result, ok, guard, ◌>>◌,
  value_error, is_none, is_some,
}
use shelf_life_copilot.Optimization.{OptimizationRequest, OptimizationResult}

pub data PlanStatus : Type 0 where
  pending_approval executed : PlanStatus

abbrev pub is_pending : PlanStatus → Bool
is_pending pending_approval = true
is_pending executed = false

pub record OptimizationPlan : Type 0 where
  pub plan_id : String
  pub request : OptimizationRequest
  pub result : OptimizationResult
  pub status : PlanStatus
  pub created_at : DateTime
  pub approved_by : Option String
  pub approved_at : Option DateTime

abbrev approval_fits : PlanStatus → OptimizationPlan → Bool
approval_fits executed p = not (is_none p.approved_by || is_none p.approved_at)
approval_fits pending_approval p = not (is_some p.approved_by || is_some p.approved_at)

abbrev aware? : Option DateTime → Bool
aware? none = true
aware? (some t) = t.tz

-- `_approval_is_complete`, which construction and `model_validate` run
unfoldable pub validate_plan : OptimizationPlan → Result OptimizationPlan
validate_plan p =
    guard (approval_fits p.status p) value_error >> guard (aware? p.approved_at) value_error >> ok p
