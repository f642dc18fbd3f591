-- ===== src/Api/Plans.antt =====
-- The endpoints of optimization plans (`create_optimization_plan`, `get_optimization_plan` and
-- `execute_optimization_plan` of src/api/router.py), for a caller whose role was accepted.
pub mod Again
use shelf_life_copilot.Prelude.{
  ℕ, String, Bool, true, false, not, Option, none, some, List, [], ◌∷◌, DateTime, utc, Result, ok,
  err, Error, value_error, key_error, file_not_found, is_value_error, ◌>>=◌, ltb, leb, length,
  if◌then◌else◌,
}
use shelf_life_copilot.Prelude.Table.{contains}
use shelf_life_copilot.Models.Action.{Amount, ActionType}
use shelf_life_copilot.Models.Floats.{Floats}
use shelf_life_copilot.Models.Batch.{Batch}
use shelf_life_copilot.Models.Customer.{CustomerConfig}
use shelf_life_copilot.Alerts.{calculate_days_left}
use shelf_life_copilot.Optimization.{
  OptimizationBatch, OptimizationRequest, OptimizationAssignment, OptimizationResult,
  priority_baseline,
}
use shelf_life_copilot.Optimization.Plans.{OptimizationPlan, pending_approval}
use shelf_life_copilot.Persistence.OptimizationStore.{Database, Supplies, save, get, execute}
use shelf_life_copilot.Security.{Principal, Access, granted, denied, require_customer}

pub data Reply : Type 0 where
  answered : OptimizationPlan → Reply
  refused : ℕ → Reply
  raised : Error → Reply

pub record Repository : Type 0 where
  pub load_batches : String → Result (List Batch)
  pub load_customer_config : String → Result CustomerConfig

-- the body of the request
pub record OptimizationPlanRequest : Type 0 where
  pub customer_id : String
  pub capacity_by_action : ActionType → Amount

abbrev pub candidates : ℕ → CustomerConfig → List Batch → List OptimizationBatch
candidates today c [] = []
candidates today c (b ∷ bs) =
    record {
      batch_id = b.batch_id;
      material_name = b.material_name;
      days_left = calculate_days_left b.expiry_date today;
      stock_qty = b.stock_qty;
      allowed_actions = c.enabled_actions;
    }
    ∷ candidates today c bs

abbrev pub allocates : List OptimizationAssignment → Bool
allocates plan = contains (λ a. ltb 0 a.allocated_qty) plan

abbrev pub new_plan : String → ℕ → OptimizationRequest → OptimizationResult → OptimizationPlan
new_plan id now r result = record {
  plan_id = id;
  request = r;
  result = result;
  status = pending_approval;
  created_at = utc now;
  approved_by = none;
  approved_at = none;
}

abbrev pub saved : OptimizationPlan → Result (Unit {0}) × Database → Reply × Database
saved p (ok _, db) = (answered p, db)
saved p (err e, db) = (raised e, db)

abbrev pub planned :
    String → ℕ → OptimizationRequest → Database → Result OptimizationResult → Reply × Database
planned id now r db (err e) = (raised e, db)
planned id now r db (ok result) =
    if allocates result.assignments
    then saved (new_plan id now r result) (save (new_plan id now r result) db)
    else (refused 409, db)

-- `except (FileNotFoundError, KeyError)`
abbrev pub missing : Error → Reply
missing file_not_found = refused 404
missing key_error = refused 404
missing e = raised e

abbrev pub for_batches :
    Floats
    → OptimizationPlanRequest
    → ℕ
    → String
    → ℕ
    → Database
    → Result (List Batch × CustomerConfig)
    → Reply × Database
for_batches F c today id now db (err e) = (missing e, db)
for_batches F c today id now db (ok (batches, config)) =
    let r : OptimizationRequest = record {
      customer_id = c.customer_id;
      batches = candidates today config batches;
      capacity_by_action = c.capacity_by_action;
    } in
    if ltb (length batches) 2
    then (refused 409, db)
    else planned id now r db (priority_baseline F r)

abbrev pub gated :
    Floats
    → Bool
    → Repository
    → OptimizationPlanRequest
    → ℕ
    → String
    → ℕ
    → Database
    → Access (Unit {0})
    → Reply × Database
gated F gate_passed repository c today id now db (denied n) = (refused n, db)
gated F gate_passed repository c today id now db (granted _) =
    if gate_passed
    then for_batches F c today id now db (
        repository.load_batches c.customer_id >>= λ batches.
        repository.load_customer_config c.customer_id >>= λ config. ok (batches, config))
    else (refused 503, db)

-- `create_optimization_plan` on the day `today` at the time `now`; `id` is the new `uuid4`
unfoldable pub create_optimization_plan :
    Floats
    → Bool
    → Repository
    → Principal
    → OptimizationPlanRequest
    → ℕ
    → String
    → ℕ
    → Database
    → Reply × Database
unfolding priority_baseline save
create_optimization_plan F gate_passed repository p c today id now db =
    gated F gate_passed repository c today id now db (require_customer p c.customer_id)

abbrev pub shown : OptimizationPlan → Access (Unit {0}) → Reply
shown plan (denied n) = refused n
shown plan (granted _) = answered plan

abbrev pub found : Principal → Result (Option OptimizationPlan) → Reply
found p (err e) = raised e
found p (ok none) = refused 404
found p (ok (some plan)) = shown plan (require_customer p plan.request.customer_id)

-- `get_optimization_plan`
unfoldable pub get_optimization_plan : Principal → String → Database → Reply
get_optimization_plan p id db = found p (get id db)

-- `except ValueError`
abbrev pub outcome : Result OptimizationPlan × Database → Reply × Database
outcome (ok plan, db) = (answered plan, db)
outcome (err e, db) = (if is_value_error e then refused 409 else raised e, db)

abbrev pub approving :
    Supplies → String → String → ℕ → Database → Access (Unit {0}) → Reply × Database
approving s id operator now db (denied n) = (refused n, db)
approving s id operator now db (granted _) = outcome (execute s id operator (utc now) db)

abbrev pub for_plan :
    Supplies
    → Principal
    → String
    → String
    → ℕ
    → Database
    → Result (Option OptimizationPlan)
    → Reply × Database
for_plan s p id operator now db (err e) = (raised e, db)
for_plan s p id operator now db (ok none) = (refused 404, db)
for_plan s p id operator now db (ok (some plan)) =
    approving s id operator now db (require_customer p plan.request.customer_id)

-- `execute_optimization_plan` by an operator at the time `now`
unfoldable pub execute_optimization_plan :
    Supplies → Principal → String → String → ℕ → Database → Reply × Database
unfolding get execute
execute_optimization_plan s p id operator now db = for_plan s p id operator now db (get id db)
