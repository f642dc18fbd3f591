-- ===== src/Examples/Plans.antt =====
-- Alerts, scans and allocations (src/alerts, src/scheduler/runner.py, src/optimization.py).
use shelf_life_copilot.Prelude.{ℕ, ◌≤◌, arith, ◌≡◌, refl, [], ◌∷◌, ok, utc}
use shelf_life_copilot.Prelude.Int.{pos, negsuc}
use shelf_life_copilot.Models.Action.{
  ActionType, transform, discount_clearance, employee_canteen, transfer_warehouse, report_loss,
}
use shelf_life_copilot.Models.Floats.{total, exact_limit}
use shelf_life_copilot.Examples.Doubles.{doubles, doubles-IsIeee}
use shelf_life_copilot.Models.Batch.{Alert, AlertThresholds, orange}
use shelf_life_copilot.Models.Customer.{CustomerConfig}
use shelf_life_copilot.Scan.{Provider, Payload, Repository}
use shelf_life_copilot.Optimization.{
  OptimizationBatch, OptimizationRequest, OptimizationResult, priority_baseline, sorted, insert,
}
use shelf_life_copilot.Optimization.Capacity.{IsAllocation, priority_baseline-IsAllocation}
use shelf_life_copilot.Examples.Callbacks.{batch}

abbrev thresholds : AlertThresholds
thresholds = record { yellow = pos 30; orange = pos 15; red = pos 7 }

abbrev payload : Payload
payload = record {
  action = report_loss;
  savings_estimate = 3;
  rationale = "late";
  confidence = 500000;
}

abbrev provider : Provider
provider = record { model_name = "m"; call_with_tool = λ b a c f. ok payload; now = utc 5 }

abbrev pub config : CustomerConfig
config = record {
  customer_id = "c1";
  enabled_actions = transform ∷ [];
  disabled_actions = [];
  alert_thresholds = thresholds;
  annual_baseline_loss = 100;
}

abbrev alert : Alert
alert = record { batch_id = "b1"; customer_id = "c1"; severity = orange; days_left = pos 10 }

abbrev repository : Repository
repository = record { load_customer_config = λ c. ok config; load_batches = λ c. ok (batch ∷ []) }

abbrev urgent : OptimizationBatch
urgent = record {
  batch_id = "u";
  material_name = "";
  days_left = negsuc 0;
  stock_qty = 7;
  allowed_actions = report_loss ∷ [];
}

abbrev later : OptimizationBatch
later = record {
  batch_id = "l";
  material_name = "";
  days_left = pos 30;
  stock_qty = 8;
  allowed_actions = report_loss ∷ transform ∷ [];
}

abbrev capacity : ActionType → ℕ
capacity report_loss = 10
capacity _ = 0

abbrev request : OptimizationRequest
request = record {
  customer_id = "eval";
  batches = later ∷ urgent ∷ [];
  capacity_by_action = capacity;
}

capacity_le : (x : ActionType) → capacity x ≤ exact_limit
capacity_le transform = omega arith
capacity_le discount_clearance = omega arith
capacity_le employee_canteen = omega arith
capacity_le transfer_warehouse = omega arith
capacity_le report_loss = omega arith

priority_baseline-IsAllocation_example :
    (p : OptimizationResult) × (priority_baseline doubles request ≡ ok p)
    × IsAllocation doubles doubles-IsIeee request p
unfolding sorted insert total
priority_baseline-IsAllocation_example =
    priority_baseline-IsAllocation doubles doubles-IsIeee request
      (record { stock = omega arith; capacity = capacity_le })
      ((report_loss, [], refl), ((report_loss, transform ∷ [], refl), tt))
