-- ===== src/Examples/Gates.antt =====
-- The check of the allocation at the start of the program (src/optimization.py).
use shelf_life_copilot.Prelude.{true}
use shelf_life_copilot.Optimization.Gate.{OptimizationGate}

abbrev passed_gate : OptimizationGate
passed_gate = record {
  passed = true;
  case_count = 2;
  deterministic = true;
  capacity_safe = true;
  assignment_complete = true;
  minimum_coverage_rate = 65;
  observed_minimum_coverage = 66;
}
