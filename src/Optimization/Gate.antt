-- ===== src/Optimization/Gate.antt =====
-- The gate over evaluation cases (`evaluate_optimizer` of src/optimization.py). The rounding of
-- floats is an argument (Models.Floats).
pub mod Clean
use shelf_life_copilot.Prelude.{
  ℕ, ◌+◌, ◌*◌, ◌≤◌, String, ◌≡◌, refl, sym, ◌∙◌, ap, eq_iff, Bool, true, false, not, ◌&&◌, ◌||◌,
  List, [], ◌∷◌, Result, ok, err, guard, ◌>>◌, ◌>>=◌, >>=-eq-ok, guard-eq-ok, same_ok, value_error,
  ltb, leb, nat_eq, nat_eq_iff, ◌==◌, eq_refl, length, if◌then◌else◌, Bool-cases, inl, inr, arith,
}
use shelf_life_copilot.Prelude.Table.{All, All-map, contains}
use shelf_life_copilot.Models.Action.{Amount, ActionType, report_loss, action_eq}
use shelf_life_copilot.Prelude.Int.{ℤ, pos, negsuc}
use shelf_life_copilot.Optimization.{
  OptimizationBatch, OptimizationRequest, OptimizationAssignment, OptimizationResult, before,
  insert, sorted, assign, priority_baseline,
}
use shelf_life_copilot.Models.Floats.{Floats}

-- a float in the unit of `quotient`
abbrev pub Rate : Type 0
Rate = ℕ

pub record OptimizationGate : Type 0 where
  pub passed : Bool
  pub case_count : ℕ
  pub deterministic : Bool
  pub capacity_safe : Bool
  pub assignment_complete : Bool
  pub minimum_coverage_rate : Rate
  pub observed_minimum_coverage : Rate

abbrev pub assignment_eq : OptimizationAssignment → OptimizationAssignment → Bool
assignment_eq a b =
    a.batch_id == b.batch_id
    && (action_eq a.action b.action && nat_eq a.allocated_qty b.allocated_qty)

unfoldable pub assignments_eq : List OptimizationAssignment → List OptimizationAssignment → Bool
unfolding action_eq
assignments_eq [] [] = true
assignments_eq (a ∷ xs) (b ∷ ys) = assignment_eq a b && assignments_eq xs ys
assignments_eq _ _ = false

-- `first == priority_baseline(case)`
unfoldable pub result_eq : OptimizationResult → OptimizationResult → Bool
unfolding assignments_eq
result_eq p q = assignments_eq p.assignments q.assignments && nat_eq p.coverage_rate q.coverage_rate

-- used[action] after the loop over the assignments, from `before`
unfoldable pub add_used : Floats → ActionType → Amount → List OptimizationAssignment → Amount
unfolding action_eq
add_used F x before [] = before
add_used F x before (a ∷ rest) =
    add_used F x (if action_eq a.action x then F.add before a.allocated_qty else before) rest

-- the capacities of the actions of the assignments, over the amounts that all assignments use
unfoldable pub within :
    Floats
    → (ActionType → Amount)
    → List OptimizationAssignment
    → List OptimizationAssignment
    → Bool
unfolding add_used
within F capacity all [] = true
within F capacity all (a ∷ rest) =
    leb (add_used F a.action 0 all) (capacity a.action) && within F capacity all rest

abbrev pub has_assignment : List OptimizationAssignment → String → Bool
has_assignment plan id = contains (λ a. a.batch_id == id) plan

abbrev pub has_batch : List OptimizationBatch → String → Bool
has_batch batches id = contains (λ b. b.batch_id == id) batches

unfoldable pub all_assigned : List OptimizationAssignment → List OptimizationBatch → Bool
all_assigned plan [] = true
all_assigned plan (b ∷ bs) = has_assignment plan b.batch_id && all_assigned plan bs

unfoldable pub all_known : List OptimizationBatch → List OptimizationAssignment → Bool
all_known batches [] = true
all_known batches (a ∷ rest) = has_batch batches a.batch_id && all_known batches rest

-- the equality of the two sets of ids
abbrev pub is_complete : List OptimizationBatch → List OptimizationAssignment → Bool
is_complete batches plan = all_assigned plan batches && all_known batches plan

-- the three flags and the rates, after some cases
pub record Checked : Type 0 where
  pub deterministic : Bool
  pub capacity_safe : Bool
  pub assignment_complete : Bool
  pub coverage_rates : List Rate

abbrev pub add_case :
    Floats → OptimizationRequest → OptimizationResult → OptimizationResult → Checked → Checked
add_case F r first again rest = record {
  deterministic = result_eq first again && rest.deterministic;
  capacity_safe =
      within F r.capacity_by_action first.assignments first.assignments && rest.capacity_safe;
  assignment_complete = is_complete r.batches first.assignments && rest.assignment_complete;
  coverage_rates = first.coverage_rate ∷ rest.coverage_rates;
}

-- the loop over the cases
unfoldable pub check_all : Floats → List OptimizationRequest → Result Checked
unfolding result_eq within all_assigned all_known
check_all F [] = ok (record {
  deterministic = true;
  capacity_safe = true;
  assignment_complete = true;
  coverage_rates = [];
})
check_all F (r ∷ rest) = priority_baseline F r >>= λ first. priority_baseline F r >>= λ again.
    check_all F rest >>= λ later. ok (add_case F r first again later)

abbrev pub smaller : Rate → Rate → Rate
smaller a b = if ltb b a then b else a

-- `min(coverage_rates)`
abbrev pub minimum_of : Rate → List Rate → Rate
minimum_of a [] = a
minimum_of a (b ∷ rest) = minimum_of (smaller a b) rest

abbrev pub least : List Rate → Rate
least [] = 0
least (a ∷ rest) = minimum_of a rest

abbrev pub reaches : Rate → Rate → Bool
reaches minimum a = leb minimum a

abbrev pub gate : Rate → ℕ → Checked → OptimizationGate
gate minimum count c = record {
  passed =
      c.deterministic
      && (c.capacity_safe && (c.assignment_complete && reaches minimum (least c.coverage_rates)));
  case_count = count;
  deterministic = c.deterministic;
  capacity_safe = c.capacity_safe;
  assignment_complete = c.assignment_complete;
  minimum_coverage_rate = minimum;
  observed_minimum_coverage = least c.coverage_rates;
}

-- `evaluate_optimizer`
unfoldable pub evaluate_optimizer :
    Floats → Rate → List OptimizationRequest → Result OptimizationGate
unfolding check_all
evaluate_optimizer F minimum cases =
    guard (ltb 0 (length cases)) value_error
    >> (check_all F cases >>= λ c. ok (gate minimum (length cases) c))

abbrev evaluation_batch : String → ℤ → Amount → OptimizationBatch
evaluation_batch id days_left stock_qty = record {
  batch_id = id;
  material_name = "";
  days_left = days_left;
  stock_qty = stock_qty;
  allowed_actions = report_loss ∷ [];
}

-- `default_evaluation_cases`, for the check at the start of the program
abbrev pub default_evaluation_cases : List OptimizationRequest
default_evaluation_cases =
    record {
      customer_id = "eval";
      batches = evaluation_batch "urgent" (negsuc 0) 7 ∷ evaluation_batch "later" (pos 30) 8 ∷ [];
      capacity_by_action = λ a. if action_eq report_loss a then 10 else 0;
    }
    ∷ record {
      customer_id = "eval-zero";
      batches = evaluation_batch "a" (pos 0) 0 ∷ evaluation_batch "b" (pos 1) 0 ∷ [];
      capacity_by_action = λ a. 0;
    }
    ∷ []
