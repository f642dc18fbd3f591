-- ===== src/Quality.antt =====
-- The outcome quality report and its gate (src/quality.py). The rounding of floats is an argument
-- (Models.Floats), and so are the amount that stands for 1.0 and the threshold, in the unit of
-- `quotient`. A mean is its numerator and its denominator.
pub mod Gate
use Prim.Native.String
use text.Mathlib.Text.{is_lt}
use shelf_life_copilot.Prelude.{
  ℕ, zero, suc, ◌+◌, ◌-◌, ◌*◌, max, String, Bool, true, false, not, ◌&&◌, ◌||◌, Option, none, some,
  List, [], ◌∷◌, ◌++◌, map, DateTime, Result, ok, err, guard, ◌>>◌, ◌>>=◌, value_error, ◌==◌, ltb,
  leb, length, if◌then◌else◌,
}
use shelf_life_copilot.Prelude.Int.{ℤ, pos, negsuc}
use shelf_life_copilot.Prelude.Sorting.{sort_by, filter, sum_of}
use shelf_life_copilot.Models.Floats.{Floats}
use shelf_life_copilot.Models.Action.{Amount, ActionType, action_eq}
use shelf_life_copilot.Models.Decision.{Decision}
use shelf_life_copilot.Models.Suggestion.{Suggestion}

pub record OutcomeObservation : Type 0 where
  pub provider : String
  pub action : ActionType
  pub estimated_savings : Amount
  pub actual_savings : Amount

-- the observations of one provider and action
pub record Group : Type 0 where
  pub provider : String
  pub action : ActionType
  pub values : List OutcomeObservation

-- `mean_bias` is the difference of the two sums over the count.
pub record QualitySegment : Type 0 where
  pub provider : String
  pub action : ActionType
  pub sample_count : ℕ
  pub mean_estimated_savings : Amount × ℕ
  pub mean_actual_savings : Amount × ℕ
  pub mean_bias : (Amount × Amount) × ℕ
  pub mean_absolute_error : Amount × ℕ
  -- a float in the unit of `quotient`
  pub normalized_absolute_error : ℕ

pub data Reason : Type 0 where
  few_samples : (verified minimum : ℕ) → Reason
  errors_exceed : List (String × ActionType) → Reason

pub record OutcomeQualityReport : Type 0 where
  pub customer_id : String
  pub verified_count : ℕ
  pub unmatched_count : ℕ
  pub segments : List QualitySegment
  pub gate_passed : Bool
  pub gate_reasons : List Reason

abbrev pub observation : Decision → Amount → Suggestion → OutcomeObservation
observation d actual s = record {
  provider = s.llm_model;
  action = d.action;
  estimated_savings = d.savings_estimate;
  actual_savings = actual;
}

abbrev pub Observed : Type 0
Observed = List OutcomeObservation × ℕ

-- the verified savings of a decision of the customer
abbrev pub verified : String → Decision → Option Amount
verified customer d = if d.customer_id == customer then d.actual_savings else none

abbrev pub observed_one : Decision → Amount → Observed → Option Suggestion → Observed
observed_one d actual (seen, unmatched) none = (seen, unmatched + 1)
observed_one d actual (seen, unmatched) (some s) = (observation d actual s ∷ seen, unmatched)

-- the loop over the decisions: the observations in their order, and the number of unmatched decisions
unfoldable pub observe :
    (String → String → DateTime → Result (Option Suggestion))
    → String
    → List Decision
    → Result Observed
observe suggestion_for_batch customer [] = ok ([], 0)
observe suggestion_for_batch customer (d ∷ ds) = elim (verified customer d) [
  | none ↦ observe suggestion_for_batch customer ds
  | some actual ↦
      (suggestion_for_batch customer d.batch_id d.decided_at >>= λ s.
      observe suggestion_for_batch customer ds >>= λ rest. ok (observed_one d actual rest s))
]

abbrev pub same_group : OutcomeObservation → Group → Bool
same_group o g = g.provider == o.provider && action_eq g.action o.action

-- `grouped[...].append(observation)`
unfoldable pub add_to : OutcomeObservation → List Group → List Group
unfolding action_eq
add_to o [] = record { provider = o.provider; action = o.action; values = o ∷ [] } ∷ []
add_to o (g ∷ gs) =
    let rest = add_to o gs in
    if same_group o g then record g { values = g.values ++ o ∷ [] } ∷ gs else g ∷ rest

unfoldable pub grouped : List Group → List OutcomeObservation → List Group
unfolding add_to
grouped gs [] = gs
grouped gs (o ∷ os) = grouped (add_to o gs) os

-- the value of the enumeration
abbrev pub action_value : ActionType → String
action_value ActionType.transform = "transform"
action_value ActionType.discount_clearance = "discount_clearance"
action_value ActionType.employee_canteen = "employee_canteen"
action_value ActionType.transfer_warehouse = "transfer_warehouse"
action_value ActionType.report_loss = "report_loss"

-- the order of the keys
abbrev pub sorts_before : Group → Group → Bool
sorts_before a b =
    is_lt (String.compare a.provider b.provider)
    || (a.provider == b.provider
        && is_lt (String.compare (action_value a.action) (action_value b.action)))

-- abs(a - b)
abbrev pub distance : Floats → Amount → Amount → Amount
distance F a b = if leb b a then F.sub a b else F.sub b a

-- `_segment`
unfoldable pub segment : Floats → Amount → Group → QualitySegment
segment F unit g =
    let count = length g.values in
    let estimated = F.sum (map (λ o. o.estimated_savings) g.values) in
    let actual = F.sum (map (λ o. o.actual_savings) g.values) in
    let error = F.sum (map (λ o. distance F o.estimated_savings o.actual_savings) g.values) in
    record {
      provider = g.provider;
      action = g.action;
      sample_count = count;
      mean_estimated_savings = (estimated, count);
      mean_actual_savings = (actual, count);
      mean_bias = ((estimated, actual), count);
      mean_absolute_error = (error, count);
      normalized_absolute_error =
          F.quotient error (F.sum (map (λ o. max o.actual_savings unit) g.values));
    }

-- normalized_absolute_error > max_normalized_error
abbrev pub exceeds : ℕ → QualitySegment → Bool
exceeds limit s = ltb limit s.normalized_absolute_error

abbrev pub few : ℕ → ℕ → List Reason
few verified minimum = if ltb verified minimum then few_samples verified minimum ∷ [] else []

abbrev pub labels : List QualitySegment → List (String × ActionType)
labels [] = []
labels (s ∷ rest) = (s.provider, s.action) ∷ labels rest

abbrev pub exceeding : List QualitySegment → List Reason
exceeding [] = []
exceeding (s ∷ rest) = errors_exceed (labels (s ∷ rest)) ∷ []

abbrev pub has_none {ℓ} : {A : Type ℓ} → List A → Bool
has_none [] = true
has_none (_ ∷ _) = false

abbrev pub report : Floats → Amount → String → ℕ → ℕ → Observed → OutcomeQualityReport
report F unit customer minimum limit (seen, unmatched) =
    let segments = map (segment F unit) (sort_by sorts_before (grouped [] seen)) in
    let reasons = few (length seen) minimum ++ exceeding (filter (exceeds limit) segments) in
    record {
      customer_id = customer;
      verified_count = length seen;
      unmatched_count = unmatched;
      segments = segments;
      gate_passed = has_none reasons;
      gate_reasons = reasons;
    }

abbrev pub is_negative : ℤ → Bool
is_negative (pos n) = false
is_negative (negsuc n) = true

abbrev pub size_of : ℤ → ℕ
size_of (pos n) = n
size_of (negsuc n) = suc n

-- `build_outcome_quality_report`
unfoldable pub build_outcome_quality_report :
    Floats
    → Amount
    → (String → String → DateTime → Result (Option Suggestion))
    → ℕ
    → ℤ
    → String
    → List Decision
    → Result OutcomeQualityReport
unfolding observe grouped segment sort_by filter
build_outcome_quality_report F unit suggestion_for_batch minimum limit customer decisions =
    guard (ltb 0 minimum && not (is_negative limit)) value_error
    >> (observe suggestion_for_batch customer decisions >>= λ seen.
        ok (report F unit customer minimum (size_of limit) seen))
