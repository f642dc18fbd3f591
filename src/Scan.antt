-- ===== src/Scan.antt =====
-- One scan cycle of a customer: `SuggestionEngine.suggest` (src/suggestion/engine.py) and `ScanRunner`
-- (src/scheduler/runner.py). Cards, logs and metrics are left out. The calls of the model that one
-- scan has in flight together are made in the order of the batches, in which `gather` returns them.
pub mod Account
pub mod Standard
use shelf_life_copilot.Prelude.{
  ℕ, ◌+◌, String, Bool, true, false, not, ◌&&◌, Option, none, some, is_none, List, [], ◌∷◌, ◌++◌,
  DateTime, Result, ok, err, Error, guard, ◌>>◌, ◌>>=◌, value_error, key_error, leb, ◌==◌,
  if◌then◌else◌,
}
use shelf_life_copilot.Prelude.Table.{find}
use shelf_life_copilot.Models.Action.{Amount, ActionType}
use shelf_life_copilot.Models.Batch.{Batch, Alert}
use shelf_life_copilot.Models.Customer.{CustomerConfig, includes}
use shelf_life_copilot.Models.Suggestion.{Suggestion, validate_suggestion, full_confidence}
use shelf_life_copilot.Persistence.SuggestionStore.{Suggestions, save}
use shelf_life_copilot.Alerts.{scan_batch}

-- `_SuggestionPayload` before its validation
pub record Payload : Type 0 where
  pub action : ActionType
  pub savings_estimate : Amount
  pub rationale : String
  pub confidence : ℕ

unfoldable pub validate_payload : Payload → Result Payload
validate_payload p =
    guard (not (p.rationale == "")) value_error
    >> guard (leb p.confidence full_confidence) value_error
    >> ok p

-- The provider of the language model: its name, its answer to the prompt for a batch, and the time at
-- which the suggestion is made.
pub record Provider : Type 0 where
  pub model_name : String
  pub call_with_tool : Batch → Alert → CustomerConfig → Option String → Result Payload
  pub now : DateTime

abbrev pub suggestion_of : Provider → Batch → CustomerConfig → Option String → Payload → Suggestion
suggestion_of pr b c feedback p = record {
  batch_id = b.batch_id;
  customer_id = c.customer_id;
  action = p.action;
  savings_estimate = p.savings_estimate;
  rationale = p.rationale;
  confidence = p.confidence;
  is_standard = includes c.enabled_actions p.action;
  generated_at = pr.now;
  llm_model = pr.model_name;
  user_feedback = feedback;
}

-- `SuggestionEngine.suggest`
unfoldable pub suggest :
    Provider → Batch → Alert → CustomerConfig → Option String → Result Suggestion
unfolding validate_payload validate_suggestion
suggest pr b a c feedback = do
  raw ← pr.call_with_tool b a c feedback
  p ← validate_payload raw
  validate_suggestion (suggestion_of pr b c feedback p)

pub record ScanResult : Type 0 where
  pub total_batches : ℕ
  pub alerts : List Alert
  pub suggestions : List Suggestion
  -- the batches whose suggestion failed
  pub errors : List String
  pub batch_ids : List String

abbrev pub alerts_of : CustomerConfig → ℕ → List Batch → List (Batch × Alert)
alerts_of c today [] = []
alerts_of c today (b ∷ bs) =
    let rest = alerts_of c today bs in
    elim (scan_batch b c.alert_thresholds today) [ none ↦ rest | some a ↦ (b, a) ∷ rest ]

abbrev pub size {ℓ} : {A : Type ℓ} → List A → ℕ
size [] = 0
size (_ ∷ xs) = size xs + 1

abbrev pub add_outcome :
    String → Result Suggestion → List Suggestion × List String → List Suggestion × List String
add_outcome id (ok s) (good, bad) = (s ∷ good, bad)
add_outcome id (err e) (good, bad) = (good, id ∷ bad)

-- the suggestions and the failed batches, in the order of the alerts
unfoldable pub outcomes :
    Provider → CustomerConfig → List (Batch × Alert) → List Suggestion × List String
outcomes pr c [] = ([], [])
outcomes pr c ((b, a) ∷ rest) = add_outcome b.batch_id (suggest pr b a c none) (outcomes pr c rest)

unfoldable pub save_all : List Suggestion → Option Suggestions → Option Suggestions
save_all [] t = t
save_all (s ∷ rest) none = none
save_all (s ∷ rest) (some t) = save_all rest (some (save s t).1)

abbrev pub ids_of : List Batch → List String
ids_of [] = []
ids_of (b ∷ bs) = b.batch_id ∷ ids_of bs

abbrev pub snds {ℓ κ} : {A : Type ℓ} {B : Type κ} → List (A × B) → List B
snds [] = []
snds ((a, b) ∷ rest) = b ∷ snds rest

abbrev pub scan_result :
    List Batch → List (Batch × Alert) → List Suggestion × List String → ScanResult
scan_result bs found (good, bad) = record {
  total_batches = size bs;
  alerts = snds found;
  suggestions = good;
  errors = bad;
  batch_ids = ids_of bs;
}

abbrev pub suggested :
    Option Provider → Bool → CustomerConfig → List (Batch × Alert) → List Suggestion × List String
suggested (some pr) false c found = outcomes pr c found
suggested _ _ c found = ([], [])

-- The batch repository.
pub record Repository : Type 0 where
  pub load_customer_config : String → Result CustomerConfig
  pub load_batches : String → Result (List Batch)

abbrev pub scan :
    Option Provider
    → Bool
    → CustomerConfig
    → List Batch
    → ℕ
    → Option Suggestions
    → ScanResult × Option Suggestions
scan engine skip c bs today t =
    let found = alerts_of c today bs in
    let out = suggested engine skip c found in (scan_result bs found out, save_all out.0 t)

-- `run_for_customer`; the exceptions that it raises come before any write
unfoldable pub run_for_customer :
    Repository
    → Option Provider
    → String
    → ℕ
    → Bool
    → Option Suggestions
    → Result (ScanResult × Option Suggestions)
run_for_customer repo engine customer today skip t = do
  guard (not (not skip && is_none engine)) value_error
  c ← repo.load_customer_config customer
  bs ← repo.load_batches customer
  ok (scan engine skip c bs today t)

abbrev pub revised :
    Provider
    → CustomerConfig
    → String
    → Batch
    → Option Alert
    → Option Suggestions
    → ScanResult × Option Suggestions
revised pr c feedback b none t = (
  record {
    total_batches = 1;
    alerts = [];
    suggestions = [];
    errors = [];
    batch_ids = b.batch_id ∷ [];
  },
  t,
)
revised pr c feedback b (some a) t =
    let out = add_outcome b.batch_id (suggest pr b a c (some feedback)) ([], []) in
    (
      record {
        total_batches = 1;
        alerts = a ∷ [];
        suggestions = out.0;
        errors = out.1;
        batch_ids = b.batch_id ∷ [];
      },
      save_all out.0 t,
    )

abbrev pub required {ℓ} : {A : Type ℓ} → Error → Option A → Result A
required e none = err e
required e (some a) = ok a

-- `revise_for_batch`
unfoldable pub revise_for_batch :
    Repository
    → Option Provider
    → String
    → String
    → String
    → ℕ
    → Option Suggestions
    → Result (ScanResult × Option Suggestions)
revise_for_batch repo engine customer batch feedback today t = do
  pr ← required value_error engine
  c ← repo.load_customer_config customer
  bs ← repo.load_batches customer
  b ← required key_error (find (λ b. b.batch_id == batch) bs)
  ok (revised pr c feedback b (scan_batch b c.alert_thresholds today) t)
