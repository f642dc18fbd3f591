-- ===== src/Models/Suggestion.antt =====
-- The model's recommendation for one batch (src/models/suggestion.py). A confidence is in units of
-- which `full_confidence` make 1.0.
use shelf_life_copilot.Prelude.{
  ℕ, String, Option, Bool, not, DateTime, Result, ok, guard, ◌>>◌, value_error, leb, ◌==◌,
}
use shelf_life_copilot.Models.Action.{Amount, ActionType}

abbrev pub full_confidence : ℕ
full_confidence = 1000000

pub record Suggestion : Type 0 where
  pub batch_id : String
  pub customer_id : String
  pub action : ActionType
  pub savings_estimate : Amount
  pub rationale : String
  pub confidence : ℕ
  pub is_standard : Bool
  pub generated_at : DateTime
  pub llm_model : String
  pub user_feedback : Option String

-- the field constraints and the validator `_require_tz`, which construction runs
unfoldable pub validate_suggestion : Suggestion → Result Suggestion
validate_suggestion s =
    guard (not (s.rationale == "")) value_error
    >> guard (leb s.confidence full_confidence) value_error
    >> guard (not (s.llm_model == "")) value_error
    >> guard s.generated_at.tz value_error
    >> ok s
