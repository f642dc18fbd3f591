-- ===== src/Scan/Account.antt =====
-- What a scan reports and stores (`run_for_customer` of src/scheduler/runner.py).
use shelf_life_copilot.Prelude.{ℕ, ◌≡◌, List, [], ◌∷◌, ◌++◌}
use shelf_life_copilot.Models.Batch.{Batch}
use shelf_life_copilot.Models.Customer.{CustomerConfig}
use shelf_life_copilot.Models.Suggestion.{Suggestion}
use shelf_life_copilot.Persistence.Approvals.{stored}
use shelf_life_copilot.Persistence.SuggestionStore.{Suggestions}
use shelf_life_copilot.Scan.{Provider, ScanResult, alerts_of, snds}
use shelf_life_copilot.Scan.Standard.{Answers}

-- the rows that a list of suggestions becomes
abbrev pub as_rows : List Suggestion → List Suggestion
as_rows [] = []
as_rows (s ∷ rest) = record s { generated_at = stored s.generated_at } ∷ as_rows rest

-- What the report of a scan with the language model says.
pub record IsReport (pr : Provider) (c : CustomerConfig) (bs : List Batch) (today : ℕ)
    (t : Suggestions) (r : ScanResult) (t' : Suggestions) : Type 0 where
  pub alerts_are : r.alerts ≡ snds (alerts_of c today bs)
  pub answered : Answers pr c (alerts_of c today bs) r.suggestions r.errors
  pub all_stored : t'.rows ≡ t.rows ++ as_rows r.suggestions
