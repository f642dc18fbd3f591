-- ===== src/Persistence/SuggestionStore.antt =====
-- `SuggestionStore` (src/persistence/suggestion_store.py) on the table `suggestions`, oldest row first.
pub mod Latest
use shelf_life_copilot.Prelude.{
  ℕ, ◌+◌, String, Bool, true, ◌&&◌, Option, none, some, List, [], ◌∷◌, ◌++◌, DateTime, Result, ok,
  err, value_error, ◌==◌, ltb, leb, if◌then◌else◌, ◌>>=◌,
}
use shelf_life_copilot.Models.Suggestion.{Suggestion, validate_suggestion}
use shelf_life_copilot.Persistence.Approvals.{stored}

pub record Suggestions : Type 0 where
  pub rows : List Suggestion
  -- the AUTOINCREMENT sequence
  pub last_id : ℕ

abbrev pub no_suggestions : Suggestions
no_suggestions = record { rows = []; last_id = 0 }

-- `save`
unfoldable pub save : Suggestion → Suggestions → ℕ × Suggestions
save s t = (
  t.last_id + 1,
  record {
    rows = t.rows ++ record s { generated_at = stored s.generated_at } ∷ [];
    last_id = t.last_id + 1;
  },
)

-- the WHERE clause, with the optional bound on `generated_at`
abbrev pub no_later : Option ℕ → Suggestion → Bool
no_later none s = true
no_later (some at) s = leb s.generated_at.instant at

abbrev pub is_about : String → String → Option ℕ → Suggestion → Bool
is_about customer batch at s = s.customer_id == customer && (s.batch_id == batch && no_later at s)

abbrev pub later : Suggestion → Option Suggestion → Suggestion
later s none = s
later s (some r) = if ltb s.generated_at.instant r.generated_at.instant then r else s

-- ORDER BY generated_at DESC LIMIT 1; of rows with one time the oldest is taken
unfoldable pub newest : (Suggestion → Bool) → List Suggestion → Option Suggestion
newest p [] = none
newest p (s ∷ rows) = let rest = newest p rows in if p s then some (later s rest) else rest

-- the row that was found, constructed and validated again
abbrev pub read : Option Suggestion → Result (Option Suggestion)
read none = ok none
read (some s) = validate_suggestion s >>= λ v. ok (some v)

-- `_latest`
unfoldable pub latest : String → String → Option ℕ → Suggestions → Result (Option Suggestion)
unfolding newest
latest customer batch at t = read (newest (is_about customer batch at) t.rows)

unfoldable pub latest_for_batch : String → String → Suggestions → Result (Option Suggestion)
unfolding latest
latest_for_batch customer batch t = latest customer batch none t

unfoldable pub latest_for_batch_at :
    String → String → DateTime → Suggestions → Result (Option Suggestion)
unfolding latest
latest_for_batch_at customer batch at t =
    if at.tz then latest customer batch (some at.instant) t else err value_error
