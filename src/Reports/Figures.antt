-- ===== src/Reports/Figures.antt =====
-- The figures of a monthly report (src/reports/aggregator.py).
use shelf_life_copilot.Prelude.{◌≤◌, ◌≡◌, Bool, ◌&&◌, List, map, length}
use shelf_life_copilot.Prelude.Table.{count_where}
use shelf_life_copilot.Prelude.Slices.{take}
use shelf_life_copilot.Prelude.Sorting.{filter, Ascending}
use shelf_life_copilot.Models.Action.{ActionType, action_eq}
use shelf_life_copilot.Models.Decision.{Decision, is_approved}
use shelf_life_copilot.Models.Floats.{Floats}
use shelf_life_copilot.Reports.{
  ActionTally, ActionGroup, MonthlyReportData, savings, tally, is_executed, is_verified,
}
use shelf_life_copilot.Reports.Groups.{has_action, decisions_of}

abbrev pub SavesNoLess : ActionTally → ActionTally → Type 0
SavesNoLess a b = b.total_actual_savings ≤ a.total_actual_savings

abbrev pub NoLessSaved : Decision → Decision → Type 0
NoLessSaved a b = savings b ≤ savings a

-- What the figures of a report are, next to the decisions that it is about.
pub record IsReport (F : Floats) (ds : List Decision) (r : MonthlyReportData) : Type 0 where
  pub total : r.total_count ≡ length ds
  pub approved : r.approved_count ≡ count_where is_approved ds
  pub executed : r.executed_count ≡ count_where (λ d. is_approved d && is_executed d) ds
  pub verified : r.verified_count ≡ count_where (λ d. is_approved d && is_verified d) ds
  -- the approved decisions by their action, each action once
  pub groups : List ActionGroup
  pub one_group : (x : ActionType) → count_where (has_action x) groups ≤ 1
  pub group :
      (x : ActionType)
      → decisions_of x groups ≡ filter (λ d. action_eq d.action x) (filter is_approved ds)
  -- their tallies, the greatest savings first
  pub ranked : List ActionTally
  pub top : r.top_actions ≡ take 5 ranked
  pub greatest_first : Ascending SavesNoLess ranked
  pub all_ranked :
      (p : ActionTally → Bool) → count_where p ranked ≡ count_where p (map (tally F) groups)
  -- the approved and verified decisions, the greatest savings first
  pub cases : List Decision
  pub three_cases : r.case_studies ≡ take 3 cases
  pub best_first : Ascending NoLessSaved cases
  pub all_cases :
      (p : Decision → Bool)
      → count_where p cases ≡ count_where (λ d. is_approved d && (is_verified d && p d)) ds
