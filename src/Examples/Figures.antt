-- ===== src/Examples/Figures.antt =====
-- A month of two decisions, reported and measured (src/reports/aggregator.py and src/quality.py).
use shelf_life_copilot.Prelude.{
  false, String, true, ◌≡◌, refl, none, some, Option, List, [], ◌∷◌, ok, Result, DateTime, utc,
}
use shelf_life_copilot.Models.Action.{transform}
use shelf_life_copilot.Prelude.Int.{pos}
use shelf_life_copilot.Models.Decision.{Decision, approved, rejected}
use shelf_life_copilot.Models.Suggestion.{Suggestion}
use shelf_life_copilot.Quality.{
  is_negative, OutcomeQualityReport, build_outcome_quality_report, observe, report,
}
use shelf_life_copilot.Quality.Gate.{IsReport, build_outcome_quality_report-IsReport}
use shelf_life_copilot.Reports.{MonthlyReportData, figures}
use shelf_life_copilot.Reports.Figures as Figures
use shelf_life_copilot.Examples.Doubles.{doubles}

abbrev decision : Decision
decision = record {
  batch_id = "b1";
  customer_id = "c1";
  material_name = "milk";
  decided_at = utc 100;
  action = transform;
  outcome = approved;
  savings_estimate = 80;
  actual_savings = some 60;
  actual_qty = some 5;
  notes = none;
}

abbrev decisions : List Decision
decisions = decision ∷ record decision { outcome = rejected; actual_savings = none } ∷ []

abbrev suggestion : Suggestion
suggestion = record {
  batch_id = "b1";
  customer_id = "c1";
  action = transform;
  savings_estimate = 80;
  rationale = "soon";
  confidence = 1;
  is_standard = true;
  generated_at = utc 90;
  llm_model = "model";
  user_feedback = none;
}

abbrev suggestion_for_batch : String → String → DateTime → Result (Option Suggestion)
suggestion_for_batch customer batch at = ok (some suggestion)

abbrev quality : OutcomeQualityReport
quality = report doubles 1 "c1" 1 50 (
  record { provider = "model"; action = transform; estimated_savings = 80; actual_savings = 60 }
      ∷ [],
  0,
)

reports_quality :
    build_outcome_quality_report doubles 1 suggestion_for_batch 1 (pos 50) "c1" decisions
    ≡ ok quality
unfolding build_outcome_quality_report observe
reports_quality = refl

build_outcome_quality_report-IsReport_example :
    (is_negative (pos 1) ≡ false) × IsReport 1 50 "c1" decisions quality
build_outcome_quality_report-IsReport_example =
    build_outcome_quality_report-IsReport doubles 1 suggestion_for_batch 1 (pos 50) "c1" decisions
      reports_quality

abbrev month : MonthlyReportData
month = figures doubles 1 "c1" "food" (2026, 5) 100 decisions
