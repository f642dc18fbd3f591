-- ===== src/Reports.antt =====
-- The monthly report (src/reports/aggregator.py, runner.py and sources.py). A rate is its numerator and its
-- denominator; the sums of floats are an argument (Models.Floats). A month is a pair of a year and a month from 1 to 12; its text and the PDF are left out.
pub mod Months
pub mod Groups
pub mod Figures
use shelf_life_copilot.Prelude.{
  ℕ, zero, suc, ◌+◌, ◌-◌, ◌*◌, String, Bool, true, false, not, ◌&&◌, Option, none, some, is_some,
  List, [], ◌∷◌, ◌++◌, map, DateTime, Result, ok, err, guard, ◌>>◌, ◌>>=◌, value_error, ltb, leb,
  nat_eq, length, if◌then◌else◌, ◌==◌,
}
use shelf_life_copilot.Prelude.Slices.{take}
use shelf_life_copilot.Prelude.Sorting.{sort_by, filter}
use shelf_life_copilot.Models.Floats.{Floats}
use shelf_life_copilot.Models.Action.{Amount, ActionType, action_eq}
use shelf_life_copilot.Models.Decision.{Decision, is_approved}

abbrev pub Month : Type 0
Month = ℕ × ℕ

abbrev pub is_month : Month → Bool
is_month m = leb 1 m.1 && leb m.1 12

-- `previous_month` of the month of today
unfoldable pub previous_month : Month → Month
previous_month (year, month) = if nat_eq month 1 then (year - 1, 12) else (year, month - 1)

-- the month after, as `load_decisions` computes the end of its window
unfoldable pub next_month : Month → Month
next_month (year, month) =
    (year + (if nat_eq month 12 then 1 else 0), if nat_eq month 12 then 1 else month + 1)

-- `DecisionStore.list_for_period`, a parameter of the loader
abbrev pub Lister : Type 0
Lister = String → DateTime → DateTime → Result (List Decision)

-- `load_decisions`; the first argument is midnight of the first day of a month in the customer's zone
unfoldable pub load_decisions :
    (Month → DateTime) → Lister → String → Month → Result (List Decision)
unfolding next_month
load_decisions midnight list_for_period customer month =
    guard (is_month month) value_error
    >> list_for_period customer (midnight month) (midnight (next_month month))

-- the tiers of the subscription, in whole units of money; the fee is a year's, and a month's is its
-- twelfth
unfoldable pub annual_fee : Amount → Amount → Amount
annual_fee unit loss =
    if ltb loss (1000000 * unit)
    then 80000 * unit
    else (if ltb loss (3000000 * unit) then 150000 * unit else 300000 * unit)

pub record ActionTally : Type 0 where
  pub action : ActionType
  pub approved_count : ℕ
  pub total_actual_savings : Amount

pub record MonthlyReportData : Type 0 where
  pub customer_id : String
  pub industry : String
  pub month : Month
  pub total_count : ℕ
  pub approved_count : ℕ
  pub executed_count : ℕ
  pub verified_count : ℕ
  pub approval_rate : ℕ × ℕ
  pub total_savings_estimate : Amount
  pub total_savings_executed_estimate : Amount
  pub total_savings_actual : Amount
  pub top_actions : List ActionTally
  pub case_studies : List Decision
  pub annual_baseline_loss : Amount
  -- twelve times the monthly fee
  pub annual_subscription_fee : Amount
  -- the actual savings over a twelfth of the annual fee
  pub roi_multiple : Amount × Amount

-- `d.actual_savings or 0.0`
abbrev pub savings : Decision → Amount
savings d = elim d.actual_savings [ none ↦ 0 | some a ↦ a ]

-- one entry of `by_action`
pub record ActionGroup : Type 0 where
  pub action : ActionType
  pub decisions : List Decision

-- by_action[d.action].append(d)
unfoldable pub add_to : Decision → List ActionGroup → List ActionGroup
unfolding action_eq
add_to d [] = record { action = d.action; decisions = d ∷ [] } ∷ []
add_to d (g ∷ gs) =
    let rest = add_to d gs in
    if action_eq g.action d.action
    then record g { decisions = g.decisions ++ d ∷ [] } ∷ gs
    else g ∷ rest

unfoldable pub by_action : List ActionGroup → List Decision → List ActionGroup
unfolding add_to
by_action gs [] = gs
by_action gs (d ∷ ds) = by_action (add_to d gs) ds

abbrev pub tally : Floats → ActionGroup → ActionTally
tally F g = record {
  action = g.action;
  approved_count = length g.decisions;
  total_actual_savings = F.sum (map savings g.decisions);
}

abbrev pub saves_more : ActionTally → ActionTally → Bool
saves_more a b = ltb b.total_actual_savings a.total_actual_savings

abbrev pub more_savings : Decision → Decision → Bool
more_savings a b = ltb (savings b) (savings a)

abbrev pub is_executed : Decision → Bool
is_executed d = is_some d.actual_qty

abbrev pub is_verified : Decision → Bool
is_verified d = is_some d.actual_savings

abbrev pub rate : ℕ → ℕ → ℕ × ℕ
rate part whole = if nat_eq whole 0 then (0, 1) else (part, whole)

unfoldable pub figures :
    Floats → Amount → String → String → Month → Amount → List Decision → MonthlyReportData
unfolding filter sort_by take by_action annual_fee
figures F unit customer industry month loss decisions =
    let accepted = filter is_approved decisions in
    let executed = filter is_executed accepted in
    let checked = filter is_verified accepted in
    let actual = F.sum (map savings checked) in
    record {
      customer_id = customer;
      industry = industry;
      month = month;
      total_count = length decisions;
      approved_count = length accepted;
      executed_count = length executed;
      verified_count = length checked;
      approval_rate = rate (length accepted) (length decisions);
      total_savings_estimate = F.sum (map (λ d. d.savings_estimate) accepted);
      total_savings_executed_estimate = F.sum (map (λ d. d.savings_estimate) executed);
      total_savings_actual = actual;
      top_actions = take 5 (sort_by saves_more (map (tally F) (by_action [] accepted)));
      case_studies = take 3 (sort_by more_savings checked);
      annual_baseline_loss = loss;
      annual_subscription_fee = annual_fee unit loss;
      roi_multiple = (actual, annual_fee unit loss);
    }

-- `aggregate_monthly_report`
unfoldable pub aggregate_monthly_report :
    Floats → Amount → String → String → Month → Amount → List Decision → Result MonthlyReportData
unfolding figures
aggregate_monthly_report F unit customer industry month loss decisions =
    guard (is_month month) value_error >> ok (figures F unit customer industry month loss decisions)

-- what `run_monthly_reports` gives for a customer; no data means that the customer is skipped
pub record ReportRunResult : Type 0 where
  pub customer_id : String
  pub report_data : Option MonthlyReportData

abbrev pub report_of :
    Floats
    → Amount
    → (String → Result String)
    → String
    → Month
    → Amount
    → List Decision
    → Result ReportRunResult
report_of F unit industry_of customer month loss [] =
    ok (record { customer_id = customer; report_data = none })
report_of F unit industry_of customer month loss (d ∷ ds) = industry_of customer >>= λ industry.
    aggregate_monthly_report F unit customer industry month loss (d ∷ ds) >>= λ r.
    ok (record { customer_id = customer; report_data = some r })

-- the loop of `run_monthly_reports` over the baselines; `industry_of` is the customer's configuration
-- from the repository, and the first day's midnight is that of the customer's zone
unfoldable pub run_month :
    Floats
    → Amount
    → (String → Result String)
    → (String → Month → DateTime)
    → Lister
    → Month
    → List (String × Amount)
    → Result (List ReportRunResult)
unfolding load_decisions aggregate_monthly_report
run_month F unit industry_of midnight list_for_period month [] = ok []
run_month F unit industry_of midnight list_for_period month ((customer, loss) ∷ rest) =
    load_decisions (midnight customer) list_for_period customer month >>= λ decisions.
    report_of F unit industry_of customer month loss decisions >>= λ one.
    run_month F unit industry_of midnight list_for_period month rest >>= λ more. ok (one ∷ more)

-- `run_monthly_reports` in the month of today
unfoldable pub run_monthly_reports :
    Floats
    → Amount
    → (String → Result String)
    → (String → Month → DateTime)
    → Lister
    → Month
    → List (String × Amount)
    → Result (List ReportRunResult)
unfolding run_month previous_month
run_monthly_reports F unit industry_of midnight list_for_period today baselines =
    run_month F unit industry_of midnight list_for_period (previous_month today) baselines
