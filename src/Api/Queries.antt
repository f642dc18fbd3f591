-- ===== src/Api/Queries.antt =====
-- The endpoints that only read (`list_customers`, `list_batches`, `list_work_orders`,
-- `list_security_audit_events` and `outcome_quality` of src/api/router.py), for a caller whose role was
-- accepted and a query that the schema has accepted.
pub mod Tenants
use Prim.Native.String
use text.Mathlib.Text.{is_lt}
use shelf_life_copilot.Prelude.{
  ℕ, String, Bool, true, false, not, ◌&&◌, Option, none, some, List, [], ◌∷◌, DateTime, Result, ok,
  err, Error, key_error, file_not_found, ◌>>=◌, ltb, if◌then◌else◌,
}
use shelf_life_copilot.Prelude.Int.{ℤ}
use shelf_life_copilot.Prelude.Sorting.{sort_by}
use shelf_life_copilot.Models.Floats.{Floats}
use shelf_life_copilot.Models.Action.{Amount}
use shelf_life_copilot.Models.Batch.{Batch}
use shelf_life_copilot.Models.Decision.{Decision}
use shelf_life_copilot.Models.Suggestion.{Suggestion}
use shelf_life_copilot.Models.WorkOrder.{WorkOrder}
use shelf_life_copilot.Persistence.Approvals.{Tables}
use shelf_life_copilot.Persistence.AuditStore.{SecurityAuditEvent, AuditEvents, list_for_period}
use shelf_life_copilot.Persistence.Listings.{list_for_customer, list_decisions}
use shelf_life_copilot.Quality.{OutcomeQualityReport, build_outcome_quality_report}
use shelf_life_copilot.Security.{Principal, Access, granted, denied, require_customer}
use shelf_life_copilot.Api.Paging.{page, listing}

pub data Reply {ℓ} (A : Type ℓ) : Type ℓ where
  answered : A → Reply A
  refused : ℕ → Reply A
  raised : Error → Reply A

pub record CustomerSummary : Type 0 where
  pub customer_id : String
  pub industry : String

abbrev pub result {ℓ} : {A : Type ℓ} → Result A → Reply A
result (ok a) = answered a
result (err e) = raised e

-- what an endpoint replies to a caller who may see the customer
abbrev pub authorized {ℓ} : {A : Type ℓ} → Access (Unit {0}) → Reply A → Reply A
authorized (denied n) r = refused n
authorized (granted _) r = r

abbrev pub comes_before : String → String → Bool
comes_before a b = is_lt (String.compare a b)

abbrev pub with_customer :
    String → Result String → Result (List CustomerSummary) → Result (List CustomerSummary)
with_customer customer (ok industry) (ok rest) =
    ok (record { customer_id = customer; industry = industry } ∷ rest)
with_customer customer (ok industry) (err e) = err e
with_customer customer (err key_error) rest = rest
with_customer customer (err file_not_found) rest = rest
with_customer customer (err e) rest = err e

-- the loop; `industry_of` is the industry of the configuration that the repository loads
unfoldable pub summaries : (String → Result String) → List String → Result (List CustomerSummary)
summaries industry_of [] = ok []
summaries industry_of (customer ∷ rest) =
    with_customer customer (industry_of customer) (summaries industry_of rest)

-- `list_customers`
unfoldable pub list_customers : (String → Result String) → Principal → Reply (List CustomerSummary)
unfolding summaries sort_by
list_customers industry_of p = result (summaries industry_of (sort_by comes_before p.customer_ids))

abbrev pub batches : ℕ → ℕ → Result (List Batch) → Reply (List Batch × Option ℕ)
batches cursor limit (ok all_items) = answered (listing all_items cursor limit)
batches cursor limit (err key_error) = refused 404
batches cursor limit (err file_not_found) = refused 404
batches cursor limit (err e) = raised e

-- `list_batches`
unfoldable pub list_batches :
    (String → Result (List Batch)) → Principal → String → ℕ → ℕ → Reply (List Batch × Option ℕ)
unfolding listing
list_batches load_batches p customer cursor limit =
    authorized (require_customer p customer) (batches cursor limit (load_batches customer))

-- the items of a store with the cursor of the next page
abbrev pub paged {ℓ} : {A : Type ℓ} → ℕ → ℕ → Result (List A) → Reply (List A × Option ℕ)
paged cursor limit (ok items) = answered (items, page items cursor limit)
paged cursor limit (err e) = raised e

-- `list_work_orders`
unfoldable pub list_work_orders :
    Tables → Principal → String → ℕ → ℕ → Reply (List WorkOrder × Option ℕ)
unfolding list_for_customer page
list_work_orders t p customer cursor limit =
    authorized (require_customer p customer)
      (paged cursor limit (list_for_customer customer limit cursor t))

abbrev pub is_ordered_range : DateTime → DateTime → Bool
is_ordered_range start end = (start.tz && end.tz) && ltb start.instant end.instant

-- `list_security_audit_events`
unfoldable pub list_security_audit_events :
    AuditEvents
    → Principal
    → String
    → DateTime
    → DateTime
    → ℕ
    → ℕ
    → Reply (List SecurityAuditEvent × Option ℕ)
unfolding list_for_period page
list_security_audit_events t p customer start end cursor limit =
    authorized (require_customer p customer) (
      if is_ordered_range start end
      then paged cursor limit (list_for_period customer start end limit cursor t)
      else refused 422)

-- `outcome_quality`; the amount that stands for 1.0, the defaults of the gate and the lookup of
-- suggestions are arguments
unfoldable pub outcome_quality :
    Floats
    → Amount
    → (String → String → DateTime → Result (Option Suggestion))
    → ℕ
    → ℤ
    → Tables
    → Principal
    → String
    → DateTime
    → DateTime
    → Reply OutcomeQualityReport
unfolding list_decisions build_outcome_quality_report
outcome_quality F unit suggestion_for_batch minimum limit t p customer start end =
    authorized (require_customer p customer) (
      if is_ordered_range start end
      then result (
          list_decisions customer start end t >>= λ decisions.
          build_outcome_quality_report F unit suggestion_for_batch minimum limit customer decisions)
      else refused 422)
