-- ===== src/Examples/Supplies.antt =====
-- The ERP client, the listings, the audit archive and the execution of a plan (src/repository/erp.py,
-- src/api/router.py, src/persistence).
use shelf_life_copilot.Prelude.{
  ℕ, suc, zero, String, ◌≡◌, ◌≢◌, refl, none, some, List, [], ◌∷◌, ok, utc, arith,
}
use shelf_life_copilot.Prelude.Table.{contains}
use shelf_life_copilot.Prelude.Slices.{slice}
use shelf_life_copilot.Models.Batch.{Batch}
use shelf_life_copilot.Repository.Erp.{
  ErpPage, Fetched, page, recoverable, Client, unfinished, fetch_with_retry, load_batches,
}
use shelf_life_copilot.Repository.Erp.Retries.{IsRetried, fetch_with_retry-IsRetried}
use shelf_life_copilot.Repository.Erp.Pages.{GivesOnly, load_batches-finished}
use shelf_life_copilot.Api.Paging.{follow, follow_all}
use shelf_life_copilot.Persistence.AuditStore.{
  SecurityAuditEvent, AuditEvents, validate_audit_query, list_for_period, period,
}
use shelf_life_copilot.Persistence.AuditStore.Listing.{IsListing, list_for_period-IsListing}
use shelf_life_copilot.Prelude.Sorting.{filter, sort_by, insert_by}
use shelf_life_copilot.Examples.Callbacks.{batch}

-- a client with one page, which fails once
abbrev answer : ℕ → Fetched Batch
answer zero = recoverable
answer (suc n) = page (record { items = batch ∷ []; next_cursor = none })

abbrev client : Client Batch
client n cursor = answer n

fetch_with_retry-IsRetried_example : IsRetried client none 2 0 0 (fetch_with_retry client 2 none 0)
fetch_with_retry-IsRetried_example = fetch_with_retry-IsRetried client none 2 0

-- a client that names one cursor for ever
abbrev cyclic : Client Batch
cyclic n cursor = page (record { items = []; next_cursor = some "p2" })

same_cursor : (c : String) → some "p2" ≡ some c → c ≡ "p2"
same_cursor c h = cc

cyclic-GivesOnly : GivesOnly ("p2" ∷ []) cyclic
unfolding contains
cyclic-GivesOnly n cursor p c h k = rw (same_cursor c (given p h k)) refl
  where
    given :
        (p : ErpPage Batch) → cyclic n cursor ≡ page p → p.next_cursor ≡ some c → some "p2" ≡ some c
    given p h k = cc

load_batches-finished_example : load_batches cyclic (λ b. ok b) 2 2 ≢ unfinished
load_batches-finished_example =
    load_batches-finished cyclic (λ b. ok b) 2 ("p2" ∷ []) cyclic-GivesOnly

abbrev items : List ℕ
items = 7 ∷ 8 ∷ 9 ∷ []

follow_all_example : follow 4 items 0 2 ≡ items
follow_all_example = follow_all items 2 (omega arith)

abbrev event : String → ℕ → SecurityAuditEvent
event id at = record {
  event_id = id;
  occurred_at = utc at;
  event_type = "access_denied";
  subject = "ann";
  reason = "role";
  path = "/api/scans";
  customer_id = some "c1";
  trace_id = none;
}

abbrev archive : AuditEvents
archive = event "e1" 10 ∷ event "e2" 20 ∷ event "e3" 30 ∷ []

list_for_period-IsListing_example :
    IsListing "c1" (utc 15) (utc 40) 1 0 archive (event "e3" 30 ∷ [])
unfolding list_for_period period filter sort_by insert_by validate_audit_query slice
list_for_period-IsListing_example =
    list_for_period-IsListing "c1" (utc 15) (utc 40) 1 0 archive refl
