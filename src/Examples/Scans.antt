-- ===== src/Examples/Scans.antt =====
-- A scan on demand without the language model, sent twice (src/api/router.py).
use shelf_life_copilot.Prelude.{◌≡◌, refl, true, none, [], ◌∷◌, ok}
use shelf_life_copilot.Prelude.Table.{contains, find, count_where}
use shelf_life_copilot.Persistence.IdempotencyStore.{claim, complete}
use shelf_life_copilot.Persistence.IdempotencyStore.Claims.{run, releasing}
use shelf_life_copilot.Scan.{Repository, run_for_customer}
use shelf_life_copilot.Security.{Principal, operator, require_customer}
use shelf_life_copilot.Api.Scans.{
  ManualScanRequest, ManualScanResponse, Json, Database, answered, run_manual_scan, response_of,
  batch_results,
}
use shelf_life_copilot.Examples.Plans.{config}

abbrev response : ManualScanResponse
response = record {
  customer_id = "c1";
  total_batches = 0;
  alert_count = 0;
  suggestion_count = 0;
  card_count = 0;
  batch_results = [];
}

abbrev json : Json
json = record { to_json = λ a. "{}"; from_json = λ s. ok response }

abbrev repository : Repository
repository = record { load_customer_config = λ c. ok config; load_batches = λ c. ok [] }

abbrev command : ManualScanRequest
command = record { customer_id = "c1"; today = 10; skip_llm = true; idempotency_key = "k" }

abbrev ann : Principal
ann = record { subject = "ann"; customer_ids = "c1" ∷ []; roles = operator ∷ [] }

abbrev database : Database
database = record { suggestions = none; records = [] }

answers : (run_manual_scan json repository none ann command database).0 ≡ answered response
unfolding run_manual_scan run_for_customer response_of batch_results require_customer claim complete
    contains find count_where
answers = refl

abbrev later : Database
later = record {
  suggestions = none;
  records =
      run (releasing "manual_scan:k" ∷ [])
        (run_manual_scan json repository none ann command database).1.records;
}
