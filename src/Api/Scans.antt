-- ===== src/Api/Scans.antt =====
-- The endpoint that scans on demand (`run_manual_scan` and `_claim_or_replay` of src/api/router.py), for
-- a caller whose role was accepted. The messages of failed suggestions are left out.
pub mod Settled
pub mod Again
use Prim.Native.String.{◌++◌}
use shelf_life_copilot.Prelude.{
  ℕ, String, Bool, true, false, not, ◌&&◌, Option, none, some, is_none, List, [], ◌∷◌, Result, ok,
  err, Error, value_error, key_error, file_not_found, is_value_error, length, ◌==◌, if◌then◌else◌,
}
use shelf_life_copilot.Prelude.Table.{contains}
use shelf_life_copilot.Models.Batch.{Alert}
use shelf_life_copilot.Persistence.SuggestionStore.{Suggestions}
use shelf_life_copilot.Persistence.IdempotencyStore as IdempotencyStore
use shelf_life_copilot.Persistence.IdempotencyStore.{Records, IdempotencyRecord, Status}
use shelf_life_copilot.Scan.{Repository, Provider, ScanResult, run_for_customer}
use shelf_life_copilot.Security.{Principal, Access, granted, denied, require_customer}

-- the body of the request, whose day is today's if it names none, and its header
pub record ManualScanRequest : Type 0 where
  pub customer_id : String
  pub today : ℕ
  pub skip_llm : Bool
  pub idempotency_key : String

pub record BatchScanStatus : Type 0 where
  pub batch_id : String
  pub status : String

pub record ManualScanResponse : Type 0 where
  pub customer_id : String
  pub total_batches : ℕ
  pub alert_count : ℕ
  pub suggestion_count : ℕ
  pub card_count : ℕ
  pub batch_results : List BatchScanStatus

-- the JSON form of a response
pub record Json : Type 0 where
  pub to_json : ManualScanResponse → String
  pub from_json : String → Result ManualScanResponse

pub record Database : Type 0 where
  pub suggestions : Option Suggestions
  pub records : Records

pub data Reply : Type 0 where
  answered : ManualScanResponse → Reply
  refused : ℕ → Reply
  raised : Error → Reply

abbrev pub kind : String
kind = "manual_scan"

abbrev pub key_of : ManualScanRequest → String
key_of c = "manual_scan:" ++ c.idempotency_key

abbrev pub alerted : List Alert → List String
alerted [] = []
alerted (a ∷ rest) = a.batch_id ∷ alerted rest

-- `result.batch_ids or [...]`
abbrev pub scanned : List Alert → List String → List String
scanned alerts [] = alerted alerts
scanned alerts (id ∷ ids) = id ∷ ids

unfoldable pub batch_results : List String → List String → List BatchScanStatus
batch_results errors [] = []
batch_results errors (id ∷ ids) =
    record {
      batch_id = id;
      status = if contains (λ e. e == id) errors then "failed" else "succeeded";
    }
    ∷ batch_results errors ids

-- the response; a scan renders one card for each suggestion
unfoldable pub response_of : String → ScanResult → ManualScanResponse
unfolding batch_results
response_of customer r = record {
  customer_id = customer;
  total_batches = r.total_batches;
  alert_count = length r.alerts;
  suggestion_count = length r.suggestions;
  card_count = length r.suggestions;
  batch_results = batch_results r.errors (scanned r.alerts r.batch_ids);
}

-- whether the scan raises the ValueError that says that an engine is required
abbrev pub engine_required : Option Provider → ManualScanRequest → Bool
engine_required engine c = not c.skip_llm && is_none engine

-- the `except` clauses
unfoldable pub refusal : Bool → Error → Reply
refusal required key_error = refused 404
refusal required file_not_found = refused 404
refusal required e = if is_value_error e && required then refused 503 else raised e

abbrev pub stored_answer :
    ManualScanResponse → Option Suggestions → Result (Unit {0}) × Records → Reply × Database
stored_answer a s (ok _, r) = (answered a, record { suggestions = s; records = r })
stored_answer a s (err e, r) = (raised e, record { suggestions = s; records = r })

abbrev pub settle :
    Json
    → Option Provider
    → ManualScanRequest
    → Database
    → Result (ScanResult × Option Suggestions)
    → Reply × Database
settle j engine c db (err e) = (
  refusal (engine_required engine c) e,
  record db { records = IdempotencyStore.release (key_of c) db.records },
)
settle j engine c db (ok (r, s)) =
    let a = response_of c.customer_id r in
    stored_answer a s (IdempotencyStore.complete (key_of c) 200 (j.to_json a) db.records)

abbrev pub parsed : Result ManualScanResponse → Reply
parsed (ok a) = answered a
parsed (err e) = raised e

-- `_claim_or_replay` after a claim that found a row
abbrev pub previous : Json → Status → Option String → Reply
previous j IdempotencyStore.completed (some json) = parsed (j.from_json json)
previous j _ _ = refused 409

abbrev pub after_claim :
    Json
    → Repository
    → Option Provider
    → ManualScanRequest
    → Option Suggestions
    → Result (Option IdempotencyRecord) × Records
    → Reply × Database
after_claim j repo engine c s (err e, r) = (raised e, record { suggestions = s; records = r })
after_claim j repo engine c s (ok (some row), r) =
    (previous j row.status row.response_json, record { suggestions = s; records = r })
after_claim j repo engine c s (ok none, r) =
    settle j engine c (record { suggestions = s; records = r })
      (run_for_customer repo engine c.customer_id c.today c.skip_llm s)

abbrev pub authorized :
    Json
    → Repository
    → Option Provider
    → ManualScanRequest
    → Database
    → Access (Unit {0})
    → Reply × Database
authorized j repo engine c db (denied n) = (refused n, db)
authorized j repo engine c db (granted _) =
    after_claim j repo engine c db.suggestions (IdempotencyStore.claim (key_of c) kind db.records)

-- `run_manual_scan`
unfoldable pub run_manual_scan :
    Json
    → Repository
    → Option Provider
    → Principal
    → ManualScanRequest
    → Database
    → Reply × Database
unfolding run_for_customer response_of
run_manual_scan j repo engine p c db =
    authorized j repo engine c db (require_customer p c.customer_id)
