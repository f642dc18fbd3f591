-- ===== src/Api/Scans/Again.antt =====
-- What a repeated scan on demand gets (src/api/router.py).
use shelf_life_copilot.Prelude.{Option, none, some, Result, ok, err}
use shelf_life_copilot.Persistence.SuggestionStore.{Suggestions}
use shelf_life_copilot.Persistence.IdempotencyStore as IdempotencyStore
use shelf_life_copilot.Persistence.IdempotencyStore.{Records, IdempotencyRecord}
use shelf_life_copilot.Persistence.IdempotencyStore.Phases.{
  Phase, claimed, IsKeyed, phase-complete, phase-release, complete-answer, claim-IsKeyed,
  complete-IsKeyed, release-IsKeyed,
}
use shelf_life_copilot.Persistence.IdempotencyStore.Phases as Phases
use shelf_life_copilot.Scan.{Repository, Provider, ScanResult, run_for_customer}
use shelf_life_copilot.Security.{Principal, Access, granted, denied, require_customer}
use shelf_life_copilot.Api.Scans.{
  ManualScanRequest, ManualScanResponse, Json, Database, kind, key_of, response_of, stored_answer,
  settle, after_claim, authorized, run_manual_scan,
}

stored-IsKeyed :
    (a : ManualScanResponse) (s : Option Suggestions) (x : Result (Unit {0}) × Records)
    → IsKeyed x.1
    → IsKeyed (stored_answer a s x).1.records
stored-IsKeyed a s (ok _, t) k = k
stored-IsKeyed a s (err e, t) k = k

settle-IsKeyed :
    (j : Json) (engine : Option Provider) (c : ManualScanRequest) (s : Option Suggestions)
    (t : Records) (m : Result (ScanResult × Option Suggestions))
    → IsKeyed t
    → IsKeyed (settle j engine c (record { suggestions = s; records = t }) m).1.records
settle-IsKeyed j engine c s t (err e) k = release-IsKeyed (key_of c) t k
settle-IsKeyed j engine c s t (ok (r, s')) k =
    let json = j.to_json (response_of c.customer_id r) in
    stored-IsKeyed (response_of c.customer_id r) s'
      (IdempotencyStore.complete (key_of c) 200 json t) (complete-IsKeyed (key_of c) 200 json t k)

after_claim-IsKeyed :
    (j : Json) (repo : Repository) (engine : Option Provider) (c : ManualScanRequest)
    (s : Option Suggestions) (x : Result (Option IdempotencyRecord) × Records)
    → IsKeyed x.1
    → IsKeyed (after_claim j repo engine c s x).1.records
after_claim-IsKeyed j repo engine c s (err e, t) k = k
after_claim-IsKeyed j repo engine c s (ok (some row), t) k = k
after_claim-IsKeyed j repo engine c s (ok none, t) k =
    settle-IsKeyed j engine c s t (run_for_customer repo engine c.customer_id c.today c.skip_llm s)
      k

-- The endpoint keeps the primary key of `idempotency_records`.
pub run_manual_scan-IsKeyed :
    (j : Json) (repo : Repository) (engine : Option Provider) (p : Principal)
    (c : ManualScanRequest) (db : Database)
    → IsKeyed db.records
    → IsKeyed (run_manual_scan j repo engine p c db).1.records
unfolding run_manual_scan
run_manual_scan-IsKeyed j repo engine p c db k = by_access (require_customer p c.customer_id)
  where
    by_access : (a : Access (Unit {0})) → IsKeyed (authorized j repo engine c db a).1.records
    by_access (denied n) = k
    by_access (granted _) =
        after_claim-IsKeyed j repo engine c db.suggestions
          (IdempotencyStore.claim (key_of c) kind db.records)
          (claim-IsKeyed (key_of c) kind db.records k)
