-- ===== src/Completion.antt =====
-- The endpoint that completes a work order (`complete_work_order` and `_claim_or_replay` of
-- src/api/router.py), for a caller whose role was accepted.
pub mod Settled
use Prim.Native.String.{◌++◌}
use shelf_life_copilot.Prelude.{
  ℕ, String, Bool, true, false, Option, none, some, utc, Result, ok, err, Error, key_error,
  is_value_error, ◌>>=◌, if◌then◌else◌,
}
use shelf_life_copilot.Models.Action.{Amount}
use shelf_life_copilot.Models.WorkOrder.{WorkOrder, WorkOrderReceipt, validate_receipt}
use shelf_life_copilot.Persistence.Approvals.{Tables}
use shelf_life_copilot.Persistence.IdempotencyStore as IdempotencyStore
use shelf_life_copilot.Persistence.IdempotencyStore.{Records, IdempotencyRecord, Status}
use shelf_life_copilot.Persistence.WorkOrderStore.{get, complete_order}
use shelf_life_copilot.Security.{Principal, Access, granted, denied, require_customer}

-- the body of the request and its headers, which the schema has accepted
pub record WorkOrderCompletionRequest : Type 0 where
  pub actual_qty : Amount
  pub actual_savings : Amount
  pub source : String
  pub operator_id : String
  pub idempotency_key : String

-- the JSON form of a response
pub record Json : Type 0 where
  pub to_json : WorkOrder → String
  pub from_json : String → Result WorkOrder

pub record Database : Type 0 where
  pub tables : Tables
  pub records : Records

pub data Reply : Type 0 where
  answered : WorkOrder → Reply
  refused : ℕ → Reply
  raised : Error → Reply

abbrev pub kind : String
kind = "work_order_completion"

abbrev pub key_of : WorkOrderCompletionRequest → String
key_of c = "work_order_completion:" ++ c.idempotency_key

abbrev pub receipt_of : WorkOrderCompletionRequest → ℕ → WorkOrderReceipt
receipt_of c now = record {
  actual_qty = c.actual_qty;
  actual_savings = c.actual_savings;
  completed_by = c.operator_id;
  completed_at = utc now;
  source = c.source;
}

-- the body of the `try`
unfoldable pub completion :
    String → WorkOrderCompletionRequest → ℕ → Tables → Result (WorkOrder × Tables)
completion id c now t = validate_receipt (receipt_of c now) >>= λ r. complete_order id r t

-- the `except` clauses
unfoldable pub refusal : Error → Reply
refusal key_error = refused 404
refusal e = if is_value_error e then refused 409 else raised e

abbrev pub stored_answer : WorkOrder → Tables → Result (Unit {0}) × Records → Reply × Database
stored_answer o t (ok _, r) = (answered o, record { tables = t; records = r })
stored_answer o t (err e, r) = (raised e, record { tables = t; records = r })

abbrev pub settle :
    Json → WorkOrderCompletionRequest → Database → Result (WorkOrder × Tables) → Reply × Database
settle j c db (err e) =
    (refusal e, record db { records = IdempotencyStore.release (key_of c) db.records })
settle j c db (ok (o, t)) =
    stored_answer o t (IdempotencyStore.complete (key_of c) 200 (j.to_json o) db.records)

abbrev pub parsed : Result WorkOrder → Reply
parsed (ok o) = answered o
parsed (err e) = raised e

abbrev pub previous : Json → Status → Option String → Reply
previous j IdempotencyStore.completed (some json) = parsed (j.from_json json)
previous j _ _ = refused 409

-- the rest of the endpoint after the claim, with `_claim_or_replay`
abbrev pub after_claim :
    Json
    → String
    → WorkOrderCompletionRequest
    → ℕ
    → Tables
    → Result (Option IdempotencyRecord) × Records
    → Reply × Database
after_claim j id c now t (err e, r) = (raised e, record { tables = t; records = r })
after_claim j id c now t (ok (some row), r) =
    (previous j row.status row.response_json, record { tables = t; records = r })
after_claim j id c now t (ok none, r) =
    settle j c (record { tables = t; records = r }) (completion id c now t)

abbrev pub authorized :
    Json → String → WorkOrderCompletionRequest → ℕ → Database → Access (Unit {0}) → Reply × Database
authorized j id c now db (denied n) = (refused n, db)
authorized j id c now db (granted _) =
    after_claim j id c now db.tables (IdempotencyStore.claim (key_of c) kind db.records)

abbrev pub for_existing :
    Json
    → Principal
    → String
    → WorkOrderCompletionRequest
    → ℕ
    → Database
    → Result (Option WorkOrder)
    → Reply × Database
for_existing j p id c now db (err e) = (raised e, db)
for_existing j p id c now db (ok none) = (refused 404, db)
for_existing j p id c now db (ok (some o)) =
    authorized j id c now db (require_customer p o.customer_id)

-- `complete_work_order` at the time `now`
unfoldable pub complete_work_order :
    Json → Principal → String → WorkOrderCompletionRequest → ℕ → Database → Reply × Database
complete_work_order j p id c now db = for_existing j p id c now db (get id db.tables)
