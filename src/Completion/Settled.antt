-- ===== src/Completion/Settled.antt =====
-- What a first request of the completion endpoint leaves behind (src/api/router.py).
use Prim.Native.String as Text
use shelf_life_copilot.Prelude.{
  ℕ, String, ◌≡◌, refl, sym, ◌∙◌, false, some, Result, ok, err, ◌==◌, eq_iff, eq_refl, Bool-cases,
  inl, inr,
}
use text.Mathlib.TextLemmas.{cons-append, cons-ne-nil}
use shelf_life_copilot.Models.WorkOrder.{WorkOrder}
use shelf_life_copilot.Persistence.Approvals.{Tables}
use shelf_life_copilot.Persistence.IdempotencyStore as IdempotencyStore
use shelf_life_copilot.Persistence.IdempotencyStore.{Records}
use shelf_life_copilot.Persistence.IdempotencyStore.Phases.{
  Phase, phase, free, claimed, IsKeyed, phase-complete, phase-release, complete-answer,
}
use shelf_life_copilot.Persistence.IdempotencyStore.Phases as Phases
use shelf_life_copilot.Persistence.WorkOrderStore.{get}
use shelf_life_copilot.Security.{Principal, granted, require_customer}
use shelf_life_copilot.Webhook.Callback.Claimed.{claim_free, claimed_after}
use shelf_life_copilot.Completion.{
  WorkOrderCompletionRequest, Json, Database, Reply, answered, kind, key_of, completion, refusal,
  stored_answer, settle, complete_work_order,
}

-- What a reply stands for: the completed order with its tables, stored as the answer of the key; or
-- tables as they were, and a key that is free for another try.
abbrev pub IsSettled :
    Json → String → Result (WorkOrder × Tables) → Tables → Reply × Database → Type 0
IsSettled j key (ok (o, t')) t (reply, db) =
    (reply ≡ answered o)
    × (db.tables ≡ t')
    × (phase db.records key ≡ Phases.answered kind (some 200) (some (j.to_json o)))
IsSettled j key (err e) t (reply, db) =
    (reply ≡ refusal e) × (db.tables ≡ t) × (phase db.records key ≡ free)

stored-IsSettled :
    (j : Json) (key : String) (o : WorkOrder) (t' t : Tables) (x : Result (Unit {0}) × Records)
    → x.0 ≡ ok tt
    → phase x.1 key ≡ Phases.answered kind (some 200) (some (j.to_json o))
    → IsSettled j key (ok (o, t')) t (stored_answer o t' x)
stored-IsSettled j key o t' t (ok _, r) done h = (refl, refl, h)
stored-IsSettled j key o t' t (err e, r) done h = absurd (cc)

settle-IsSettled :
    (j : Json) (c : WorkOrderCompletionRequest) (t : Tables) (r : Records)
    (m : Result (WorkOrder × Tables))
    → IsKeyed r
    → phase r (key_of c) ≡ claimed kind
    → IsSettled j (key_of c) m t (settle j c (record { tables = t; records = r }) m)
settle-IsSettled j c t r (err e) k h =
    (refl, refl, phase-release (key_of c) (key_of c) r k ∙ rw (eq_refl (key_of c), h) refl)
settle-IsSettled j c t r (ok (o, t')) k h =
    stored-IsSettled j (key_of c) o t' t (IdempotencyStore.complete (key_of c) 200 (j.to_json o) r)
      (complete-answer (key_of c) 200 (j.to_json o) r k ∙ rw h refl)
      (phase-complete (key_of c) 200 (j.to_json o) (key_of c) r ∙ rw (eq_refl (key_of c), h) refl)

key_given : (c : WorkOrderCompletionRequest) → (key_of c == "") ≡ false
key_given c = elim (Bool-cases (key_of c == "")) [
  | inl e ↦ absurd (
      cons-ne-nil "w" (Text.◌++◌ "ork_order_completion:" c.idempotency_key) (
        sym (cons-append "w" "ork_order_completion:" c.idempotency_key)
        ∙ (eq_iff (key_of c) "").0 e))
  | inr e ↦ e
]

-- A request for an existing order of the caller's customer, with a key that is free, does exactly what
-- the store's completion with the request's receipt does. If that succeeds, the reply is the completed
-- order, and the key holds it with status 200 for replays; if it fails, the reply is 404 for a
-- KeyError, 409 for a ValueError and the exception itself otherwise, the tables are as before, and the
-- key is free again. The keys of the idempotency store are unique before.
pub complete_work_order-IsSettled :
    (j : Json) (p : Principal) (id : String) (c : WorkOrderCompletionRequest) (now : ℕ)
    (db : Database) {o : WorkOrder}
    → IsKeyed db.records
    → get id db.tables ≡ ok (some o)
    → require_customer p o.customer_id ≡ granted tt
    → phase db.records (key_of c) ≡ free
    → IsSettled j
        (key_of c)
        (completion id c now db.tables)
        db.tables
        (complete_work_order j p id c now db)
unfolding complete_work_order
complete_work_order-IsSettled j p id c now db k found allowed h =
    let (r, won) = claim_free (key_of c) kind db.records (key_given c) refl h in
    let (keyed, after) = claimed_after (key_of c) kind db.records (key_given c) refl k h won in
    rw (found, allowed, won)
      (settle-IsSettled j c db.tables r (completion id c now db.tables) keyed after)
