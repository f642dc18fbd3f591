-- ===== src/Api/Scans/Settled.antt =====
-- What a scan on demand leaves behind (src/api/router.py).
use Prim.Native.String as Text
use shelf_life_copilot.Prelude.{
  ◌≡◌, refl, sym, ◌∙◌, false, Option, some, Result, ok, err, ◌==◌, eq_iff, eq_refl, Bool-cases, inl,
  inr,
}
use text.Mathlib.TextLemmas.{cons-append, cons-ne-nil}
use shelf_life_copilot.Persistence.SuggestionStore.{Suggestions}
use shelf_life_copilot.Persistence.IdempotencyStore as IdempotencyStore
use shelf_life_copilot.Persistence.IdempotencyStore.{Records, IdempotencyRecord}
use shelf_life_copilot.Persistence.IdempotencyStore.Phases.{
  Phase, phase, free, claimed, IsKeyed, phase-complete, phase-release, complete-answer,
  claim-IsKeyed, complete-IsKeyed, release-IsKeyed,
}
use shelf_life_copilot.Persistence.IdempotencyStore.Phases as Phases
use shelf_life_copilot.Scan.{Repository, Provider, ScanResult, run_for_customer}
use shelf_life_copilot.Security.{Principal, granted, require_customer}
use shelf_life_copilot.Webhook.Callback.Claimed.{claim_free, claimed_after}
use shelf_life_copilot.Api.Scans.{
  ManualScanRequest, Json, Database, Reply, answered, kind, key_of, response_of, refusal,
  engine_required, stored_answer, settle, run_manual_scan,
}

-- What a reply stands for: the figures of the scan with its suggestions, stored as the answer of the
-- key; or suggestions as they were, and a key that is free for another try.
abbrev pub IsSettled :
    Json
    → Option Provider
    → ManualScanRequest
    → Result (ScanResult × Option Suggestions)
    → Option Suggestions
    → Reply × Database
    → Type 0
IsSettled j engine c (ok (r, s')) s (reply, db) =
    (reply ≡ answered (response_of c.customer_id r))
    × (db.suggestions ≡ s')
    × (phase db.records (key_of c)
        ≡ Phases.answered kind (some 200) (some (j.to_json (response_of c.customer_id r))))
IsSettled j engine c (err e) s (reply, db) =
    (reply ≡ refusal (engine_required engine c) e)
    × (db.suggestions ≡ s)
    × (phase db.records (key_of c) ≡ free)

stored-IsSettled :
    (j : Json) (engine : Option Provider) (c : ManualScanRequest) (r : ScanResult)
    (s' s : Option Suggestions) (x : Result (Unit {0}) × Records)
    → x.0 ≡ ok tt
    → phase x.1 (key_of c)
      ≡ Phases.answered kind (some 200) (some (j.to_json (response_of c.customer_id r)))
    → IsSettled j engine c (ok (r, s')) s (stored_answer (response_of c.customer_id r) s' x)
stored-IsSettled j engine c r s' s (ok _, t) done h = (refl, refl, h)
stored-IsSettled j engine c r s' s (err e, t) done h = absurd (cc)

settle-IsSettled :
    (j : Json) (engine : Option Provider) (c : ManualScanRequest) (s : Option Suggestions)
    (t : Records) (m : Result (ScanResult × Option Suggestions))
    → IsKeyed t
    → phase t (key_of c) ≡ claimed kind
    → IsSettled j engine c m s (settle j engine c (record { suggestions = s; records = t }) m)
settle-IsSettled j engine c s t (err e) k h =
    (refl, refl, phase-release (key_of c) (key_of c) t k ∙ rw (eq_refl (key_of c), h) refl)
settle-IsSettled j engine c s t (ok (r, s')) k h =
    let json = j.to_json (response_of c.customer_id r) in
    stored-IsSettled j engine c r s' s (IdempotencyStore.complete (key_of c) 200 json t)
      (complete-answer (key_of c) 200 json t k ∙ rw h refl)
      (phase-complete (key_of c) 200 json (key_of c) t ∙ rw (eq_refl (key_of c), h) refl)

pub key_given : (c : ManualScanRequest) → (key_of c == "") ≡ false
key_given c = elim (Bool-cases (key_of c == "")) [
  | inl e ↦ absurd (
      cons-ne-nil "m" (Text.◌++◌ "anual_scan:" c.idempotency_key)
        (sym (cons-append "m" "anual_scan:" c.idempotency_key) ∙ (eq_iff (key_of c) "").0 e))
  | inr e ↦ e
]

-- A request for the caller's customer, with a key that is free, does exactly what the scan does. If the
-- scan succeeds, the reply gives its figures, and the key holds them with status 200 for replays; if it
-- fails, the reply is 404 for a KeyError or a missing file, 503 for a missing engine and the exception
-- itself otherwise, the suggestions are as before, and the key is free again. The keys of the
-- idempotency store are unique before.
pub run_manual_scan-IsSettled :
    (j : Json) (repo : Repository) (engine : Option Provider) (p : Principal)
    (c : ManualScanRequest) (db : Database)
    → IsKeyed db.records
    → require_customer p c.customer_id ≡ granted tt
    → phase db.records (key_of c) ≡ free
    → IsSettled j engine c
        (run_for_customer repo engine c.customer_id c.today c.skip_llm db.suggestions)
        db.suggestions
        (run_manual_scan j repo engine p c db)
unfolding run_manual_scan
run_manual_scan-IsSettled j repo engine p c db k allowed h =
    let (t, won) = claim_free (key_of c) kind db.records (key_given c) refl h in
    let (keyed, after) = claimed_after (key_of c) kind db.records (key_given c) refl k h won in
    rw (allowed, won)
      (settle-IsSettled j engine c db.suggestions t
        (run_for_customer repo engine c.customer_id c.today c.skip_llm db.suggestions) keyed after)
