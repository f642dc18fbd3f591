-- ===== src/Webhook/Callback/Claimed.antt =====
-- The phases of an event's id while its callback runs (src/webhook/router.py).
use Prim.Native.String as Text
use mathlib.Core.List.{◌++◌}
use shelf_life_copilot.Prelude.{
  ℕ, String, ◌≡◌, refl, sym, ◌∙◌, ap, Bool, true, false, Option, none, some, Result, ok, err, [],
  ◌∷◌, Error, value_error, unknown_action, unknown_batch, file_not_found, integrity_error,
  assertion_error, type_error, failure, arith, ◌==◌, eq_iff, eq_refl, Bool-cases, Option-cases, inl,
  inr, key_error,
}
use text.Mathlib.TextLemmas.{cons-append, cons-ne-nil}
use shelf_life_copilot.Prelude.Table.{find}
use shelf_life_copilot.Persistence.IdempotencyStore.{
  Records, claim, new_claim, complete, IdempotencyRecord, has_key,
}
use shelf_life_copilot.Persistence.IdempotencyStore.Phases.{
  Phase, phase, phase_of, free, claimed, answered, IsKeyed, phase-claim, phase-complete,
  phase-release, complete-answer, claim-IsKeyed, complete-IsKeyed, release-IsKeyed,
}
use shelf_life_copilot.Webhook.Event.{WecomEvent, stable_event_id, or_empty}
use shelf_life_copilot.Webhook.Click.{Detail, Stores}
use shelf_life_copilot.Webhook.Callback.{
  Endpoint, World, Reply, event_id, settle, finish, body, after_claim, receive_event, in_window,
  stored_answer, failed_inside, in_body, recovered, except,
}
use shelf_life_copilot.Webhook.Callback as Callback

abbrev pub kind : String
kind = "wecom_callback"

-- every id starts with `wecom:`
prefixed : (s : String) → ((Text.◌++◌ "wecom:" s) == "") ≡ false
prefixed s = elim (Bool-cases ((Text.◌++◌ "wecom:" s) == "")) [
  | inl e ↦ absurd (
      cons-ne-nil "w" (Text.◌++◌ "ecom:" s)
        (sym (cons-append "w" "ecom:" s) ∙ (eq_iff (Text.◌++◌ "wecom:" s) "").0 e))
  | inr e ↦ e
]

pub event_id-given : (c : Endpoint) (e : WecomEvent) → (event_id c e == "") ≡ false
unfolding event_id stable_event_id
event_id-given c e = elim (Bool-cases (or_empty e.msg_id == "")) [
  | inl h ↦ rw h (prefixed _)
  | inr h ↦ rw h (prefixed _)
]

-- The phase that a reply leaves the event's id in.
abbrev pub left_by : Endpoint → Reply → Phase
left_by c (Callback.answered d) = answered kind (some 200) (some (c.to_json d))
left_by c _ = free

except-left : (c : Endpoint) (x : Error) → left_by c (except x) ≡ free
unfolding except
except-left c value_error = refl
except-left c unknown_action = refl
except-left c unknown_batch = refl
except-left c key_error = refl
except-left c file_not_found = refl
except-left c integrity_error = refl
except-left c assertion_error = refl
except-left c type_error = refl
except-left c failure = refl

answer-left :
    (c : Endpoint) (d : Detail) (key : String) (inside : Bool) (x : Result (Unit {0}) × Records)
    → x.0 ≡ ok tt
    → phase x.1 key ≡ left_by c (Callback.answered d)
    → ((failed_inside key inside (stored_answer d x)).0 ≡ Callback.answered d)
      × (phase (failed_inside key inside (stored_answer d x)).1 key
          ≡ left_by c (Callback.answered d))
answer-left c d key true (ok _, t) o h = (refl, h)
answer-left c d key false (ok _, t) o h = (refl, h)
answer-left c d key inside (err e, t) o h = absurd (cc)

settle-phase :
    (c : Endpoint) (e : WecomEvent) (t : Records) (r : Reply)
    → IsKeyed t
    → phase t (event_id c e) ≡ claimed kind
    → phase (settle c e t r).1 (event_id c e) ≡ left_by c (settle c e t r).0
settle-phase c e t (Callback.answered d) k h =
    let key = event_id c e in
    let done : (complete key 200 (c.to_json d) t).0 ≡ ok tt =
      complete-answer key 200 (c.to_json d) t k ∙ rw h refl in
    let after : phase (complete key 200 (c.to_json d) t).1 key
        ≡ answered kind (some 200) (some (c.to_json d)) =
      phase-complete key 200 (c.to_json d) key t ∙ rw (eq_refl key, h) refl in
    let (same, left) =
      answer-left c d key (in_body e) (complete key 200 (c.to_json d) t) done after in
    left ∙ sym (ap (left_by c) same)
settle-phase c e t (Callback.refused n) k h =
    phase-release (event_id c e) (event_id c e) t k ∙ rw (eq_refl (event_id c e), h) refl
settle-phase c e t (Callback.raised x) k h =
    phase-release (event_id c e) (event_id c e) t k
    ∙ rw (eq_refl (event_id c e), h) (sym (except-left c x))

finish-phase :
    (c : Endpoint) (e : WecomEvent) (t : Records) (r : Reply × Stores)
    → IsKeyed t
    → phase t (event_id c e) ≡ claimed kind
    → phase (finish c e t r).1.records (event_id c e) ≡ left_by c (finish c e t r).0
finish-phase c e t (r, st) k h = settle-phase c e t r k h

pub claim_free :
    (key kind : String) (t : Records)
    → (key == "") ≡ false
    → (kind == "") ≡ false
    → phase t key ≡ free
    → (t' : Records) × (claim key kind t ≡ (ok none, t'))
unfolding claim phase
claim_free key k t n m h = elim (Option-cases (find (has_key key) t)) [
  | inl e ↦ (t ++ new_claim key k ∷ [], rw (n, m, e) refl)
  | inr (r, e) ↦ absurd (row_not_free r (rw e at h))
]
  where
    row_not_free : (r : IdempotencyRecord) → phase_of (some r) ≡ free → ⊥
    row_not_free r h = ground arith

pub claimed_after :
    (key kind : String) (t : Records) {t' : Records}
    → (key == "") ≡ false
    → (kind == "") ≡ false
    → IsKeyed t
    → phase t key ≡ free
    → claim key kind t ≡ (ok none, t')
    → IsKeyed t' × (phase t' key ≡ claimed kind)
claimed_after key kind t {t'} n m k h won = (
  rw (ap (λ (x : Result (Option IdempotencyRecord) × Records). x.1) won) at
      (claim-IsKeyed key kind t k),
  ap (λ (x : Result (Option IdempotencyRecord) × Records). phase x.1 key) (sym won)
      ∙ phase-claim key kind key t n m
      ∙ rw (eq_refl key, h) refl,
)

-- A first delivery inside the replay window runs the handler and then leaves the event's id
-- answered, with status 200 and the JSON of the reply, if the endpoint answers, and free again, for
-- the delivery to be retried, if it replies with any HTTP error or exception.
-- The keys of the idempotency store are unique before.
pub receive_event-settles :
    (c : Endpoint) (now : ℕ) (e : WecomEvent) (w : World)
    → IsKeyed w.records
    → in_window c now e ≡ true
    → phase w.records (event_id c e) ≡ free
    → phase (receive_event c now e w).1.records (event_id c e)
      ≡ left_by c (receive_event c now e w).0
unfolding receive_event
receive_event-settles c now e w k inside h =
    let named = event_id-given c e in
    let (t, won) = claim_free (event_id c e) kind w.records named (ground arith) h in
    let (keyed, after) = claimed_after (event_id c e) kind w.records named (ground arith) k h won in
    rw (inside, won) (finish-phase c e t (body c now e w.stores) keyed after)

settled-IsKeyed :
    (key : String) (inside : Bool) (d : Detail) (x : Result (Unit {0}) × Records)
    → IsKeyed x.1
    → IsKeyed (failed_inside key inside (stored_answer d x)).1
settled-IsKeyed key true d (ok _, t) k = k
settled-IsKeyed key false d (ok _, t) k = k
settled-IsKeyed key true d (err e, t) k = release-IsKeyed key t k
settled-IsKeyed key false d (err e, t) k = k

settle-IsKeyed :
    (c : Endpoint) (e : WecomEvent) (t : Records) (r : Reply)
    → IsKeyed t
    → IsKeyed (settle c e t r).1
settle-IsKeyed c e t (Callback.answered d) k =
    settled-IsKeyed (event_id c e) (in_body e) d (complete (event_id c e) 200 (c.to_json d) t)
      (complete-IsKeyed (event_id c e) 200 (c.to_json d) t k)
settle-IsKeyed c e t (Callback.refused n) k = release-IsKeyed (event_id c e) t k
settle-IsKeyed c e t (Callback.raised x) k = release-IsKeyed (event_id c e) t k

finish-IsKeyed :
    (c : Endpoint) (e : WecomEvent) (t : Records) (r : Reply × Stores)
    → IsKeyed t
    → IsKeyed (finish c e t r).1.records
finish-IsKeyed c e t (r, st) k = settle-IsKeyed c e t r k

after_claim-IsKeyed :
    (c : Endpoint) (now : ℕ) (e : WecomEvent) (st : Stores)
    (x : Result (Option IdempotencyRecord) × Records)
    → IsKeyed x.1
    → IsKeyed (after_claim c now e st x).1.records
after_claim-IsKeyed c now e st (err x, t) k = k
after_claim-IsKeyed c now e st (ok (some r), t) k = k
after_claim-IsKeyed c now e st (ok none, t) k = finish-IsKeyed c e t (body c now e st) k

-- The endpoint keeps the primary key of `idempotency_records`.
pub receive_event-IsKeyed :
    (c : Endpoint) (now : ℕ) (e : WecomEvent) (w : World)
    → IsKeyed w.records
    → IsKeyed (receive_event c now e w).1.records
unfolding receive_event
receive_event-IsKeyed c now e w k = elim (Bool-cases (in_window c now e)) [
  | inl h ↦ rw h (
      after_claim-IsKeyed c now e w.stores (claim (event_id c e) kind w.records)
        (claim-IsKeyed (event_id c e) kind w.records k))
  | inr h ↦ rw h k
]
