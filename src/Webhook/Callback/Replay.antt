-- ===== src/Webhook/Callback/Replay.antt =====
-- Repeated deliveries of one callback (src/webhook/router.py).
use shelf_life_copilot.Prelude.{ℕ, ◌≡◌, refl, ◌∙◌, ap, true, some, List, ok, arith}
use shelf_life_copilot.Persistence.IdempotencyStore.{Records, IdempotencyRecord, completed, claim}
use shelf_life_copilot.Persistence.IdempotencyStore.Phases.{phase, free, answered, IsKeyed}
use shelf_life_copilot.Persistence.IdempotencyStore.Claims.{Call, run, answer_replayed}
use shelf_life_copilot.Webhook.Event.{WecomEvent}
use shelf_life_copilot.Webhook.Click.{Detail, Stores}
use shelf_life_copilot.Webhook.Callback.{
  Endpoint, World, Reply, event_id, in_window, receive_event, previous, parsed, after_claim,
}
use shelf_life_copilot.Webhook.Callback as Callback
use shelf_life_copilot.Webhook.Callback.Claimed.{
  kind, event_id-given, receive_event-IsKeyed, receive_event-settles, left_by,
}

replayed :
    (c : Endpoint) (later : ℕ) (e2 : WecomEvent) (st : Stores) (t : Records)
    (row : IdempotencyRecord) {d : Detail}
    → c.from_json (c.to_json d) ≡ ok d
    → in_window c later e2 ≡ true
    → claim (event_id c e2) kind t ≡ (ok (some row), t)
    → row.status ≡ completed
    → row.response_json ≡ some (c.to_json d)
    → receive_event c later e2 (record { stores = st; records = t })
      ≡ (Callback.answered d, record { stores = st; records = t })
unfolding receive_event
replayed c later e2 st t row {d} reads inside claims done json =
    rw (inside, claims, done, json, reads) refl

-- Once a first delivery inside the replay window is answered, and pydantic reads the answer back from
-- its JSON, the same event delivered again inside the window, with any calls of the idempotency store in between, whatever the
-- other stores then hold, gets the answer that the first delivery got, and no store is changed.
-- The keys of the idempotency store are unique before.
pub receive_event-again :
    (c : Endpoint) (now : ℕ) (e : WecomEvent) (w : World) {d : Detail}
    → c.from_json (c.to_json d) ≡ ok d
    → IsKeyed w.records
    → in_window c now e ≡ true
    → phase w.records (event_id c e) ≡ free
    → (receive_event c now e w).0 ≡ Callback.answered d
    → (later : ℕ) (e2 : WecomEvent) (calls : List Call) (st : Stores) → event_id c e2 ≡ event_id c e
    → in_window c later e2 ≡ true
    → let w2 : World = record {
      stores = st;
      records = run calls (receive_event c now e w).1.records;
    } in
      receive_event c later e2 w2 ≡ (Callback.answered d, w2)
receive_event-again c now e w {d} reads keyed inside h first later e2 calls st same inside2 =
    let records = (receive_event c now e w).1.records in
    let held : phase records (event_id c e) ≡ answered kind (some 200) (some (c.to_json d)) =
      receive_event-settles c now e w keyed inside h ∙ ap (left_by c) first in
    let (row, claims, done, _, _, json) =
      answer_replayed calls (event_id c e) kind records (receive_event-IsKeyed c now e w keyed)
        (event_id-given c e) (ground arith) held in
    replayed c later e2 st (run calls records) row reads inside2 (rw same claims) done json
