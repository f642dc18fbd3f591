-- ===== src/Webhook/Callback.antt =====
-- `receive_event` (src/webhook/router.py): the replay window, the claim of the event's id, the
-- handler, and the stored answer. The body of the `try` runs as one step; the calls that other
-- requests make on the idempotency store meanwhile are those of `IdempotencyStore.Claims`.
pub mod Claimed
pub mod Replay
use shelf_life_copilot.Prelude.{
  ℕ, ◌+◌, ◌-◌, ◌*◌, suc, String, Bool, true, false, not, ◌&&◌, ◌||◌, Option, none, some, DateTime,
  Result, ok, err, Error, unknown_action, unknown_batch, key_error, value_error, failure,
  is_value_error, ltb, leb, seconds, ◌==◌, if◌then◌else◌,
}
use shelf_life_copilot.Prelude.Int.{ℤ, pos, negsuc}
use shelf_life_copilot.Persistence.IdempotencyStore as IdempotencyStore
use shelf_life_copilot.Persistence.IdempotencyStore.{Records, IdempotencyRecord, Status}
use shelf_life_copilot.Persistence.RevisionStore as RevisionStore
use shelf_life_copilot.Persistence.RevisionStore.{Sessions, RevisionSession, attach_feedback}
use shelf_life_copilot.Persistence.SuggestionStore.{Suggestions}
use shelf_life_copilot.Webhook.Event.{WecomEvent, or_empty, stable_event_id}
use shelf_life_copilot.Webhook.Click.{
  Stores, Services, Detail, no_pending_revision, revision_recorded, ignored_message, handle_click,
}

-- What the endpoint is given or calls: `str` of an int, SHA-256, `str.strip`, the scan runner's
-- `revise_for_batch` (the time of the new suggestion, or none when it has errors or no suggestion),
-- and the JSON form of a response.
pub record Endpoint : Type 0 where
  pub services : Services
  pub decimal : ℤ → String
  pub digest : String → String
  pub strip : String → String
  pub revise_for_batch :
      String → String → String → Option Suggestions → Result (Option DateTime) × Option Suggestions
  pub to_json : Detail → String
  pub from_json : String → Result Detail
  pub replay_window_seconds : ℕ

pub record World : Type 0 where
  pub stores : Stores
  pub records : Records

pub data Reply : Type 0 where
  answered : Detail → Reply
  -- an HTTPException, with its status code
  refused : ℕ → Reply
  -- any other exception, which the server turns into a 500
  raised : Error → Reply

abbrev distance : ℕ → ℤ → ℕ
distance now (pos s) = (now - seconds s) + (seconds s - now)
distance now (negsuc s) = now + seconds (suc s)

-- `_validate_event_timestamp`; `now` is aware
unfoldable pub in_window : Endpoint → ℕ → WecomEvent → Bool
in_window c now e = leb (distance now e.create_time) (seconds c.replay_window_seconds)

unfoldable pub event_id : Endpoint → WecomEvent → String
event_id c e = stable_event_id c.decimal c.digest e

abbrev pub with_sessions : Stores → Sessions → Stores
with_sessions st t = record st { sessions = some t }

-- the rest of the text branch after `revise_for_batch`
abbrev pub revised :
    RevisionSession
    → Sessions
    → Stores
    → Result (Option DateTime) × Option Suggestions
    → Reply × Stores
revised s t st (err e, g) =
    (raised e, record st { sessions = some (RevisionStore.fail s.session_id t); suggestions = g })
revised s t st (ok none, g) = (
  refused 502,
  record st { sessions = some (RevisionStore.fail s.session_id t); suggestions = g },
)
revised s t st (ok (some at), g) = (
  answered (revision_recorded s.batch_id),
  record st { sessions = some (RevisionStore.complete s.session_id at t); suggestions = g },
)

abbrev pub attached : Endpoint → Stores → Result RevisionSession × Sessions → Reply × Stores
attached c st (err key_error, t) = (answered no_pending_revision, with_sessions st t)
attached c st (err e, t) = (raised e, with_sessions st t)
attached c st (ok s, t) =
    revised s t st
      (c.revise_for_batch s.customer_id s.batch_id (or_empty s.feedback) st.suggestions)

abbrev pub text_message : Endpoint → WecomEvent → Stores → Option Sessions → Reply × Stores
text_message c e st none = (raised failure, st)
text_message c e st (some t) =
    attached c st (attach_feedback c.strip e.from_user_name (or_empty e.content) (event_id c e) t)

abbrev pub clicked : Result Detail × Stores → Reply × Stores
clicked (ok d, st) = (answered d, st)
clicked (err e, st) = (raised e, st)

abbrev pub is_click : WecomEvent → Bool
is_click e = e.msg_type == "event" && or_empty e.event == "click"

-- the `try` body, without the completion that its non-click branch ends in
unfoldable pub body : Endpoint → ℕ → WecomEvent → Stores → Reply × Stores
body c now e st =
    if e.msg_type == "text"
    then text_message c e st st.sessions
    else (if is_click e
        then clicked (handle_click c.services (event_id c e) now e st)
        else (answered ignored_message, st))

-- the `except` clauses: the reply to an exception of the body
unfoldable pub except : Error → Reply
except unknown_action = refused 400
except unknown_batch = refused 404
except key_error = refused 400
except e = if is_value_error e then refused 400 else raised e

abbrev pub recovered : Reply → Reply
recovered (raised e) = except e
recovered r = r

abbrev pub stored_answer : Detail → Result (Unit {0}) × Records → Reply × Records
stored_answer d (ok _, t) = (answered d, t)
stored_answer d (err e, t) = (raised e, t)

abbrev pub in_body : WecomEvent → Bool
in_body e = not (e.msg_type == "text") && not (is_click e)

-- a completion that fails inside the `try` is handled by its `except` clauses
abbrev pub failed_inside : String → Bool → Reply × Records → Reply × Records
failed_inside key true (raised e, t) = (except e, IdempotencyStore.release key t)
failed_inside key _ r = r

abbrev pub settle : Endpoint → WecomEvent → Records → Reply → Reply × Records
settle c e t (answered d) =
    failed_inside (event_id c e) (in_body e)
      (stored_answer d (IdempotencyStore.complete (event_id c e) 200 (c.to_json d) t))
settle c e t r = (recovered r, IdempotencyStore.release (event_id c e) t)

abbrev pub finish : Endpoint → WecomEvent → Records → Reply × Stores → Reply × World
finish c e t (r, st) =
    let (reply, t') = settle c e t r in (reply, record { stores = st; records = t' })

abbrev pub parsed : Result Detail → Reply
parsed (ok d) = answered d
parsed (err e) = raised e

abbrev pub previous : Endpoint → Status → Option String → Reply
previous c IdempotencyStore.completed (some json) = parsed (c.from_json json)
previous c _ _ = refused 409

abbrev pub after_claim :
    Endpoint → ℕ → WecomEvent → Stores → Result (Option IdempotencyRecord) × Records → Reply × World
after_claim c now e st (err x, t) = (raised x, record { stores = st; records = t })
after_claim c now e st (ok (some r), t) =
    (previous c r.status r.response_json, record { stores = st; records = t })
after_claim c now e st (ok none, t) = finish c e t (body c now e st)

-- `receive_event` at the time `now`
unfoldable pub receive_event : Endpoint → ℕ → WecomEvent → World → Reply × World
receive_event c now e w =
    if in_window c now e
    then after_claim c now e w.stores
        (IdempotencyStore.claim (event_id c e) "wecom_callback" w.records)
    else (refused 400, w)
