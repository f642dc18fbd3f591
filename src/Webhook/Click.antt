-- ===== src/Webhook/Click.antt =====
-- Click events (`handle_click` of src/webhook/handlers.py). A reply is what the returned line says,
-- without its wording.
pub mod Effects
pub mod Approving
use shelf_life_copilot.Prelude.{
  ℕ, String, Bool, true, false, ◌&&◌, Option, none, some, List, DateTime, utc, Result, ok, err,
  Error, unknown_action, unknown_batch, file_not_found, is_value_error, is_some, ◌==◌,
  if◌then◌else◌, ◌>>=◌,
}
use shelf_life_copilot.Prelude.Table.{find}
use shelf_life_copilot.Models.Action.{Amount, ActionType, transform}
use shelf_life_copilot.Models.Batch.{Batch}
use shelf_life_copilot.Models.Decision.{
  DecisionOutcome, approved, snoozed, Decision, validate_decision,
}
use shelf_life_copilot.Models.Suggestion.{Suggestion}
use shelf_life_copilot.Models.WorkOrder.{WorkOrder, pending, validate}
use shelf_life_copilot.Persistence.Approvals.{Tables, save, record_approval}
use shelf_life_copilot.Persistence.RevisionStore.{RevisionSession, Sessions, open_session}
use shelf_life_copilot.Persistence.SuggestionStore.{Suggestions, latest_for_batch}
use shelf_life_copilot.Webhook.EventKey.{parse_event_key}
use shelf_life_copilot.Webhook.Event.{WecomEvent, or_empty}

-- The stores that the handler is given; the optional ones may be missing.
pub record Stores : Type 0 where
  pub tables : Tables
  pub suggestions : Option Suggestions
  pub sessions : Option Sessions

-- What the handler calls outside the stores: the batch repository and `uuid5` in the URL namespace.
pub record Services : Type 0 where
  pub load_batches : String → Result (List Batch)
  pub uuid5 : String → String

pub data Detail : Type 0 where
  revise_prompt : Detail
  recorded_approval : Bool → ℕ → String → Detail
  recorded_decision : ℕ → DecisionOutcome → Detail
  no_pending_revision : Detail
  revision_recorded : String → Detail
  ignored_message : Detail

abbrev pub opened : Stores → Result RevisionSession × Sessions → Result Detail × Stores
opened st (ok s, t) = (ok revise_prompt, record st { sessions = some t })
opened st (err e, t) = (err e, record st { sessions = some t })

abbrev pub open_round :
    WecomEvent
    → String
    → String
    → Stores
    → Sessions
    → Result (Option Suggestion)
    → Result Detail × Stores
open_round e customer batch st t (err x) = (err x, st)
open_round e customer batch st t (ok none) = (ok revise_prompt, st)
open_round e customer batch st t (ok (some s)) =
    if is_some s.user_feedback
    then (err unknown_action, st)
    else opened st (open_session e.from_user_name customer batch s.generated_at t)

abbrev pub revise_click :
    WecomEvent
    → String
    → String
    → Stores
    → Option Sessions
    → Option Suggestions
    → Result Detail × Stores
revise_click e customer batch st none _ = (ok revise_prompt, st)
revise_click e customer batch st (some t) none = (ok revise_prompt, st)
revise_click e customer batch st (some t) (some s) =
    open_round e customer batch st t (latest_for_batch customer batch s)

-- `_ACTION_KEY_TO_OUTCOME.get(action_key)`
abbrev pub outcome_of : String → Option DecisionOutcome
outcome_of key =
    if key == "approve" then some approved else (if key == "snooze" then some snoozed else none)

abbrev pub suggested : Option Suggestion → ActionType × Amount
suggested none = (transform, 0)
suggested (some s) = (s.action, s.savings_estimate)

-- `_resolve_action_and_savings`
abbrev pub resolve_action_and_savings :
    String → String → Option Suggestions → Result (ActionType × Amount)
resolve_action_and_savings customer batch none = ok (transform, 0)
resolve_action_and_savings customer batch (some t) =
    latest_for_batch customer batch t >>= λ s. ok (suggested s)

abbrev pub decision_for : Batch → String → ℕ → DecisionOutcome → ActionType × Amount → Decision
decision_for b customer now outcome (action, savings) = record {
  batch_id = b.batch_id;
  customer_id = customer;
  material_name = b.material_name;
  decided_at = utc now;
  action = action;
  outcome = outcome;
  savings_estimate = savings;
  actual_savings = none;
  actual_qty = none;
  notes = none;
}

abbrev pub order_for : String → Decision → WorkOrder
order_for id d = record {
  work_order_id = id;
  batch_id = d.batch_id;
  customer_id = d.customer_id;
  material_name = d.material_name;
  action = d.action;
  status = pending;
  created_at = d.decided_at;
  updated_at = d.decided_at;
  actual_qty = none;
  actual_savings = none;
  completed_by = none;
  completed_at = none;
  completion_source = none;
}

abbrev pub approval_reply : Stores → Result (ℕ × WorkOrder × Bool) × Tables → Result Detail × Stores
approval_reply st (ok (id, o, created), t) =
    (ok (recorded_approval created id o.work_order_id), record st { tables = t })
approval_reply st (err e, t) = (err e, record st { tables = t })

abbrev pub place : Services → String → Decision → Stores → Result WorkOrder → Result Detail × Stores
place sv key d st (err e) = (err e, st)
place sv key d st (ok o) = approval_reply st (record_approval d o key st.tables)

abbrev pub saved : Decision → Stores → ℕ × Tables → Result Detail × Stores
saved d st (id, t) = (ok (recorded_decision id d.outcome), record st { tables = t })

abbrev pub land_as :
    Services → String → Decision → Stores → DecisionOutcome → Result Detail × Stores
land_as sv key d st approved = place sv key d st (validate (order_for (sv.uuid5 key) d))
land_as sv key d st _ = saved d st (save d st.tables)

abbrev pub land : Services → String → Stores → Result Decision → Result Detail × Stores
land sv key st (err e) = (err e, st)
land sv key st (ok d) = land_as sv key d st d.outcome

abbrev pub decide :
    Services
    → String
    → ℕ
    → String
    → DecisionOutcome
    → Stores
    → Batch
    → Result (ActionType × Amount)
    → Result Detail × Stores
decide sv key now customer outcome st b (err e) = (err e, st)
decide sv key now customer outcome st b (ok a) =
    land sv key st (validate_decision (decision_for b customer now outcome a))

abbrev pub for_found :
    Services
    → String
    → ℕ
    → String
    → String
    → DecisionOutcome
    → Stores
    → Option Batch
    → Result Detail × Stores
for_found sv key now customer batch outcome st none = (err unknown_batch, st)
for_found sv key now customer batch outcome st (some b) =
    decide sv key now customer outcome st b
      (resolve_action_and_savings customer batch st.suggestions)

-- `except (FileNotFoundError, ValueError)`
abbrev pub lookup_error : Error → Error
lookup_error file_not_found = unknown_batch
lookup_error e = if is_value_error e then unknown_batch else e

abbrev pub with_batches :
    Services
    → String
    → ℕ
    → String
    → String
    → DecisionOutcome
    → Stores
    → Result (List Batch)
    → Result Detail × Stores
with_batches sv key now customer batch outcome st (err e) = (err (lookup_error e), st)
with_batches sv key now customer batch outcome st (ok batches) =
    for_found sv key now customer batch outcome st (find (λ b. b.batch_id == batch) batches)

abbrev pub decision_click :
    Services
    → String
    → ℕ
    → String
    → String
    → Stores
    → Option DecisionOutcome
    → Result Detail × Stores
decision_click sv key now customer batch st none = (err unknown_action, st)
decision_click sv key now customer batch st (some outcome) =
    with_batches sv key now customer batch outcome st (sv.load_batches customer)

abbrev pub route :
    Services
    → String
    → ℕ
    → WecomEvent
    → Stores
    → Result (String × String × String)
    → Result Detail × Stores
route sv key now e st (err x) = (err x, st)
route sv key now e st (ok (action, customer, batch)) =
    if action == "revise"
    then revise_click e customer batch st st.sessions st.suggestions
    else decision_click sv key now customer batch st (outcome_of action)

-- `handle_click` at the time `now`; `key` is the event's stable id
unfoldable pub handle_click : Services → String → ℕ → WecomEvent → Stores → Result Detail × Stores
handle_click sv key now e st =
    if or_empty e.event_key == ""
    then (err unknown_action, st)
    else route sv key now e st (parse_event_key (or_empty e.event_key))
