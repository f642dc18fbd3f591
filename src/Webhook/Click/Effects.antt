-- ===== src/Webhook/Click/Effects.antt =====
-- What a click does to the stores (src/webhook/handlers.py).
use shelf_life_copilot.Prelude.{
  ℕ, String, ◌≡◌, refl, Bool, true, false, Option, none, some, List, Result, ok, err, Error,
  Bool-cases, inl, inr, ◌==◌, is_some,
}
use shelf_life_copilot.Prelude.Table.{find}
use shelf_life_copilot.Models.Action.{Amount, ActionType}
use shelf_life_copilot.Models.Batch.{Batch}
use shelf_life_copilot.Models.Decision.{
  DecisionOutcome, Decision, validate_decision, approved, snoozed, revised, rejected,
}
use shelf_life_copilot.Models.Suggestion.{Suggestion}
use shelf_life_copilot.Models.WorkOrder.{WorkOrder, validate}
use shelf_life_copilot.Models.WorkOrder.Lifecycle.{validate-same}
use shelf_life_copilot.Persistence.Approvals.{Tables, save, record_approval}
use shelf_life_copilot.Persistence.Approvals.Keeps.{IsSound, save-IsSound}
use shelf_life_copilot.Persistence.Approvals.Recording.{
  record_approval-Outcome, record_approval-IsSound, refused, known, recorded,
}
use shelf_life_copilot.Persistence.RevisionStore.{RevisionSession, Sessions, open_session}
use shelf_life_copilot.Persistence.SuggestionStore.{Suggestions, latest_for_batch}
use shelf_life_copilot.Webhook.EventKey.{parse_event_key}
use shelf_life_copilot.Webhook.Event.{WecomEvent, or_empty}
use shelf_life_copilot.Webhook.Click.{
  Stores, Services, Detail, opened, open_round, revise_click, outcome_of,
  resolve_action_and_savings, decision_for, order_for, approval_reply, place, saved, land, land_as,
  decide, for_found, with_batches, decision_click, route, handle_click,
}

abbrev pub failed : Result Detail → Bool
failed (ok _) = false
failed (err _) = true

-- The constraints of the tables survive, a failed click writes no decision and no order, and no
-- click writes a suggestion.
pub record IsEffect (st : Stores) (r : Result Detail × Stores) : Type 0 where
  pub sound : IsSound st.tables → IsSound r.1.tables
  pub undone : failed r.0 ≡ true → r.1.tables ≡ st.tables
  pub suggestions_kept : r.1.suggestions ≡ st.suggestions

same_tables :
    (st : Stores) (r : Result Detail × Stores)
    → r.1.tables ≡ st.tables
    → r.1.suggestions ≡ st.suggestions
    → IsEffect st r
same_tables st r t s = record { sound = λ h. rw t h; undone = λ _. t; suggestions_kept = s }

opened-IsEffect : (st : Stores) (r : Result RevisionSession × Sessions) → IsEffect st (opened st r)
opened-IsEffect st (ok s, t) = same_tables st _ refl refl
opened-IsEffect st (err e, t) = same_tables st _ refl refl

open_round-IsEffect :
    (e : WecomEvent) (customer batch : String) (st : Stores) (t : Sessions)
    (m : Result (Option Suggestion))
    → IsEffect st (open_round e customer batch st t m)
open_round-IsEffect e customer batch st t (err x) = same_tables st _ refl refl
open_round-IsEffect e customer batch st t (ok none) = same_tables st _ refl refl
open_round-IsEffect e customer batch st t (ok (some s)) =
    elim (Bool-cases (is_some s.user_feedback)) [
      | inl h ↦ rw h (same_tables st _ refl refl)
      | inr h ↦
          rw h (opened-IsEffect st (open_session e.from_user_name customer batch s.generated_at t))
    ]

revise_click-IsEffect :
    (e : WecomEvent) (customer batch : String) (st : Stores) (t : Option Sessions)
    (s : Option Suggestions)
    → IsEffect st (revise_click e customer batch st t s)
revise_click-IsEffect e customer batch st none s = same_tables st _ refl refl
revise_click-IsEffect e customer batch st (some t) none = same_tables st _ refl refl
revise_click-IsEffect e customer batch st (some t) (some s) =
    open_round-IsEffect e customer batch st t (latest_for_batch customer batch s)

approval_reply-IsEffect :
    (st : Stores) (r : Result (ℕ × WorkOrder × Bool) × Tables)
    → (IsSound st.tables → IsSound r.1)
    → ((e : Error) → r.0 ≡ err e → r.1 ≡ st.tables)
    → IsEffect st (approval_reply st r)
approval_reply-IsEffect st (ok (id, o, created), t) s u = record {
  sound = s;
  undone = λ h. cc;
  suggestions_kept = refl;
}
approval_reply-IsEffect st (err e, t) s u = record {
  sound = s;
  undone = λ h. u e refl;
  suggestions_kept = refl;
}

approval_undone :
    (d : Decision) (o : WorkOrder) (key : String) (t : Tables) (e : Error)
    → (record_approval d o key t).0 ≡ err e
    → (record_approval d o key t).1 ≡ t
approval_undone d o key t e h = elim (record_approval-Outcome d o key t) [
  | refused x same ↦ rw same refl
  | known row passes stored same ↦ rw same refl
  | recorded f same ↦ absurd (cc (rw same at h))
]

place-IsEffect :
    (sv : Services) (key : String) (d : Decision) (st : Stores) (m : Result WorkOrder)
    → validate (order_for (sv.uuid5 key) d) ≡ m
    → IsEffect st (place sv key d st m)
place-IsEffect sv key d st (err e) v = same_tables st _ refl refl
place-IsEffect sv key d st (ok o) v =
    let same = validate-same (order_for (sv.uuid5 key) d) o v in
    approval_reply-IsEffect st (record_approval d o key st.tables)
      (λ s. rw (← same) (
        record_approval-IsSound d (order_for (sv.uuid5 key) d) key st.tables s (rw (← same) at v)
          refl))
      (approval_undone d o key st.tables)

saved-IsEffect : (d : Decision) (st : Stores) → IsEffect st (saved d st (save d st.tables))
saved-IsEffect d st = record {
  sound = save-IsSound d st.tables;
  undone = λ h. absurd (cc);
  suggestions_kept = refl;
}

land_as-IsEffect :
    (sv : Services) (key : String) (d : Decision) (st : Stores) (o : DecisionOutcome)
    → IsEffect st (land_as sv key d st o)
land_as-IsEffect sv key d st approved =
    place-IsEffect sv key d st (validate (order_for (sv.uuid5 key) d)) refl
land_as-IsEffect sv key d st snoozed = saved-IsEffect d st
land_as-IsEffect sv key d st revised = saved-IsEffect d st
land_as-IsEffect sv key d st rejected = saved-IsEffect d st

land-IsEffect :
    (sv : Services) (key : String) (st : Stores) (m : Result Decision)
    → IsEffect st (land sv key st m)
land-IsEffect sv key st (err e) = same_tables st _ refl refl
land-IsEffect sv key st (ok d) = land_as-IsEffect sv key d st d.outcome

decide-IsEffect :
    (sv : Services) (key : String) (now : ℕ) (customer : String) (o : DecisionOutcome) (st : Stores)
    (b : Batch) (m : Result (ActionType × Amount))
    → IsEffect st (decide sv key now customer o st b m)
decide-IsEffect sv key now customer o st b (err e) = same_tables st _ refl refl
decide-IsEffect sv key now customer o st b (ok a) =
    land-IsEffect sv key st (validate_decision (decision_for b customer now o a))

for_found-IsEffect :
    (sv : Services) (key : String) (now : ℕ) (customer batch : String) (o : DecisionOutcome)
    (st : Stores) (m : Option Batch)
    → IsEffect st (for_found sv key now customer batch o st m)
for_found-IsEffect sv key now customer batch o st none = same_tables st _ refl refl
for_found-IsEffect sv key now customer batch o st (some b) =
    decide-IsEffect sv key now customer o st b
      (resolve_action_and_savings customer batch st.suggestions)

with_batches-IsEffect :
    (sv : Services) (key : String) (now : ℕ) (customer batch : String) (o : DecisionOutcome)
    (st : Stores) (m : Result (List Batch))
    → IsEffect st (with_batches sv key now customer batch o st m)
with_batches-IsEffect sv key now customer batch o st (err e) = same_tables st _ refl refl
with_batches-IsEffect sv key now customer batch o st (ok bs) =
    for_found-IsEffect sv key now customer batch o st (find (λ b. b.batch_id == batch) bs)

decision_click-IsEffect :
    (sv : Services) (key : String) (now : ℕ) (customer batch : String) (st : Stores)
    (o : Option DecisionOutcome)
    → IsEffect st (decision_click sv key now customer batch st o)
decision_click-IsEffect sv key now customer batch st none = same_tables st _ refl refl
decision_click-IsEffect sv key now customer batch st (some o) =
    with_batches-IsEffect sv key now customer batch o st (sv.load_batches customer)

route-IsEffect :
    (sv : Services) (key : String) (now : ℕ) (e : WecomEvent) (st : Stores)
    (m : Result (String × String × String))
    → IsEffect st (route sv key now e st m)
route-IsEffect sv key now e st (err x) = same_tables st _ refl refl
route-IsEffect sv key now e st (ok (action, customer, batch)) =
    elim (Bool-cases (action == "revise")) [
      | inl h ↦ rw h (revise_click-IsEffect e customer batch st st.sessions st.suggestions)
      | inr h ↦ rw h (decision_click-IsEffect sv key now customer batch st (outcome_of action))
    ]

-- Every click keeps the constraints of `decisions` and `work_orders`; a click that fails leaves both
-- tables as they were, and none touches the suggestions.
pub handle_click-IsEffect :
    (sv : Services) (key : String) (now : ℕ) (e : WecomEvent) (st : Stores)
    → IsEffect st (handle_click sv key now e st)
unfolding handle_click
handle_click-IsEffect sv key now e st = elim (Bool-cases (or_empty e.event_key == "")) [
  | inl h ↦ rw h (same_tables st _ refl refl)
  | inr h ↦ rw h (route-IsEffect sv key now e st (parse_event_key (or_empty e.event_key)))
]
