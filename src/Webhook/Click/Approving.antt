-- ===== src/Webhook/Click/Approving.antt =====
-- Approving clicks (src/webhook/handlers.py).
use shelf_life_copilot.Prelude.{
  ℕ, String, ◌≡◌, refl, ◌∙◌, ap, false, some, List, ok, arith, ◌==◌, eq_iff, eq_refl,
}
use shelf_life_copilot.Prelude.Table.{find, find_sound}
use shelf_life_copilot.Models.Action.{Amount, ActionType, action_eq_iff}
use shelf_life_copilot.Models.Batch.{Batch}
use shelf_life_copilot.Models.Decision.{approved, validate_decision, is_approved}
use shelf_life_copilot.Models.WorkOrder.{validate, receipt_fits}
use shelf_life_copilot.Models.WorkOrder.Lifecycle.{IsValid}
use shelf_life_copilot.Persistence.Approvals.{
  WorkOrderRow, for_batch, record_approval, approval_checks,
}
use shelf_life_copilot.Persistence.Approvals.Recording.{record_approval-existing}
use shelf_life_copilot.Webhook.EventKey.{event_key, has_colon, parse_event_key-ok_iff}
use shelf_life_copilot.Webhook.Event.{WecomEvent}
use shelf_life_copilot.Webhook.Click.{
  Stores, Services, recorded_approval, resolve_action_and_savings, decision_for, order_for,
  handle_click, approval_reply,
}

fresh-IsValid :
    (id : String) (b : Batch) (customer : String) (now : ℕ) (a : ActionType × Amount)
    → (id == "") ≡ false
    → IsValid (order_for id (decision_for b customer now approved a))
unfolding validate receipt_fits
fresh-IsValid id b customer now a h = ground arith

checks_pass :
    (id key : String) (b : Batch) (customer : String) (now : ℕ) (a : ActionType × Amount)
    → (key == "") ≡ false
    → approval_checks
        (decision_for b customer now approved a)
        (order_for id (decision_for b customer now approved a))
        key
      ≡ ok tt
unfolding approval_checks is_approved
checks_pass id key b customer now a h =
    ground (arith, eq_refl customer, eq_refl b.batch_id, (action_eq_iff a.0 a.0).1 refl)

-- what an approving click needs from outside the tables
pub record IsApproval (sv : Services) (e : WecomEvent) (st : Stores) (customer batch : String)
    (b : Batch) (a : ActionType × Amount) : Type 0 where
  pub key_is : e.event_key ≡ some (event_key "approve" customer batch)
  pub customer_plain : has_colon customer ≡ false
  pub batch_plain : has_colon batch ≡ false
  pub key_given : (event_key "approve" customer batch == "") ≡ false
  pub batches : List Batch
  pub loaded : sv.load_batches customer ≡ ok batches
  pub listed : find (λ x. x.batch_id == batch) batches ≡ some b
  pub resolved : resolve_action_and_savings customer batch st.suggestions ≡ ok a

-- An approving click for a known batch comes down to one call of `record_approval`, with a
-- decision and an order made of the batch and of the suggestion.
pub handle_click-approves :
    (sv : Services) (key : String) (now : ℕ) (e : WecomEvent) (st : Stores)
    {customer batch : String} {b : Batch} {a : ActionType × Amount}
    → IsApproval sv e st customer batch b a
    → (sv.uuid5 key == "") ≡ false
    → handle_click sv key now e st
      ≡ approval_reply st (
          record_approval
            (decision_for b customer now approved a)
            (order_for (sv.uuid5 key) (decision_for b customer now approved a))
            key
            st.tables)
unfolding handle_click validate_decision has_colon
handle_click-approves sv key now e st {customer} {batch} {b} {a} p id =
    let parsed =
      (parse_event_key-ok_iff (event_key "approve" customer batch) "approve" customer batch).1
        (refl, refl, p.customer_plain, p.batch_plain) in
    rw
      (
        p.key_is,
        p.key_given,
        parsed,
        p.loaded,
        p.listed,
        p.resolved,
        fresh-IsValid (sv.uuid5 key) b customer now a id,
      )
      refl

-- Once a batch has a work order, an approving click of any operator at any time reports that order and
-- its decision, and changes no store.
-- The stored order is valid, the customer's batches load and hold the batch, and neither the id
-- of the event nor the one that `uuid5` makes of it is empty.
pub handle_click-existing :
    (sv : Services) (key : String) (now : ℕ) (e : WecomEvent) (st : Stores)
    {customer batch : String} {b : Batch} {a : ActionType × Amount} {r : WorkOrderRow}
    → IsApproval sv e st customer batch b a
    → (sv.uuid5 key == "") ≡ false
    → (key == "") ≡ false
    → find (for_batch customer batch) st.tables.work_orders ≡ some r
    → IsValid r.order
    → handle_click sv key now e st
      ≡ (ok (recorded_approval false r.decision_id r.order.work_order_id), st)
handle_click-existing sv key now e st {customer} {batch} {b} {a} {r} p id given known valid =
    let same : b.batch_id ≡ batch =
      (eq_iff b.batch_id batch).0 (find_sound (λ x. x.batch_id == batch) p.batches p.listed) in
    let d = decision_for b customer now approved a in
    handle_click-approves sv key now e st p id
    ∙ ap (approval_reply st) (
        record_approval-existing d (order_for (sv.uuid5 key) d) key st.tables
          (checks_pass (sv.uuid5 key) key b customer now a given) (rw same known) valid)
