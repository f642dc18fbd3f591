-- ===== src/Persistence/Postgres/Decisions/Repeats.antt =====
-- What `PostgresDecisionStore.record_approval` (src/persistence/postgres.py) does the first time and when
-- an approval is repeated, next to `DecisionStore.record_approval`.
use shelf_life_copilot.Prelude.{
  ℕ, ◌+◌, ◌≤◌, String, ◌≡◌, refl, sym, ◌∙◌, Bool, true, false, Option, none, some, Result, ok, err,
  Error, integrity_error, value_error, ◌>>=◌, arith, eq_refl, nat_eq,
}
use shelf_life_copilot.Prelude.Table.{All-map, find, contains, find-contains-false, contains-find}
use shelf_life_copilot.Prelude.Keys.{find-last}
use shelf_life_copilot.Prelude.Distinct.{contains-append_last}
use shelf_life_copilot.Models.Decision.{Decision}
use shelf_life_copilot.Models.WorkOrder.{WorkOrder, is_completed, validate, completed}
use shelf_life_copilot.Models.WorkOrder.Lifecycle.{IsValid}
use shelf_life_copilot.Persistence.Approvals.{
  DecisionRow, WorkOrderRow, Tables, for_batch, fresh_columns, same_key, decision_values, approve,
  approval_checks,
}
use shelf_life_copilot.Persistence.Approvals as Approvals
use shelf_life_copilot.Persistence.Approvals.Keeps.{
  IsSound, IsFree, approved_tables, approve-eq-ok, approve-free, approved_tables-IsSound,
  fresh_columns-IsValid,
}
use shelf_life_copilot.Persistence.Approvals.Recording.{record_approval-existing}
use shelf_life_copilot.Persistence.Postgres.Decisions.{
  record_approval, checks, checked, inserts, ended, existing, approval_for_key, number_taken,
  short_row,
}

checks_same :
    (d : Decision) (o : WorkOrder) (key : String) → checks d o key ≡ approval_checks d o key
unfolding checks approval_checks
checks_same d o key = refl

inserts_same :
    (d : Decision) (o : WorkOrder) (key : String) (t : Tables)
    → inserts d o key t ≡ approve d o key t
unfolding inserts approve
inserts_same d o key t = refl

-- A first approval, whose rows are in conflict with none, gets the same answer from both stores and
-- leaves the same rows.
pub record_approval-first :
    (d : Decision) (o : WorkOrder) (key : String) (t : Tables)
    → IsFree o key t
    → record_approval d o key t ≡ Approvals.record_approval d o key t
unfolding record_approval Approvals.record_approval
record_approval-first d o key t f = rw (checks_same d o key) (go (approval_checks d o key))
  where
    go : (m : Result (Unit {0})) → checked d o key t m ≡ Approvals.checked_approval d o key t m
    go (err e) = refl
    go (ok u) = rw (inserts_same d o key t, approve-free d o key t f) refl

-- The ways in which a call ends.
pub data Outcome (d : Decision) (o : WorkOrder) (key : String) (t : Tables)
    (r : Result (ℕ × WorkOrder × Bool) × Tables) : Type 0 where
  refused : (e : Error) → r ≡ (err e, t) → Outcome d o key t r
  rolled_back :
      (e : Error)
      → inserts d o key t ≡ err e
      → r ≡ (existing e (approval_for_key key t), number_taken t)
      → Outcome d o key t r
  recorded :
      IsFree o key t
      → r ≡ (ok (t.last_id + 1, o, true), approved_tables d o key t)
      → Outcome d o key t r

ended-Outcome :
    (d : Decision) (o : WorkOrder) (key : String) (t : Tables) (m : Result Tables)
    → inserts d o key t ≡ m
    → Outcome d o key t (ended o key t m)
ended-Outcome d o key t (err e) h = rolled_back e h refl
ended-Outcome d o key t (ok t') h =
    let (free, same) = approve-eq-ok d o key t (sym (inserts_same d o key t) ∙ h) in
    recorded free (rw same)

checked-Outcome :
    (d : Decision) (o : WorkOrder) (key : String) (t : Tables) (m : Result (Unit {0}))
    → Outcome d o key t (checked d o key t m)
checked-Outcome d o key t (err e) = refused e refl
checked-Outcome d o key t (ok _) = ended-Outcome d o key t (inserts d o key t) refl

record_approval-Outcome :
    (d : Decision) (o : WorkOrder) (key : String) (t : Tables)
    → Outcome d o key t (record_approval d o key t)
unfolding record_approval
record_approval-Outcome d o key t = checked-Outcome d o key t (checks d o key)

number_taken-IsSound : (t : Tables) → IsSound t → IsSound (number_taken t)
number_taken-IsSound t s = record {
  orders_distinct = s.orders_distinct;
  decisions_distinct = s.decisions_distinct;
  ids_bounded =
      All-map (λ x. x.id ≤ t.last_id) (λ x. x.id ≤ t.last_id + 1) (λ x h. omega arith) t.decisions
        s.ids_bounded;
  linked = s.linked;
  orders_valid = s.orders_valid;
}

-- `record_approval` keeps the constraints of the tables, whatever the call ends in, a rollback
-- included. The order is valid and not completed.
pub record_approval-IsSound :
    (d : Decision) (o : WorkOrder) (key : String) (t : Tables)
    → IsSound t
    → IsValid o
    → is_completed o.status ≡ false
    → IsSound (record_approval d o key t).1
record_approval-IsSound d o key t s v p = elim (record_approval-Outcome d o key t) [
  | refused e h ↦ rw h s
  | rolled_back e i h ↦ rw h (number_taken-IsSound t s)
  | recorded f h ↦ rw h (approved_tables-IsSound d o key t s v p f)
]

key_found :
    (d : Decision) (o : WorkOrder) (key : String) (t : Tables)
    → IsFree o key t
    → approval_for_key key (approved_tables d o key t)
      ≡ some (record { decision_id = t.last_id + 1; order = fresh_columns o })
unfolding approval_for_key find
key_found d o key t f =
    rw
      (find-last (λ (x : DecisionRow). same_key key x.idempotency_key) t.decisions
        (record { id = t.last_id + 1; decision = decision_values d; idempotency_key = some key })
        f.key_free (eq_refl key))
      (find-last (λ (w : WorkOrderRow). nat_eq w.decision_id (t.last_id + 1)) t.work_orders _
        f.decision_free (ground arith))

taken_key :
    (d : Decision) (o : WorkOrder) (key : String) (t : Tables)
    → contains (λ (r : DecisionRow). same_key key r.idempotency_key) t.decisions ≡ true
    → inserts d o key t ≡ err integrity_error
unfolding inserts Approvals.insert_decision
taken_key d o key t h = rw h refl

taken_batch :
    (d : Decision) (o : WorkOrder) (key : String) (t : Tables)
    → contains (for_batch o.customer_id o.batch_id) t.work_orders ≡ true
    → inserts d o key t ≡ err integrity_error
unfolding inserts Approvals.insert_decision Approvals.insert_work_order
taken_batch d o key t h = ground arith

rolled :
    (d : Decision) (o : WorkOrder) (key : String) (t : Tables) {e : Error}
    → checks d o key ≡ ok tt
    → inserts d o key t ≡ err e
    → record_approval d o key t ≡ (existing e (approval_for_key key t), number_taken t)
unfolding record_approval
rolled d o key t c h = rw (c, h) refl

reported :
    {x : Result (ℕ × WorkOrder × Bool) × Tables} {a b : ℕ} {o : WorkOrder} {s s' : Tables}
    → x ≡ (ok (a, o, true), s)
    → x ≡ (ok (b, o, true), s')
    → (a ≡ b) × (s ≡ s')
reported h k = (cc, cc)

not_new_row :
    {x : Result (ℕ × WorkOrder × Bool) × Tables} {id : ℕ} {o : WorkOrder} {s s' : Tables} (n : ℕ)
    (v : Result WorkOrder)
    → x ≡ ((v >>= λ z. ok (n, z, false)), s)
    → x ≡ (ok (id, o, true), s')
    → ⊥
not_new_row n (err e) h k = cc
not_new_row n (ok z) h k = cc

not_new :
    {x : Result (ℕ × WorkOrder × Bool) × Tables} {id : ℕ} {o : WorkOrder} {s s' : Tables}
    (e : Error) (m : Option WorkOrderRow)
    → x ≡ (existing e m, s)
    → x ≡ (ok (id, o, true), s')
    → ⊥
not_new e none h k = cc
not_new e (some w) h k = not_new_row w.decision_id (validate (short_row w.order)) h k

retried :
    (d : Decision) (o : WorkOrder) (key : String) (t : Tables)
    → IsValid o
    → is_completed o.status ≡ false
    → IsFree o key t
    → (d2 : Decision) (o2 : WorkOrder) → checks d2 o2 key ≡ ok tt
    → record_approval d2 o2 key (approved_tables d o key t)
      ≡ (ok (t.last_id + 1, fresh_columns o, false), number_taken (approved_tables d o key t))
retried d o key t v p f d2 o2 c =
    let taken = taken_key d2 o2 key (approved_tables d o key t) (
      contains-append_last (λ (r : DecisionRow). same_key key r.idempotency_key) t.decisions _
        (eq_refl key)) in
    rolled d2 o2 key (approved_tables d o key t) c taken
    ∙ rw (key_found d o key t f, fresh_columns-IsValid o v p) refl

-- An approval that is sent again with its key, whatever decision and order it brings, gets the
-- decision and the order of the first call and adds no row. The first order is valid and not
-- completed, and its row is as it was written; the later call passes the checks.
pub record_approval-retry :
    (d : Decision) (o : WorkOrder) (key : String) (t : Tables) {id : ℕ} {t' : Tables}
    → IsValid o
    → is_completed o.status ≡ false
    → record_approval d o key t ≡ (ok (id, o, true), t')
    → (d2 : Decision) (o2 : WorkOrder) → checks d2 o2 key ≡ ok tt
    → record_approval d2 o2 key t' ≡ (ok (id, fresh_columns o, false), number_taken t')
record_approval-retry d o key t v p first d2 o2 c = elim (record_approval-Outcome d o key t) [
  | refused e h ↦ absurd (cc (first, h))
  | rolled_back e i h ↦ absurd (not_new e (approval_for_key key t) h first)
  | recorded f h ↦
      (let (same_id, same_tables) = reported h first in
        rw (← same_id, ← same_tables) (retried d o key t v p f d2 o2 c))
]

unknown_key :
    (key : String) (t : Tables)
    → contains (λ (x : DecisionRow). same_key key x.idempotency_key) t.decisions ≡ false
    → approval_for_key key t ≡ none
unfolding approval_for_key
unknown_key key t h =
    rw (find-contains-false (λ (x : DecisionRow). same_key key x.idempotency_key) t.decisions h)
      refl

lost_receipt :
    (o : WorkOrder) → IsValid o → o.status ≡ completed → validate (short_row o) ≡ err value_error
unfolding validate
lost_receipt o v done = ground arith

-- A second approval of a batch under another key gets the recorded approval from the SQLite store,
-- and the integrity error itself from the PostgreSQL store. The call passes the checks, no decision
-- has its key, and the batch has a valid order.
pub record_approval-other_key :
    (d : Decision) (o : WorkOrder) (key : String) (t : Tables) {r : WorkOrderRow}
    → checks d o key ≡ ok tt
    → contains (λ (x : DecisionRow). same_key key x.idempotency_key) t.decisions ≡ false
    → find (for_batch o.customer_id o.batch_id) t.work_orders ≡ some r
    → IsValid r.order
    → (Approvals.record_approval d o key t ≡ (ok (r.decision_id, r.order, false), t))
      × (record_approval d o key t ≡ (err integrity_error, number_taken t))
record_approval-other_key d o key t c free h v = (
  record_approval-existing d o key t (sym (checks_same d o key) ∙ c) h v,
  rolled d o key t c
        (taken_batch d o key t (contains-find (for_batch o.customer_id o.batch_id) t.work_orders h))
      ∙ rw (unknown_key key t free) refl,
)

-- A retry of an approval whose order is completed by then ends in a validation error, since the
-- handler reads the order without its receipt. The call passes the checks.
pub record_approval-completed :
    (d : Decision) (o : WorkOrder) (key : String) (t : Tables) {w : WorkOrderRow}
    → checks d o key ≡ ok tt
    → contains (λ (x : DecisionRow). same_key key x.idempotency_key) t.decisions ≡ true
    → approval_for_key key t ≡ some w
    → IsValid w.order
    → w.order.status ≡ completed
    → record_approval d o key t ≡ (err value_error, number_taken t)
record_approval-completed d o key t {w} c taken h v done =
    rolled d o key t c (taken_key d o key t taken) ∙ rw (h, lost_receipt w.order v done) refl
