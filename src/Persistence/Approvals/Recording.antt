-- ===== src/Persistence/Approvals/Recording.antt =====
-- What `DecisionStore.record_approval` (src/persistence/decision_store.py) promises its callers.
use shelf_life_copilot.Prelude.{
  ℕ, ◌+◌, String, ◌≡◌, refl, Bool, true, false, some, Result, ok, err, Error, integrity_error,
  Option-cases, inl, inr, arith, eq_iff, eq_refl, ◌>>=◌, ◌∙◌,
}
use shelf_life_copilot.Prelude.Table.{
  find, contains, find-append_none, find-contains-false, contains-find,
}
use shelf_life_copilot.Models.Decision.{Decision}
use shelf_life_copilot.Models.WorkOrder.{WorkOrder, is_completed, validate}
use shelf_life_copilot.Models.WorkOrder.Lifecycle.{IsValid, validate-same}
use shelf_life_copilot.Persistence.Approvals.{
  WorkOrderRow, Tables, for_batch, fresh_columns, approve, record_approval, approval_checks,
  approval_for_batch, checked_approval, approval_outcome, existing_approval,
}
use shelf_life_copilot.Persistence.Approvals.Keeps.{
  IsSound, IsFree, approved_tables, approve-eq-ok, approved_tables-IsSound, fresh_columns-IsValid,
}

-- The three ways in which a call ends. An earlier approval is the row that the table of work orders holds
-- for the customer and the batch, with the id of its decision.
pub data Outcome (d : Decision) (o : WorkOrder) (key : String) (t : Tables)
    (r : Result (ℕ × WorkOrder × Bool) × Tables) : Type 0 where
  refused : (e : Error) → r ≡ (err e, t) → Outcome d o key t r
  known :
      (row : WorkOrderRow)
      → approval_checks d o key ≡ ok tt
      → find (for_batch d.customer_id d.batch_id) t.work_orders ≡ some row
      → r ≡ (ok (row.decision_id, row.order, false), t)
      → Outcome d o key t r
  recorded :
      IsFree o key t
      → r ≡ (ok (t.last_id + 1, o, true), approved_tables d o key t)
      → Outcome d o key t r

read-Outcome :
    (d : Decision) (o : WorkOrder) (key : String) (t : Tables) (row : WorkOrderRow)
    (m : Result WorkOrder)
    → approval_checks d o key ≡ ok tt
    → find (for_batch d.customer_id d.batch_id) t.work_orders ≡ some row
    → validate row.order ≡ m
    → Outcome d o key t (((m >>= λ old. ok (some (row.decision_id, old))) >>= existing_approval), t)
read-Outcome d o key t row (err e) passes found h = refused e refl
read-Outcome d o key t row (ok old) passes found h =
    known row passes found (rw (validate-same row.order old h) refl)

replayed-Outcome :
    (d : Decision) (o : WorkOrder) (key : String) (t : Tables)
    → approval_checks d o key ≡ ok tt
    → Outcome d o key t ((approval_for_batch d.customer_id d.batch_id t >>= existing_approval), t)
unfolding approval_for_batch
replayed-Outcome d o key t passes =
    elim (Option-cases (find (for_batch d.customer_id d.batch_id) t.work_orders)) [
      | inl e ↦ rw (◌>>=◌, e) (refused integrity_error refl)
      | inr (row, e) ↦ rw (◌>>=◌, e) (read-Outcome d o key t row (validate row.order) passes e refl)
    ]

ended-Outcome :
    (d : Decision) (o : WorkOrder) (key : String) (t : Tables) (m : Result Tables)
    → approval_checks d o key ≡ ok tt
    → approve d o key t ≡ m
    → Outcome d o key t (approval_outcome d o t m)
ended-Outcome d o key t (err e) passes h = replayed-Outcome d o key t passes
ended-Outcome d o key t (ok t') passes h =
    let (free, same) = approve-eq-ok d o key t h in recorded free (rw same)

checked-Outcome :
    (d : Decision) (o : WorkOrder) (key : String) (t : Tables) (m : Result (Unit {0}))
    → approval_checks d o key ≡ m
    → Outcome d o key t (checked_approval d o key t m)
checked-Outcome d o key t (err e) h = refused e refl
checked-Outcome d o key t (ok tt) h = ended-Outcome d o key t (approve d o key t) h refl

-- `record_approval` is atomic. It fails, or, past its checks, reports the work order that is stored for
-- the decision's customer and batch with the id of that order's decision, and leaves both tables as
-- they were; or it reports a new one and has added exactly one decision, which carries the
-- idempotency key, and one work order, which refers to that decision; the new rows are then in
-- conflict with no row that was there.
pub record_approval-Outcome :
    (d : Decision) (o : WorkOrder) (key : String) (t : Tables)
    → Outcome d o key t (record_approval d o key t)
unfolding record_approval
record_approval-Outcome d o key t = checked-Outcome d o key t (approval_checks d o key) refl

-- `record_approval` keeps the constraints of the tables, whatever the call ends in.
-- The order is valid and not completed.
pub record_approval-IsSound :
    (d : Decision) (o : WorkOrder) (key : String) (t : Tables)
    → IsSound t
    → IsValid o
    → is_completed o.status ≡ false
    → IsSound (record_approval d o key t).1
record_approval-IsSound d o key t s v p = elim (record_approval-Outcome d o key t) [
  | refused e h ↦ rw h s
  | known row passes found h ↦ rw h s
  | recorded f h ↦ rw h (approved_tables-IsSound d o key t s v p f)
]

blocked :
    (d : Decision) (o : WorkOrder) (key : String) (t : Tables)
    → contains (for_batch o.customer_id o.batch_id) t.work_orders ≡ true
    → (e : Error) × (approve d o key t ≡ err e)
unfolding approve
blocked d o key t h = (integrity_error, ground arith)

-- A call that passes the checks, for a batch that already has a work order, adds nothing and reports
-- that order and its decision.
-- The stored order is valid.
pub record_approval-existing :
    (d : Decision) (o : WorkOrder) (key : String) (t : Tables) {r : WorkOrderRow}
    → approval_checks d o key ≡ ok tt
    → find (for_batch o.customer_id o.batch_id) t.work_orders ≡ some r
    → IsValid r.order
    → record_approval d o key t ≡ (ok (r.decision_id, r.order, false), t)
unfolding record_approval approval_checks approval_for_batch
record_approval-existing d o key t {r} c h v =
    let (e, stop) =
      blocked d o key t (contains-find (for_batch o.customer_id o.batch_id) t.work_orders h) in
    ground (arith, eq_iff d.customer_id o.customer_id, eq_iff d.batch_id o.batch_id)

reported :
    {x : Result (ℕ × WorkOrder × Bool) × Tables} {a b : ℕ} {o : WorkOrder} {s s' : Tables}
    → x ≡ (ok (a, o, true), s)
    → x ≡ (ok (b, o, true), s')
    → (a ≡ b) × (s ≡ s')
reported h k = (cc, cc)

find_new :
    (d : Decision) (o : WorkOrder) (key : String) (t : Tables)
    → IsFree o key t
    → find (for_batch o.customer_id o.batch_id) (approved_tables d o key t).work_orders
      ≡ some (record { decision_id = t.last_id + 1; order = fresh_columns o })
unfolding find
find_new d o key t f =
    find-append_none (for_batch o.customer_id o.batch_id) t.work_orders _
      (find-contains-false (for_batch o.customer_id o.batch_id) t.work_orders f.batch_free)
    ∙ rw (eq_refl o.customer_id, eq_refl o.batch_id)

-- After an approval was recorded, every further approval of the same customer and batch that passes
-- the checks, whatever its decision, order and key, changes nothing and reports the decision and the
-- order that were recorded first.
-- The order of the first call is valid and not completed, and the later call passes the checks.
pub record_approval-again :
    (d : Decision) (o : WorkOrder) (key : String) (t : Tables) {id : ℕ} {t' : Tables}
    → IsValid o
    → is_completed o.status ≡ false
    → record_approval d o key t ≡ (ok (id, o, true), t')
    → (d2 : Decision) (o2 : WorkOrder) (key2 : String) → approval_checks d2 o2 key2 ≡ ok tt
    → o2.customer_id ≡ o.customer_id
    → o2.batch_id ≡ o.batch_id
    → record_approval d2 o2 key2 t' ≡ (ok (id, fresh_columns o, false), t')
record_approval-again d o key t {id} {t'} v p first d2 o2 key2 c same_customer same_batch =
    elim (record_approval-Outcome d o key t) [
      | refused e h ↦ absurd (cc (first, h))
      | known row passes found h ↦ absurd (cc (first, h))
      | recorded f h ↦
          (let found : find (for_batch o2.customer_id o2.batch_id)
                  (approved_tables d o key t).work_orders
                ≡ some (record { decision_id = t.last_id + 1; order = fresh_columns o }) =
              rw (same_customer, same_batch) (find_new d o key t f) in
            let again =
              record_approval-existing d2 o2 key2 (approved_tables d o key t) c found
                (fresh_columns-IsValid o v p) in
            let (same_id, same_tables) = reported h first in rw (← same_id, ← same_tables) again)
    ]
