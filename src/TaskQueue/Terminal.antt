-- ===== src/TaskQueue/Terminal.antt =====
-- Completed and failed tasks of src/task_queue.py stay as they are.
use mathlib.Core.Option
use mathlib.Core.Path.{subst}
use shelf_life_copilot.Prelude.{
  ℕ, String, ◌≡◌, ◌≢◌, sym, ◌∙◌, inl, inr, ◌⊎◌, Bool, true, false, some, List, [], ◌∷◌, arith,
  DateTime, seconds, if◌then◌else◌, ltb, min, ◌^◌, ◌+◌,
}
use shelf_life_copilot.TaskQueue.{
  TaskRow, Queue, is_running, is_pending, claim_at, claim, complete, fail, completed, failed,
  is_active, is_stale, is_ready, complete_row, fail_row, requeue_row, requeue_stale,
}
use shelf_life_copilot.TaskQueue.Selection.{IsKeyed}
use shelf_life_copilot.TaskQueue.Claiming.{
  lookup, lookup-update, keeps_complete, keeps_fail, keeps_requeue, nothing_due, took,
  claim_at-Taken, KeepsTask,
}
use shelf_life_copilot.TaskQueue.Events.{
  Event, enqueued, claimed, apply, run, apply-IsKeyed, claim-queue, lookup-enqueue,
}

abbrev pub IsFinal : TaskRow → Type 0
IsFinal r = (r.status ≡ completed) ⊎ (r.status ≡ failed)

-- an UPDATE whose WHERE clause a row fails
pub lookup-untouched :
    (p : TaskRow → Bool) (f : TaskRow → TaskRow) (k : KeepsTask f) (id : String) (q : Queue)
    {r : TaskRow}
    → lookup id q ≡ some r
    → p r ≡ false
    → Option.map (λ r. if p r then f r else r) (lookup id q) ≡ some r
lookup-untouched p f k id q h e = rw (h, e)

not_due :
    (now : ℕ) (r s : TaskRow)
    → is_pending r.status ≡ false
    → is_ready now s ≡ true
    → some r ≡ some s
    → ⊥
not_due now r s busy due same = ground arith

-- A row that is not stale is as it was after the first UPDATE of a claim.
pub requeue-untouched :
    (now timeout : ℕ) (id : String) (q : Queue) {r : TaskRow}
    → lookup id q ≡ some r
    → is_stale now timeout r ≡ false
    → lookup id (requeue_stale now timeout q) ≡ some r
unfolding requeue_stale
requeue-untouched now timeout id q h fresh =
    lookup-update (is_stale now timeout) (requeue_row now) (keeps_requeue now) id q
    ∙ lookup-untouched (is_stale now timeout) (requeue_row now) (keeps_requeue now) id q h fresh

-- A row that is neither stale nor pending is not the one that is handed out.
pub not_taken :
    (now timeout : ℕ) (id : String) (q : Queue) {r s : TaskRow}
    → lookup id q ≡ some r
    → is_stale now timeout r ≡ false
    → is_pending r.status ≡ false
    → lookup s.task_id (requeue_stale now timeout q) ≡ some s
    → is_ready now s ≡ true
    → id ≢ s.task_id
not_taken now timeout id q {r} {s} h fresh busy found due e = not_due now r s busy due (
    sym (requeue-untouched now timeout id q h fresh)
    ∙ subst (λ x. lookup x (requeue_stale now timeout q) ≡ some s) (sym e) found)

-- `claim_at` leaves a row alone that is neither stale nor pending.
pub claim_at-untouched :
    (now timeout : ℕ) (id : String) (q : Queue) {r : TaskRow}
    → IsKeyed q
    → lookup id q ≡ some r
    → is_stale now timeout r ≡ false
    → is_pending r.status ≡ false
    → lookup id (claim_at now timeout q).1 ≡ some r
claim_at-untouched now timeout id q {r} d h fresh busy = elim (claim_at-Taken now timeout q d) [
  | nothing_due _ same _ ↦ rw same (requeue-untouched now timeout id q h fresh)
  | took s _ found due _ _ others ↦
      others id (not_taken now timeout id q h fresh busy found due)
      ∙ requeue-untouched now timeout id q h fresh
]

pub claim-untouched :
    (now : DateTime) (timeout : ℕ) (id : String) (q : Queue) {r : TaskRow}
    → IsKeyed q
    → lookup id q ≡ some r
    → is_stale now.instant timeout r ≡ false
    → is_pending r.status ≡ false
    → lookup id (claim now timeout q).1 ≡ some r
claim-untouched now timeout id q d h fresh busy = elim (claim-queue now timeout q) [
  | inl e ↦ rw e h
  | inr e ↦ rw e (claim_at-untouched now.instant timeout id q d h fresh busy)
]

final_not_running :
    (r : TaskRow) → IsFinal r → (is_running r.status ≡ false) × (is_pending r.status ≡ false)
final_not_running r f = (ground arith, ground arith)

apply_keeps_final :
    (e : Event) (id : String) (q : Queue) {r : TaskRow}
    → IsKeyed q
    → lookup id q ≡ some r
    → IsFinal r
    → lookup id (apply e q) ≡ some r
unfolding apply complete fail
apply_keeps_final (enqueued i kind customer payload key now) id q d h f =
    lookup-enqueue i kind customer payload key id now q h
apply_keeps_final (claimed now timeout) id q {r} d h f =
    let (still, busy) = final_not_running r f in
    claim-untouched now timeout id q d h (ground arith) busy
apply_keeps_final (Event.completed j now) id q {r} d h f =
    let (still, busy) = final_not_running r f in
    lookup-update (is_active j) (complete_row now) (keeps_complete now) id q
    ∙ lookup-untouched (is_active j) (complete_row now) (keeps_complete now) id q h (ground arith)
apply_keeps_final (Event.failed task error max_attempts now) id q {r} d h f =
    let (still, busy) = final_not_running r f in
    let row =
      fail_row (ltb task.attempts max_attempts) (now + seconds (min 60 (2 ^ task.attempts)))
        error in
    lookup-update (is_active task.task_id) row (keeps_fail _ _ _) id q
    ∙ lookup-untouched (is_active task.task_id) row (keeps_fail _ _ _) id q h (ground arith)

-- A task that is completed or failed is never run, changed or removed again, whatever calls of the
-- queue follow.
-- The ids and dedupe keys of the tasks are unique before.
pub run_keeps_final :
    (es : List Event) (id : String) (q : Queue) {r : TaskRow}
    → IsKeyed q
    → lookup id q ≡ some r
    → IsFinal r
    → lookup id (run es q) ≡ some r
unfolding run
run_keeps_final [] id q d h f = h
run_keeps_final (e ∷ es) id q d h f =
    run_keeps_final es id (apply e q) (apply-IsKeyed e q d) (apply_keeps_final e id q d h f) f
