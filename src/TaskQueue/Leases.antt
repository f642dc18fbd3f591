-- ===== src/TaskQueue/Leases.antt =====
-- A claimed task of src/task_queue.py belongs to its worker until the visibility timeout has passed.
use mathlib.Core.Path.{subst}
use shelf_life_copilot.Prelude.{
  ℕ, String, ◌≡◌, ◌≢◌, ◌<◌, refl, sym, ◌∙◌, ap, false, some, List, [], ◌∷◌, arith, seconds, ltb,
  min, ◌^◌, ◌+◌, ◌==◌, eq_iff,
}
use shelf_life_copilot.Prelude.Table.{All}
use shelf_life_copilot.TaskQueue.{
  TaskRow, Queue, QueuedTask, is_pending, claim_at, complete, fail, running, is_active, is_stale,
  complete_row, fail_row, start_row,
}
use shelf_life_copilot.TaskQueue.Selection.{IsKeyed}
use shelf_life_copilot.TaskQueue.Claiming.{
  lookup, lookup-update, lookup-task_id, keeps_complete, keeps_fail, nothing_due, took,
  claim_at-Taken,
}
use shelf_life_copilot.TaskQueue.Events.{
  Event, enqueued, claimed, completed, failed, apply, run, apply-IsKeyed, lookup-enqueue,
  claim_at-IsKeyed,
}
use shelf_life_copilot.TaskQueue.Terminal.{lookup-untouched, claim-untouched, not_taken}

-- The calls that a holder since `t` need not fear: claims before its timeout, and reports about
-- other tasks.
abbrev pub Spares : String → ℕ → Event → Type 0
Spares id t (enqueued _ _ _ _ _ _) = Unit
Spares id t (claimed now timeout) = now.instant < t + seconds timeout
Spares id t (completed j now) = (j == id) ≡ false
Spares id t (failed task _ _ _) = (task.task_id == id) ≡ false

record IsHeld (t : ℕ) (r : TaskRow) : Type 0 where
  runs : r.status ≡ running
  since : r.claimed_at ≡ some t

held_row :
    (t now timeout : ℕ) (r : TaskRow)
    → IsHeld t r
    → now < t + seconds timeout
    → (is_stale now timeout r ≡ false) × (is_pending r.status ≡ false)
held_row t now timeout r h l = (ground arith, ground arith)

other_task :
    (id j : String) (r : TaskRow) → r.task_id ≡ id → j == id ≡ false → is_active j r ≡ false
other_task id j r same ne = ground (arith, eq_iff j id, eq_iff r.task_id j)

apply_keeps_lease :
    (e : Event) (id : String) (t : ℕ) (q : Queue) {r : TaskRow}
    → IsKeyed q
    → lookup id q ≡ some r
    → IsHeld t r
    → Spares id t e
    → lookup id (apply e q) ≡ some r
unfolding apply complete fail
apply_keeps_lease (enqueued i kind customer payload key now) id t q d h held s =
    lookup-enqueue i kind customer payload key id now q h
apply_keeps_lease (claimed now timeout) id t q {r} d h held s =
    let (fresh, busy) = held_row t now.instant timeout r held s in
    claim-untouched now timeout id q d h fresh busy
apply_keeps_lease (completed j now) id t q {r} d h held s =
    lookup-update (is_active j) (complete_row now) (keeps_complete now) id q
    ∙ lookup-untouched (is_active j) (complete_row now) (keeps_complete now) id q h
        (other_task id j r (lookup-task_id id q h) s)
apply_keeps_lease (failed task error max_attempts now) id t q {r} d h held s =
    let row =
      fail_row (ltb task.attempts max_attempts) (now + seconds (min 60 (2 ^ task.attempts)))
        error in
    lookup-update (is_active task.task_id) row (keeps_fail _ _ _) id q
    ∙ lookup-untouched (is_active task.task_id) row (keeps_fail _ _ _) id q h
        (other_task id task.task_id r (lookup-task_id id q h) s)

run_keeps_lease :
    (es : List Event) (id : String) (t : ℕ) (q : Queue) {r : TaskRow}
    → IsKeyed q
    → lookup id q ≡ some r
    → IsHeld t r
    → All (Spares id t) es
    → (lookup id (run es q) ≡ some r) × IsKeyed (run es q)
unfolding run
run_keeps_lease [] id t q d h held s = (h, d)
run_keeps_lease (e ∷ es) id t q d h held s =
    run_keeps_lease es id t (apply e q) (apply-IsKeyed e q d)
      (apply_keeps_lease e id t q d h held s.0) held s.1

-- A claim that hands out a task has marked its row as held since then.
claim_at-held :
    (now timeout : ℕ) (q : Queue) {task : QueuedTask}
    → IsKeyed q
    → (claim_at now timeout q).0 ≡ some task
    → (r : TaskRow) × (r.task_id ≡ task.task_id)
      × (lookup r.task_id (claim_at now timeout q).1 ≡ some (start_row now r))
claim_at-held now timeout q d h = elim (claim_at-Taken now timeout q d) [
  | nothing_due e _ _ ↦ absurd (cc (h, e))
  | took r e _ _ _ there _ ↦ (r, ground (arith, h, e), there)
]

-- A claim hands out no task whose row is held and whose timeout has not passed.
claim_at-spares :
    (now timeout : ℕ) (id : String) (t : ℕ) (q : Queue) {r : TaskRow} {task : QueuedTask}
    → IsKeyed q
    → lookup id q ≡ some r
    → IsHeld t r
    → now < t + seconds timeout
    → (claim_at now timeout q).0 ≡ some task
    → task.task_id ≢ id
claim_at-spares now timeout id t q {r} {task} d h held l out same =
    let (fresh, busy) = held_row t now timeout r held l in
    elim (claim_at-Taken now timeout q d) [
      | nothing_due e _ _ ↦ cc (out, e)
      | took s e found due _ _ _ ↦
          not_taken now timeout id q h fresh busy found due
            (sym same ∙ ap (λ (m : QueuedTask). m.task_id) (some-path (sym out ∙ e)))
    ]
  where
    some-path : {a b : QueuedTask} → some a ≡ some b → a ≡ b
    some-path p = cc

-- Between a claim at `t` and the end of its visibility timeout no second claim hands out the same
-- task, whatever other calls are made in between that do not report on this task: every enqueue, every
-- claim before the timeout, and every report on another task.
-- The ids and dedupe keys of the tasks are unique before.
pub lease_excludes :
    (t timeout : ℕ) (q : Queue) {task task2 : QueuedTask}
    → IsKeyed q
    → (claim_at t timeout q).0 ≡ some task
    → (es : List Event) (now timeout2 : ℕ) → All (Spares task.task_id t) es
    → now < t + seconds timeout2
    → (claim_at now timeout2 (run es (claim_at t timeout q).1)).0 ≡ some task2
    → task2.task_id ≢ task.task_id
lease_excludes t timeout q {task} {task2} d first es now timeout2 s l second =
    let (r, same, there) = claim_at-held t timeout q d first in
    let held : IsHeld t (start_row t r) = record { runs = refl; since = refl } in
    let (later, keyed) =
      run_keeps_lease es task.task_id t (claim_at t timeout q).1 (claim_at-IsKeyed t timeout q d)
        (subst (λ x. lookup x (claim_at t timeout q).1 ≡ some (start_row t r)) same there) held s in
    claim_at-spares now timeout2 task.task_id t (run es (claim_at t timeout q).1) keyed later held l
      second
