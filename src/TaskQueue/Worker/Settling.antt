-- ===== src/TaskQueue/Worker/Settling.antt =====
-- What a worker of src/task_queue.py makes of the task that it was handed.
use mathlib.Core.Option
use shelf_life_copilot.Prelude.{
  ◌≢◌, sym, inl, inr, Bool, false, Option, none, Bool-cases, Result, ℕ, String, ◌≡◌, refl, ◌∙◌,
  true, some, arith, seconds, if◌then◌else◌, ltb, min, ◌^◌, ◌+◌, eq_iff, ok, err, value_error,
}
use shelf_life_copilot.Prelude.Table.{find, update_where}
use shelf_life_copilot.Prelude.Keys.{count_where_unique, update_where-none}
use shelf_life_copilot.TaskQueue.{
  TaskRow, Queue, QueuedTask, is_running, complete, fail, is_active, has_task_id, complete_row,
  fail_row,
}
use shelf_life_copilot.TaskQueue.Selection.{IsKeyed, tasks_conflict, same_task}
use shelf_life_copilot.TaskQueue.Claiming.{
  KeepsTask, lookup, lookup-update, lookup-task_id, keeps_complete, keeps_fail,
}
use shelf_life_copilot.TaskQueue.Worker.{Work, attempt, settle, settle_with}

active_has_id : (id : String) (a : TaskRow) → is_active id a ≡ true → has_task_id id a ≡ true
active_has_id id a h = ground arith

-- the row of a task whose attempt has failed: pending again after a delay that doubles with the attempts
-- and is a minute at most, or failed for good once they are used up
abbrev pub failed_row : QueuedTask → String → ℕ → ℕ → TaskRow → TaskRow
failed_row task error max_attempts now =
    fail_row (ltb task.attempts max_attempts) (now + seconds (min 60 (2 ^ task.attempts))) error

-- `complete` succeeds exactly if the row of the task is running.
pub complete-answer :
    (id : String) (now : ℕ) (q : Queue) {r : TaskRow}
    → IsKeyed q
    → lookup id q ≡ some r
    → (complete id now q).0 ≡ (if is_running r.status then ok tt else err value_error)
unfolding complete
complete-answer id now q {r} d h =
    let found : find (has_task_id id) q ≡ some r = unfold lookup in h in
    rw
      (count_where_unique tasks_conflict (has_task_id id) (is_active id) (same_task id)
        (active_has_id id) q d)
      (rw found (ground (arith, (eq_iff r.task_id id).1 (lookup-task_id id q h))))

active_self : (id : String) (r : TaskRow) → r.task_id ≡ id → is_active id r ≡ is_running r.status
active_self id r same = ground (arith, (eq_iff r.task_id id).1 same)

pub lookup-complete :
    (id : String) (now : ℕ) (q : Queue) {r : TaskRow}
    → lookup id q ≡ some r
    → lookup id (complete id now q).1 ≡ some (if is_running r.status then complete_row now r else r)
unfolding complete
lookup-complete id now q {r} h =
    lookup-update (is_active id) (complete_row now) (keeps_complete now) id q
    ∙ rw (h, active_self id r (lookup-task_id id q h))

lookup-fail :
    (task : QueuedTask) (error : String) (max_attempts now : ℕ) (q : Queue) {r : TaskRow}
    → lookup task.task_id q ≡ some r
    → lookup task.task_id (fail task error max_attempts now q)
      ≡ some (if is_running r.status then failed_row task error max_attempts now r else r)
unfolding fail
lookup-fail task error max_attempts now q {r} h =
    lookup-update (is_active task.task_id) (failed_row task error max_attempts now)
      (keeps_fail _ _ _) task.task_id q
    ∙ rw (h, active_self task.task_id r (lookup-task_id task.task_id q h))

other_row :
    (id j : String) (f : TaskRow → TaskRow) (m : Option TaskRow)
    → j ≢ id
    → ((s : TaskRow) → m ≡ some s → s.task_id ≡ j)
    → Option.map (λ s. if is_active id s then f s else s) m ≡ m
other_row id j f none ne same = refl
other_row id j f (some s) ne same = elim (Bool-cases (is_active id s)) [
  | inl e ↦ absurd (ne (sym (same s refl) ∙ (eq_iff s.task_id id).0 (active_has_id id s e)))
  | inr e ↦ rw e
]

lookup_other :
    (id j : String) (f : TaskRow → TaskRow) (k : KeepsTask f) (q : Queue)
    → j ≢ id
    → lookup j (update_where (is_active id) f q) ≡ lookup j q
lookup_other id j f k q ne =
    lookup-update (is_active id) f k j q
    ∙ other_row id j f (lookup j q) ne (λ s e. lookup-task_id j q e)

-- no row is hit when the task's row is not running
none_active :
    (id : String) (f : TaskRow → TaskRow) (q : Queue) {r : TaskRow}
    → IsKeyed q
    → lookup id q ≡ some r
    → is_running r.status ≡ false
    → update_where (is_active id) f q ≡ q
none_active id f q {r} d h stopped =
    let found : find (has_task_id id) q ≡ some r = unfold lookup in h in
    update_where-none (is_active id) f q (
      count_where_unique tasks_conflict (has_task_id id) (is_active id) (same_task id)
        (active_has_id id) q d
      ∙ rw (found, active_self id r (lookup-task_id id q h), stopped))

-- What the end of a round makes of the queue, by how the scan has ended: the answer and the task's row.
abbrev pub IsAnswered :
    Work → ℕ → ℕ → QueuedTask → TaskRow → Result (Unit {0}) → Result Bool × Queue → Type 0
IsAnswered w max_attempts now task r (ok _) (answer, q') =
    (answer ≡ (if is_running r.status then ok true else err value_error))
    × (lookup task.task_id q' ≡ some (if is_running r.status then complete_row now r else r))
IsAnswered w max_attempts now task r (err e) (answer, q') =
    (answer ≡ ok true)
    × (lookup task.task_id q'
        ≡ some
            (if is_running r.status then failed_row task (w.message e) max_attempts now r else r))

pub record IsSettled (w : Work) (max_attempts now : ℕ) (task : QueuedTask) (q : Queue) (r : TaskRow)
    (x : Result Bool × Queue) : Type 0 where
  pub own : IsAnswered w max_attempts now task r (attempt w task) x
  pub others : (j : String) → j ≢ task.task_id → lookup j x.1 ≡ lookup j q
  pub no_write : is_running r.status ≡ false → x.1 ≡ q

settle_with-IsSettled :
    (w : Work) (max_attempts now : ℕ) (task : QueuedTask) (q : Queue) {r : TaskRow}
    (m : Result (Unit {0}))
    → IsKeyed q
    → lookup task.task_id q ≡ some r
    → let x = settle_with w max_attempts task now q m in
      IsAnswered w max_attempts now task r m x
      × ((j : String) → j ≢ task.task_id → lookup j x.1 ≡ lookup j q)
      × (is_running r.status ≡ false → x.1 ≡ q)
settle_with-IsSettled w max_attempts now task q {r} (ok _) d h = (
  (
    rw (complete-answer task.task_id now q d h) (ground arith),
    lookup-complete task.task_id now q h,
  ),
  λ j ne.
      unfold complete in lookup_other task.task_id j (complete_row now) (keeps_complete now) q ne,
  λ stopped. unfold complete in none_active task.task_id (complete_row now) q d h stopped,
)
settle_with-IsSettled w max_attempts now task q {r} (err e) d h = (
  (refl, lookup-fail task (w.message e) max_attempts now q h),
  λ j ne.
      unfold fail in
      lookup_other task.task_id j (failed_row task (w.message e) max_attempts now)
        (keeps_fail _ _ _) q ne,
  λ stopped.
      unfold fail in
      none_active task.task_id (failed_row task (w.message e) max_attempts now) q d h stopped,
)

-- What a round makes of the queue once the scan of its task has ended. When the scan has succeeded and
-- the task still runs, the task is completed; when the scan has failed and the task still runs, the
-- task gets the row of a failed attempt, and the round goes on. When the task no longer runs, since the
-- timeout has passed and it was made pending again or ended by another worker, no row of the queue
-- changes, and after a scan that has succeeded the round itself raises ValueError. No other task's row
-- ever changes. The ids and dedupe keys of the tasks are unique before.
pub settle-IsSettled :
    (w : Work) (max_attempts now : ℕ) (task : QueuedTask) (q : Queue) {r : TaskRow}
    → IsKeyed q
    → lookup task.task_id q ≡ some r
    → IsSettled w max_attempts now task q r (settle w max_attempts task now q)
unfolding settle
settle-IsSettled w max_attempts now task q d h =
    let (own, others, no_write) =
      settle_with-IsSettled w max_attempts now task q (attempt w task) d h in
    record { own = own; others = others; no_write = no_write }
