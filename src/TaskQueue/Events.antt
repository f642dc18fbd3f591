-- ===== src/TaskQueue/Events.antt =====
-- Any sequence of calls of the queue (src/task_queue.py), by any workers and publishers.
use shelf_life_copilot.Prelude.{
  ℕ, String, ◌≡◌, inl, inr, ◌⊎◌, Bool, false, ◌||◌, Option, none, some, List, [], ◌∷◌, ltb, min,
  ◌^◌, ◌+◌, arith, Bool-cases, DateTime, seconds,
}
use shelf_life_copilot.Prelude.Table.{All, contains, find-append_some}
use shelf_life_copilot.Prelude.Distinct.{Distinct-append, All-contains-false}
use shelf_life_copilot.TaskQueue.{
  TaskRow, Queue, QueuedTask, has_task_id, has_dedupe_key, claim_at, claim, complete, fail, enqueue,
  new_task, is_active, is_stale, complete_row, fail_row, requeue_row, start_row, requeue_stale,
  next_ready, take_ready,
}
use shelf_life_copilot.TaskQueue.Selection.{IsKeyed, tasks_conflict}
use shelf_life_copilot.TaskQueue.Claiming.{
  lookup, update-IsKeyed, keeps_complete, keeps_fail, keeps_requeue, keeps_start,
}

pub data Event : Type 0 where
  enqueued : (id kind customer payload key : String) → DateTime → Event
  claimed : DateTime → ℕ → Event
  completed : (id : String) → ℕ → Event
  failed : QueuedTask → (error : String) (max_attempts now : ℕ) → Event

unfoldable pub apply : Event → Queue → Queue
apply (enqueued id kind customer payload key now) q = (enqueue id kind customer payload key now q).1
apply (claimed now timeout) q = (claim now timeout q).1
apply (completed id now) q = (complete id now q).1
apply (failed task error max_attempts now) q = fail task error max_attempts now q

unfoldable pub run : List Event → Queue → Queue
unfolding apply
run [] q = q
run (e ∷ es) q = run es (apply e q)

-- what `claim` leaves, whatever it hands out
pub claim-queue :
    (now : DateTime) (timeout : ℕ) (q : Queue)
    → ((claim now timeout q).1 ≡ q) ⊎ ((claim now timeout q).1 ≡ (claim_at now.instant timeout q).1)
unfolding claim
claim-queue now timeout q = ground arith

take-IsKeyed :
    (now : ℕ) (w : Queue) (m : Option TaskRow) → IsKeyed w → IsKeyed (take_ready now w m).1
take-IsKeyed now w none d = d
take-IsKeyed now w (some r) d =
    update-IsKeyed (has_task_id r.task_id) (start_row now) (keeps_start now) w d

pub claim_at-IsKeyed :
    (now timeout : ℕ) (q : Queue) → IsKeyed q → IsKeyed (claim_at now timeout q).1
unfolding claim_at
claim_at-IsKeyed now timeout q d =
    take-IsKeyed now (requeue_stale now timeout q) (next_ready now (requeue_stale now timeout q))
      (update-IsKeyed (is_stale now timeout) (requeue_row now) (keeps_requeue now) q d)

or_false : (a b : Bool) → (a || b) ≡ false → (a ≡ false) × (b ≡ false)
or_false a b h = (ground arith, ground arith)

free_task :
    (id kind customer payload key : String) (now : ℕ) (q : Queue)
    → All (λ r. has_task_id id r ≡ false) q
    → All (λ r. has_dedupe_key key r ≡ false) q
    → All (λ r. tasks_conflict r (new_task id kind customer payload key now) ≡ false) q
free_task id kind customer payload key now [] a b = tt
free_task id kind customer payload key now (r ∷ q) a b =
    (ground arith, free_task id kind customer payload key now q a.1 b.1)

enqueue-IsKeyed :
    (id kind customer payload key : String) (now : DateTime) (q : Queue)
    → IsKeyed q
    → IsKeyed (enqueue id kind customer payload key now q).1
unfolding enqueue
enqueue-IsKeyed id kind customer payload key now q d = elim (Bool-cases now.tz) [
  | inr naive ↦ rw naive d
  | inl aware ↦ elim (Bool-cases (contains (has_task_id id) q || contains (has_dedupe_key key) q)) [
    | inl taken ↦ rw (aware, taken) d
    | inr new ↦
        (let (a, b) =
            or_false (contains (has_task_id id) q) (contains (has_dedupe_key key) q) new in
          rw (aware, new)
            (Distinct-append tasks_conflict q (new_task id kind customer payload key now.instant) d
              (free_task id kind customer payload key now.instant q
                (All-contains-false (has_task_id id) q a)
                (All-contains-false (has_dedupe_key key) q b))))
  ]
]

claim-IsKeyed :
    (now : DateTime) (timeout : ℕ) (q : Queue) → IsKeyed q → IsKeyed (claim now timeout q).1
claim-IsKeyed now timeout q d = elim (claim-queue now timeout q) [
  | inl e ↦ rw e d
  | inr e ↦ rw e (claim_at-IsKeyed now.instant timeout q d)
]

-- Every call keeps the task ids and the dedupe keys unique.
pub apply-IsKeyed : (e : Event) (q : Queue) → IsKeyed q → IsKeyed (apply e q)
unfolding apply complete fail
apply-IsKeyed (enqueued id kind customer payload key now) q d =
    enqueue-IsKeyed id kind customer payload key now q d
apply-IsKeyed (claimed now timeout) q d = claim-IsKeyed now timeout q d
apply-IsKeyed (completed id now) q d =
    update-IsKeyed (is_active id) (complete_row now) (keeps_complete now) q d
apply-IsKeyed (failed task error max_attempts now) q d =
    update-IsKeyed (is_active task.task_id)
      (fail_row (ltb task.attempts max_attempts) (now + seconds (min 60 (2 ^ task.attempts))) error)
      (keeps_fail _ _ _) q d

-- A task that is there stays in its place when another one is added.
pub lookup-enqueue :
    (id kind customer payload key j : String) (now : DateTime) (q : Queue) {r : TaskRow}
    → lookup j q ≡ some r
    → lookup j (enqueue id kind customer payload key now q).1 ≡ some r
unfolding enqueue lookup
lookup-enqueue id kind customer payload key j now q h = elim (Bool-cases now.tz) [
  | inr naive ↦ rw naive h
  | inl aware ↦ elim (Bool-cases (contains (has_task_id id) q || contains (has_dedupe_key key) q)) [
    | inl taken ↦ rw (aware, taken) h
    | inr new ↦
        rw (aware, new)
          (find-append_some (has_task_id j) q
            (new_task id kind customer payload key now.instant ∷ []) h)
  ]
]
