-- ===== src/TaskQueue/Claiming.antt =====
-- What `claim` of src/task_queue.py returns, and what it leaves of every task.
use mathlib.Core.Option
use shelf_life_copilot.Prelude.{
  ℕ, String, ◌≡◌, ◌≢◌, refl, sym, ◌∙◌, inl, inr, Bool, true, false, Option, none, some,
  if◌then◌else◌, eq_iff, eq_refl, Bool-cases,
}
use shelf_life_copilot.Prelude.Table.{All, find, update_where, find-update_where, find_sound}
use shelf_life_copilot.Prelude.Distinct.{Distinct-update_where}
use shelf_life_copilot.TaskQueue.{
  TaskRow, Queue, QueuedTask, has_task_id, is_ready, is_stale, requeue_row, requeue_stale,
  next_ready, take_ready, start_row, claimed_task, claim_at, complete_row, fail_row,
}
use shelf_life_copilot.TaskQueue.Selection.{
  IsKeyed, IsOldest, tasks_conflict, next_ready-is_ready, next_ready-found, next_ready-IsOldest,
  next_ready-none,
}

-- The row of a task.
unfoldable pub lookup : String → Queue → Option TaskRow
lookup id q = find (has_task_id id) q

-- Every UPDATE of the queue leaves the identity of a task and its dedupe key alone.
pub record KeepsTask (f : TaskRow → TaskRow) : Type 0 where
  pub id : (r : TaskRow) → (f r).task_id ≡ r.task_id
  pub key : (r : TaskRow) → (f r).dedupe_key ≡ r.dedupe_key

module _ (p : TaskRow → Bool) (f : TaskRow → TaskRow) (k : KeepsTask f) where
  pub lookup-update :
      (id : String) (q : Queue)
      → lookup id (update_where p f q) ≡ Option.map (λ r. if p r then f r else r) (lookup id q)
  unfolding lookup
  lookup-update id = find-update_where (has_task_id id) p f (λ r. rw (k.id r))

  pub update-IsKeyed : (q : Queue) → IsKeyed q → IsKeyed (update_where p f q)
  update-IsKeyed =
      Distinct-update_where tasks_conflict p f (λ a b. simp (k.id b, k.key b))
        (λ a b. simp (k.id a, k.key a))

pub keeps_requeue : (now : ℕ) → KeepsTask (requeue_row now)
keeps_requeue now = record { id = λ r. refl; key = λ r. refl }

pub keeps_start : (now : ℕ) → KeepsTask (start_row now)
keeps_start now = record { id = λ r. refl; key = λ r. refl }

pub keeps_complete : (now : ℕ) → KeepsTask (complete_row now)
keeps_complete now = record { id = λ r. refl; key = λ r. refl }

pub keeps_fail : (retry : Bool) (at : ℕ) (e : String) → KeepsTask (fail_row retry at e)
keeps_fail retry at e = record { id = λ r. refl; key = λ r. refl }

pub lookup-task_id : (id : String) (q : Queue) {r : TaskRow} → lookup id q ≡ some r → r.task_id ≡ id
unfolding lookup
lookup-task_id id q {r} h = (eq_iff r.task_id id).0 (find_sound (has_task_id id) q h)

-- What a claim does, seen through `lookup`.
pub data Taken (now timeout : ℕ) (q : Queue) (m : Option QueuedTask) (q' : Queue) : Type 0 where
  nothing_due :
      m ≡ none
      → q' ≡ requeue_stale now timeout q
      → All (λ s. is_ready now s ≡ false) (requeue_stale now timeout q)
      → Taken now timeout q m q'
  took :
      (r : TaskRow)
      → m ≡ some (claimed_task r)
      → lookup r.task_id (requeue_stale now timeout q) ≡ some r
      → is_ready now r ≡ true
      → IsOldest now r (requeue_stale now timeout q)
      → lookup r.task_id q' ≡ some (start_row now r)
      → ((j : String) → j ≢ r.task_id → lookup j q' ≡ lookup j (requeue_stale now timeout q))
      → Taken now timeout q m q'

started_self :
    (now : ℕ) (r : TaskRow) (w : Queue)
    → lookup r.task_id w ≡ some r
    → lookup r.task_id (update_where (has_task_id r.task_id) (start_row now) w)
      ≡ some (start_row now r)
started_self now r w h =
    lookup-update (has_task_id r.task_id) (start_row now) (keeps_start now) r.task_id w
    ∙ rw (h, eq_refl r.task_id)

other_row :
    (now : ℕ) (r : TaskRow) (j : String) (m : Option TaskRow)
    → j ≢ r.task_id
    → ((s : TaskRow) → m ≡ some s → s.task_id ≡ j)
    → Option.map (λ s. if has_task_id r.task_id s then start_row now s else s) m ≡ m
other_row now r j none ne known = refl
other_row now r j (some s) ne known = elim (Bool-cases (has_task_id r.task_id s)) [
  | inl e ↦ absurd (ne (sym (known s refl) ∙ (eq_iff s.task_id r.task_id).0 e))
  | inr e ↦ rw e
]

started_other :
    (now : ℕ) (r : TaskRow) (w : Queue) (j : String)
    → j ≢ r.task_id
    → lookup j (update_where (has_task_id r.task_id) (start_row now) w) ≡ lookup j w
started_other now r w j ne =
    lookup-update (has_task_id r.task_id) (start_row now) (keeps_start now) j w
    ∙ other_row now r j (lookup j w) ne (λ s e. lookup-task_id j w e)

take-Taken :
    (now timeout : ℕ) (q : Queue) (m : Option TaskRow)
    → IsKeyed (requeue_stale now timeout q)
    → next_ready now (requeue_stale now timeout q) ≡ m
    → Taken now timeout q
        (take_ready now (requeue_stale now timeout q) m).0
        (take_ready now (requeue_stale now timeout q) m).1
take-Taken now timeout q none d e =
    nothing_due refl refl (next_ready-none now (requeue_stale now timeout q) e)
take-Taken now timeout q (some r) d e =
    let w = requeue_stale now timeout q in
    let found : lookup r.task_id w ≡ some r = unfold lookup in next_ready-found now w d e in
    took r refl found (next_ready-is_ready now w e) (next_ready-IsOldest now w r e)
      (started_self now r w found) (λ j. started_other now r w j)

-- A claim first makes every running task pending again whose own claim is older than the timeout.
-- Then it hands out the oldest task that is due, and marks that one alone as running, claimed now,
-- with one more attempt; or it hands out nothing, and no task is due.
-- The ids and dedupe keys of the tasks are unique before.
pub claim_at-Taken :
    (now timeout : ℕ) (q : Queue)
    → IsKeyed q
    → Taken now timeout q (claim_at now timeout q).0 (claim_at now timeout q).1
unfolding claim_at
claim_at-Taken now timeout q d =
    take-Taken now timeout q (next_ready now (requeue_stale now timeout q))
      (update-IsKeyed (is_stale now timeout) (requeue_row now) (keeps_requeue now) q d) refl
