-- ===== src/TaskQueue/Postgres.antt =====
-- `PostgresTaskQueue` (src/task_queue.py) on the same table. A method is one transaction, and a rollback
-- leaves the rows before it. The payload, stored as `jsonb`, stands for its text.
pub mod Same
pub mod Locks
use shelf_life_copilot.Prelude.{
  ℕ, ◌+◌, ◌^◌, min, String, Bool, true, false, ◌&&◌, not, Option, none, some, List, [], ◌∷◌, ◌++◌,
  DateTime, seconds, Result, ok, err, value_error, assertion_error, integrity_error, ◌==◌, nat_eq,
  ltb, if◌then◌else◌,
}
use shelf_life_copilot.Prelude.Table.{find, contains, update_where, count_where}
use shelf_life_copilot.TaskQueue.{
  TaskRow, Queue, QueuedTask, TaskStatus, pending, running, failed, completed, has_task_id,
  has_dedupe_key, is_stale, is_ready, is_active, sorts_before, status_eq, truncate,
}

-- the row that the INSERT of `enqueue` writes
abbrev pub inserted : String → String → String → String → String → ℕ → TaskRow
inserted id kind customer payload key now = record {
  task_id = id;
  task_kind = kind;
  customer_id = customer;
  payload_json = payload;
  status = pending;
  attempts = 0;
  available_at = now;
  created_at = now;
  claimed_at = none;
  completed_at = none;
  last_error = none;
  dedupe_key = key;
}

abbrev pub existing : Option TaskRow → Result (String × Bool)
existing none = err assertion_error
existing (some r) = ok (r.task_id, false)

-- `enqueue`; only a conflict of the dedupe key is passed over, another one raises
unfoldable pub enqueue :
    String → String → String → String → String → DateTime → Queue → Result (String × Bool) × Queue
enqueue id kind customer payload key now q =
    if not now.tz
    then (err value_error, q)
    else (if contains (has_dedupe_key key) q
        then (existing (find (has_dedupe_key key) q), q)
        else (if contains (has_task_id id) q
            then (err integrity_error, q)
            else (ok (id, true), q ++ inserted id kind customer payload key now.instant ∷ [])))

-- the first UPDATE of `claim`
unfoldable pub requeue : ℕ → ℕ → Queue → Queue
requeue now timeout q =
    update_where (is_stale now timeout)
      (λ r. record r { status = pending; available_at = now; claimed_at = none }) q

abbrev pub is_locked : List String → TaskRow → Bool
is_locked locked r = contains (λ id. r.task_id == id) locked

abbrev pub first_of : TaskRow → Option TaskRow → TaskRow
first_of r none = r
first_of r (some s) = if sorts_before s r then s else r

-- ORDER BY created_at, task_id LIMIT 1 FOR UPDATE SKIP LOCKED, where other transactions hold the locks of
-- the rows of `locked`
unfoldable pub next_unlocked : List String → ℕ → Queue → Option TaskRow
next_unlocked locked now [] = none
next_unlocked locked now (r ∷ q) =
    let rest = next_unlocked locked now q in
    if is_ready now r && not (is_locked locked r) then some (first_of r rest) else rest

abbrev pub handed : ℕ → Queue → Option TaskRow → Option QueuedTask × Queue
handed now q none = (none, q)
handed now q (some r) = (
  some (record {
    task_id = r.task_id;
    task_kind = r.task_kind;
    customer_id = r.customer_id;
    payload_json = r.payload_json;
    status = running;
    attempts = r.attempts + 1;
  }),
  update_where (has_task_id r.task_id)
      (λ s. record s { status = running; attempts = s.attempts + 1; claimed_at = some now }) q,
)

-- the transaction of `claim`
unfoldable pub claim_unlocked : List String → ℕ → ℕ → Queue → Option QueuedTask × Queue
unfolding requeue
claim_unlocked locked now timeout q =
    let waiting = requeue now timeout q in handed now waiting (next_unlocked locked now waiting)

abbrev pub handed_out : Option QueuedTask × Queue → Result (Option QueuedTask) × Queue
handed_out (task, q) = (ok task, q)

-- `claim`
unfoldable pub claim : List String → DateTime → ℕ → Queue → Result (Option QueuedTask) × Queue
claim locked now timeout q =
    if not now.tz
    then (err value_error, q)
    else (if ltb 0 timeout
        then handed_out (claim_unlocked locked now.instant timeout q)
        else (err value_error, q))

-- `complete`, which rolls back when it has not hit one row
unfoldable pub complete : String → ℕ → Queue → Result (Unit {0}) × Queue
complete id now q =
    if nat_eq (count_where (is_active id) q) 1
    then (
      ok tt,
      update_where (is_active id) (λ r. record r { status = completed; completed_at = some now }) q,
    )
    else (err value_error, q)

-- `fail`
unfoldable pub fail : QueuedTask → String → ℕ → ℕ → Queue → Queue
fail task error max_attempts now q =
    let retry = ltb task.attempts max_attempts in
    update_where (is_active task.task_id)
      (λ r. record r {
        status = if retry then pending else failed;
        available_at = now + seconds (min 60 (2 ^ task.attempts));
        last_error = some (truncate 500 error);
      })
      q

-- `counts`
unfoldable pub counts : Queue → TaskStatus → ℕ
counts q s = count_where (λ r. status_eq r.status s) q
