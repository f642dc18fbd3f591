-- ===== src/TaskQueue.antt =====
-- The durable task queues and their worker (src/task_queue.py). Here is DurableTaskQueue on the table
-- `task_queue`. An instant is a number of microseconds.
pub mod Worker
pub mod Postgres
pub mod Events
pub mod Selection
pub mod Claiming
pub mod Leases
pub mod Terminal
use Prim.Native.String
use text.Mathlib.Text.{is_lt}
use shelf_life_copilot.Prelude.{
  ℕ, zero, suc, ◌+◌, ◌^◌, min, String, Bool, true, false, ◌&&◌, ◌||◌, Option, none, some, List, [],
  ◌∷◌, ◌++◌, DateTime, seconds, Result, ok, err, guard, ◌>>◌, ◌>>=◌, value_error, assertion_error,
  ◌==◌, nat_eq, leb, ltb, if◌then◌else◌,
}
use shelf_life_copilot.Prelude.Table.{find, contains, update_where, count_where}

pub data TaskStatus : Type 0 where
  pending running completed failed : TaskStatus

pub record TaskRow : Type 0 where
  pub task_id : String
  pub task_kind : String
  pub customer_id : String
  pub payload_json : String
  pub status : TaskStatus
  pub attempts : ℕ
  pub available_at : ℕ
  pub created_at : ℕ
  pub claimed_at : Option ℕ
  pub completed_at : Option ℕ
  pub last_error : Option String
  pub dedupe_key : String

abbrev pub Queue : Type 0
Queue = List TaskRow

-- what `claim` hands to a worker
pub record QueuedTask : Type 0 where
  pub task_id : String
  pub task_kind : String
  pub customer_id : String
  pub payload_json : String
  pub status : TaskStatus
  pub attempts : ℕ

abbrev pub is_pending : TaskStatus → Bool
is_pending pending = true
is_pending _ = false

abbrev pub is_running : TaskStatus → Bool
is_running running = true
is_running _ = false

abbrev pub has_task_id : String → TaskRow → Bool
has_task_id id r = r.task_id == id

abbrev pub has_dedupe_key : String → TaskRow → Bool
has_dedupe_key key r = r.dedupe_key == key

abbrev pub new_task : String → String → String → String → String → ℕ → TaskRow
new_task id kind customer payload key now = record {
  task_id = id;
  task_kind = kind;
  customer_id = customer;
  payload_json = payload;
  status = pending;
  attempts = 0;
  available_at = now;
  created_at = now;
  claimed_at = none;
  completed_at = none;
  last_error = none;
  dedupe_key = key;
}

-- the SELECT after an ignored insert, with the `assert`
abbrev pub known_task : Option TaskRow → Result (String × Bool)
known_task none = err assertion_error
known_task (some r) = ok (r.task_id, false)

-- `enqueue`; the first argument is the new `uuid4`
unfoldable pub enqueue :
    String → String → String → String → String → DateTime → Queue → Result (String × Bool) × Queue
enqueue id kind customer payload key now q =
    if now.tz
    then (if contains (has_task_id id) q || contains (has_dedupe_key key) q
        then (known_task (find (has_dedupe_key key) q), q)
        else (ok (id, true), q ++ new_task id kind customer payload key now.instant ∷ []))
    else (err value_error, q)

-- claimed_at <= now - timeout
abbrev pub claimed_before : ℕ → ℕ → Option ℕ → Bool
claimed_before now timeout none = false
claimed_before now timeout (some t) = leb (t + seconds timeout) now

abbrev pub is_stale : ℕ → ℕ → TaskRow → Bool
is_stale now timeout r = is_running r.status && claimed_before now timeout r.claimed_at

abbrev pub requeue_row : ℕ → TaskRow → TaskRow
requeue_row now r = record r { status = pending; available_at = now; claimed_at = none }

-- the first UPDATE of `claim`
unfoldable pub requeue_stale : ℕ → ℕ → Queue → Queue
requeue_stale now timeout q = update_where (is_stale now timeout) (requeue_row now) q

abbrev pub is_ready : ℕ → TaskRow → Bool
is_ready now r = is_pending r.status && leb r.available_at now

-- ORDER BY created_at, task_id
abbrev pub sorts_before : TaskRow → TaskRow → Bool
sorts_before a b =
    ltb a.created_at b.created_at
    || (nat_eq a.created_at b.created_at && is_lt (String.compare a.task_id b.task_id))

abbrev pub earlier : TaskRow → Option TaskRow → TaskRow
earlier r none = r
earlier r (some s) = if sorts_before s r then s else r

-- the SELECT of `claim`
unfoldable pub next_ready : ℕ → Queue → Option TaskRow
next_ready now [] = none
next_ready now (r ∷ q) =
    let rest = next_ready now q in if is_ready now r then some (earlier r rest) else rest

abbrev pub start_row : ℕ → TaskRow → TaskRow
start_row now r = record r { status = running; attempts = r.attempts + 1; claimed_at = some now }

-- `_task_from_row`
abbrev pub claimed_task : TaskRow → QueuedTask
claimed_task r = record {
  task_id = r.task_id;
  task_kind = r.task_kind;
  customer_id = r.customer_id;
  payload_json = r.payload_json;
  status = running;
  attempts = r.attempts + 1;
}

abbrev pub take_ready : ℕ → Queue → Option TaskRow → Option QueuedTask × Queue
take_ready now q none = (none, q)
take_ready now q (some r) =
    (some (claimed_task r), update_where (has_task_id r.task_id) (start_row now) q)

-- the transaction of `claim`
unfoldable pub claim_at : ℕ → ℕ → Queue → Option QueuedTask × Queue
unfolding requeue_stale
claim_at now timeout q =
    let waiting = requeue_stale now timeout q in take_ready now waiting (next_ready now waiting)

-- `claim`
unfoldable pub claim : DateTime → ℕ → Queue → Result (Option QueuedTask) × Queue
claim now timeout q =
    if now.tz && ltb 0 timeout
    then (let (task, q') = claim_at now.instant timeout q in (ok task, q'))
    else (err value_error, q)

-- WHERE task_id = ? AND status = 'running'
abbrev pub is_active : String → TaskRow → Bool
is_active id r = has_task_id id r && is_running r.status

abbrev pub complete_row : ℕ → TaskRow → TaskRow
complete_row now r = record r { status = completed; completed_at = some now }

-- `complete`
unfoldable pub complete : String → ℕ → Queue → Result (Unit {0}) × Queue
complete id now q = (
  if nat_eq (count_where (is_active id) q) 1 then ok tt else err value_error,
  update_where (is_active id) (complete_row now) q,
)

-- `error[:500]`
abbrev pub truncate : ℕ → String → String
truncate zero s = ""
truncate (suc n) String.[] = ""
truncate (suc n) (String.◌∷◌ c s) = String.◌∷◌ c (truncate n s)

abbrev pub fail_row : Bool → ℕ → String → TaskRow → TaskRow
fail_row retry available error r = record r {
  status = if retry then pending else failed;
  available_at = available;
  last_error = some (truncate 500 error);
}

-- `fail`
unfoldable pub fail : QueuedTask → String → ℕ → ℕ → Queue → Queue
fail task error max_attempts now q =
    update_where (is_active task.task_id)
      (fail_row (ltb task.attempts max_attempts) (now + seconds (min 60 (2 ^ task.attempts))) error)
      q

abbrev pub status_eq : TaskStatus → TaskStatus → Bool
status_eq pending pending = true
status_eq running running = true
status_eq completed completed = true
status_eq failed failed = true
status_eq _ _ = false

-- `counts`: the number of tasks in a status; the source leaves out a status with no task
unfoldable pub counts : Queue → TaskStatus → ℕ
counts q s = count_where (λ r. status_eq r.status s) q
