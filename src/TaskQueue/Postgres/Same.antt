-- ===== src/TaskQueue/Postgres/Same.antt =====
-- Both backends of the queue (src/task_queue.py) are the same queue.
use shelf_life_copilot.Prelude.{
  ℕ, String, ◌≡◌, ◌⊎◌, refl, ◌∙◌, ap, inl, inr, Bool, true, false, ◌&&◌, Option, none, some, List,
  [], ◌∷◌, DateTime, Result, ok, arith, if◌then◌else◌,
}
use shelf_life_copilot.Prelude.Table.{find, contains, count_where}
use shelf_life_copilot.Prelude.Keys.{count_where-one, update_where-none}
use shelf_life_copilot.Prelude.Trace.{answers}
use shelf_life_copilot.TaskQueue.{
  TaskRow, Queue, QueuedTask, has_task_id, has_dedupe_key, is_active, is_stale, complete_row,
  next_ready, is_ready, claim_at, requeue_stale, earlier, take_ready, known_task,
}
use shelf_life_copilot.TaskQueue as TaskQueue
use shelf_life_copilot.TaskQueue.Selection.{IsKeyed, tasks_conflict, same_task}
use shelf_life_copilot.TaskQueue.Events.{Event, enqueued, claimed, completed, failed, apply-IsKeyed}
use shelf_life_copilot.TaskQueue.Events as Events
use shelf_life_copilot.TaskQueue.Postgres.{
  enqueue, claim, claim_unlocked, next_unlocked, requeue, complete, fail, first_of, existing,
}
use shelf_life_copilot.TaskQueue.Postgres as Postgres

-- What a call answers.
pub data Answer : Type 0 where
  accepted : Result (String × Bool) → Answer
  handed : Result (Option QueuedTask) → Answer
  reported : Result (Unit {0}) → Answer

abbrev tagged {ℓ} : {A : Type ℓ} → (A → Answer) → A × Queue → Answer × Queue
tagged f (a, q) = (f a, q)

-- one call of either backend, the PostgreSQL one while no other transaction is open
unfoldable pub sqlite_call : Event → Queue → Answer × Queue
sqlite_call (enqueued id kind customer payload key now) q =
    tagged accepted (TaskQueue.enqueue id kind customer payload key now q)
sqlite_call (claimed now timeout) q = tagged handed (TaskQueue.claim now timeout q)
sqlite_call (completed id now) q = tagged reported (TaskQueue.complete id now q)
sqlite_call (failed task error max_attempts now) q =
    (reported (ok tt), TaskQueue.fail task error max_attempts now q)

unfoldable pub postgres_call : Event → Queue → Answer × Queue
postgres_call (enqueued id kind customer payload key now) q =
    tagged accepted (enqueue id kind customer payload key now q)
postgres_call (claimed now timeout) q = tagged handed (claim [] now timeout q)
postgres_call (completed id now) q = tagged reported (complete id now q)
postgres_call (failed task error max_attempts now) q =
    (reported (ok tt), fail task error max_attempts now q)

-- `uuid4` gives an id that no task of the queue has.
abbrev pub IsFresh : Event → Queue → Type 0
IsFresh (enqueued id kind customer payload key now) q = contains (has_task_id id) q ≡ false
IsFresh _ q = Unit

abbrev pub AllFresh : List Event → Queue → Type 0
AllFresh [] q = Unit
AllFresh (e ∷ es) q = IsFresh e q × AllFresh es (Events.apply e q)

first_of-earlier :
    (r : TaskRow) (m : Option TaskRow) (due : Bool)
    → (if due && true then some (first_of r m) else m) ≡ (if due then some (earlier r m) else m)
first_of-earlier r none true = refl
first_of-earlier r none false = refl
first_of-earlier r (some s) true = refl
first_of-earlier r (some s) false = refl

next_unlocked-none : (now : ℕ) (q : Queue) → next_unlocked [] now q ≡ next_ready now q
unfolding next_unlocked next_ready contains
next_unlocked-none now [] = refl
next_unlocked-none now (r ∷ q) =
    rw (next_unlocked-none now q) (first_of-earlier r (next_ready now q) (is_ready now r))

handed-take :
    (now : ℕ) (q : Queue) (m : Option TaskRow) → Postgres.handed now q m ≡ take_ready now q m
handed-take now q none = refl
handed-take now q (some r) = refl

claim_unlocked-none :
    (now timeout : ℕ) (q : Queue) → claim_unlocked [] now timeout q ≡ claim_at now timeout q
unfolding claim_unlocked claim_at requeue requeue_stale
claim_unlocked-none now timeout q =
    let w = requeue_stale now timeout q in
    ap (Postgres.handed now w) (next_unlocked-none now w) ∙ handed-take now w (next_ready now w)

claim_same :
    (now : DateTime) (timeout : ℕ) (q : Queue)
    → claim [] now timeout q ≡ TaskQueue.claim now timeout q
unfolding claim TaskQueue.claim
claim_same now timeout q = ground (arith, claim_unlocked-none now.instant timeout q)

existing-known : (m : Option TaskRow) → existing m ≡ known_task m
existing-known none = refl
existing-known (some r) = refl

enqueue_same :
    (id kind customer payload key : String) (now : DateTime) (q : Queue)
    → contains (has_task_id id) q ≡ false
    → enqueue id kind customer payload key now q
      ≡ TaskQueue.enqueue id kind customer payload key now q
unfolding enqueue TaskQueue.enqueue
enqueue_same id kind customer payload key now q h =
    ground (arith, existing-known (find (has_dedupe_key key) q))

active_count :
    (id : String) (q : Queue)
    → IsKeyed q
    → (count_where (is_active id) q ≡ 0) ⊎ (count_where (is_active id) q ≡ 1)
active_count id =
    count_where-one tasks_conflict (has_task_id id) (is_active id) (same_task id)
      (λ r h. ground arith)

complete_same :
    (id : String) (now : ℕ) (q : Queue)
    → IsKeyed q
    → complete id now q ≡ TaskQueue.complete id now q
unfolding complete TaskQueue.complete
complete_same id now q d = elim (active_count id q d) [
  | inl e ↦ rw (e, update_where-none (is_active id) (complete_row now) q e)
  | inr e ↦ rw e
]

fail_same :
    (task : QueuedTask) (error : String) (max_attempts now : ℕ) (q : Queue)
    → fail task error max_attempts now q ≡ TaskQueue.fail task error max_attempts now q
unfolding fail TaskQueue.fail
fail_same task error max_attempts now q = refl

-- Every call of the PostgreSQL queue answers what the SQLite queue answers, and leaves the same
-- rows. The ids and dedupe keys of the rows are unique, a new id is none of a row, and no other
-- transaction holds a lock.
pub call_same :
    (e : Event) (q : Queue) → IsFresh e q → IsKeyed q → postgres_call e q ≡ sqlite_call e q
unfolding postgres_call sqlite_call
call_same (enqueued id kind customer payload key now) q h d =
    ap (tagged accepted) (enqueue_same id kind customer payload key now q h)
call_same (claimed now timeout) q h d = ap (tagged handed) (claim_same now timeout q)
call_same (completed id now) q h d = ap (tagged reported) (complete_same id now q d)
call_same (failed task error max_attempts now) q h d =
    ap (λ q'. (reported (ok tt), q')) (fail_same task error max_attempts now q)

sqlite_call-apply : (e : Event) (q : Queue) → (sqlite_call e q).1 ≡ Events.apply e q
unfolding sqlite_call Events.apply
sqlite_call-apply (enqueued id kind customer payload key now) q = refl
sqlite_call-apply (claimed now timeout) q = refl
sqlite_call-apply (completed id now) q = refl
sqlite_call-apply (failed task error max_attempts now) q = refl

-- The two backends answer every sequence of calls alike, call by call, and end in the same rows.
-- At the start the ids and dedupe keys of the rows are unique, every new id is that of no row then,
-- and one call ends before the next begins.
pub answers_same :
    (es : List Event) (q : Queue)
    → AllFresh es q
    → IsKeyed q
    → answers postgres_call es q ≡ answers sqlite_call es q
unfolding answers
answers_same [] q h d = refl
answers_same (e ∷ es) q h d =
    let next : IsKeyed (sqlite_call e q).1 = rw (sqlite_call-apply e q) (apply-IsKeyed e q d) in
    let fresh : AllFresh es (sqlite_call e q).1 = rw (sqlite_call-apply e q) h.1 in
    rw (call_same e q h.0 d, answers_same es (sqlite_call e q).1 fresh next)
