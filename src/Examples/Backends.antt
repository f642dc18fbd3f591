-- ===== src/Examples/Backends.antt =====
-- The PostgreSQL stores on small tables (src/persistence/postgres.py, src/task_queue.py).
use shelf_life_copilot.Prelude.{
  ◌≡◌, refl, true, false, List, [], ◌∷◌, ok, err, integrity_error, utc, min, arith,
}
use shelf_life_copilot.Prelude.Table.{find, contains}
use shelf_life_copilot.Prelude.Trace.{answers}
use shelf_life_copilot.Models.Action.{action_eq}
use shelf_life_copilot.Models.Decision.{is_approved}
use shelf_life_copilot.Models.WorkOrder.{WorkOrder}
use shelf_life_copilot.TaskQueue.{Queue, new_task, TaskRow}
use shelf_life_copilot.TaskQueue.Selection.{IsKeyed}
use shelf_life_copilot.TaskQueue.Events.{Event, apply}
use shelf_life_copilot.TaskQueue.Events as Events
use shelf_life_copilot.TaskQueue.Postgres.Same.{postgres_call, sqlite_call, answers_same}
use shelf_life_copilot.Persistence.Approvals.{record_approval, fresh_columns, Tables, empty}
use shelf_life_copilot.Persistence.Approvals as Approvals
use shelf_life_copilot.Persistence.IdempotencyStore.{Records, new_claim}
use shelf_life_copilot.Persistence.IdempotencyStore.Claims.{Call, claiming, completing, releasing}
use shelf_life_copilot.Persistence.Postgres.RateLimiter.{RateLimiter, rate_limiter}
use shelf_life_copilot.Persistence.Postgres.RateLimiter.Windows.{
  Request, admitted, requests, admitted-min,
}
use shelf_life_copilot.Persistence.Postgres.Requests.Same as Requests
use shelf_life_copilot.Persistence.Postgres.Decisions.{checks, number_taken, inserts}
use shelf_life_copilot.Persistence.Postgres.Decisions as Decisions
use shelf_life_copilot.Persistence.Postgres.Decisions.Repeats.{record_approval-other_key}
use shelf_life_copilot.Examples.Orders.{order, order-IsValid, decision, tables, row}

abbrev first : TaskRow
first = new_task "t1" "scan" "c1" "{}" "k1" 0

abbrev second : TaskRow
second = new_task "t2" "scan" "c2" "{}" "k2" 5

abbrev queue : Queue
queue = first ∷ second ∷ []

queue-IsKeyed : IsKeyed queue
queue-IsKeyed = ((refl, tt), (tt, tt))

abbrev events : List Event
events = Events.claimed (utc 9) 60 ∷ Events.completed "t1" 10 ∷ Events.completed "t1" 11 ∷ []

answers_same_example : answers postgres_call events queue ≡ answers sqlite_call events queue
answers_same_example = answers_same events queue (tt, (tt, (tt, tt))) queue-IsKeyed

abbrev limiter : RateLimiter
limiter = record { limit = 2; window_seconds = 60 }

abbrev calls : List Request
calls = ("c", 61) ∷ ("c", 70) ∷ ("d", 80) ∷ ("c", 90) ∷ ("c", 130) ∷ []

admitted-min_example : admitted limiter "c" 60 calls [] ≡ min 2 (requests limiter "c" 60 calls)
unfolding rate_limiter
admitted-min_example =
    admitted-min 2 60 limiter "c" 60 0 calls refl
      (omega arith, (omega arith, (omega arith, (omega arith, (omega arith, tt)))))

abbrev records : Records
records = new_claim "k1" "scan" ∷ []

abbrev commands : List Call
commands =
    claiming "k1" "scan" ∷ completing "k1" 200 "{}" ∷ completing "k2" 200 "{}" ∷ releasing "k1" ∷ []

requests_same_example :
    answers Requests.postgres_call commands records ≡ answers Requests.sqlite_call commands records
requests_same_example = Requests.requests_same commands records (tt, tt)

first_recorded : Decisions.record_approval decision order "k1" empty ≡ (ok (1, order, true), tables)
unfolding Decisions.record_approval checks inserts Approvals.insert_decision
    Approvals.insert_work_order contains is_approved action_eq
first_recorded = refl

abbrev again : WorkOrder
again = record order { work_order_id = "w2"; created_at = utc 15; updated_at = utc 15 }

again_passes : checks decision again "k1" ≡ ok tt
unfolding checks is_approved action_eq
again_passes = refl

other_passes : checks decision again "k2" ≡ ok tt
unfolding checks is_approved action_eq
other_passes = refl

record_approval-other_key_example :
    (Approvals.record_approval decision again "k2" tables ≡ (ok (1, order, false), tables))
    × (Decisions.record_approval decision again "k2" tables
        ≡ (err integrity_error, number_taken tables))
unfolding contains find
record_approval-other_key_example =
    record_approval-other_key decision again "k2" tables {r = row} other_passes refl refl
      order-IsValid
