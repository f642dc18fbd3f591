-- ===== src/TaskQueue/Worker.antt =====
-- `TaskWorker` of src/task_queue.py. One round is in two parts, since other workers run while it
-- waits for the scan: the claim, and what it does with the task when the scan has ended.
pub mod Settling
use shelf_life_copilot.Prelude.{
  ℕ, String, Bool, true, false, Option, none, some, DateTime, Result, ok, err, Error, ◌>>=◌, ◌>>◌,
  guard, value_error, ◌==◌,
}
use shelf_life_copilot.TaskQueue.{Queue, QueuedTask, claim, complete, fail}

-- What the worker calls: the scan with the delivery of its result, as a function of the customer,
-- and the text of an exception.
pub record Work : Type 0 where
  pub scan : String → Result (Unit {0})
  pub message : Error → String

-- the body of the `try`
unfoldable pub attempt : Work → QueuedTask → Result (Unit {0})
attempt w task = guard (task.task_kind == "scan") value_error >> w.scan task.customer_id

abbrev done : Result (Unit {0}) × Queue → Result Bool × Queue
done (r, q) = ((r >>= λ _. ok true), q)

abbrev pub settle_with : Work → ℕ → QueuedTask → ℕ → Queue → Result (Unit {0}) → Result Bool × Queue
settle_with w max_attempts task now q (ok _) = done (complete task.task_id now q)
settle_with w max_attempts task now q (err e) =
    (ok true, fail task (w.message e) max_attempts now q)

-- from the `try` to the end of `run_once`
unfoldable pub settle : Work → ℕ → QueuedTask → ℕ → Queue → Result Bool × Queue
unfolding attempt
settle w max_attempts task now q = settle_with w max_attempts task now q (attempt w task)

abbrev settle_claimed : Work → ℕ → ℕ → Result (Option QueuedTask) × Queue → Result Bool × Queue
settle_claimed w max_attempts later (err e, q) = (err e, q)
settle_claimed w max_attempts later (ok none, q) = (ok false, q)
settle_claimed w max_attempts later (ok (some task), q) = settle w max_attempts task later q

-- `run_once` of a worker that no other one disturbs
unfoldable pub run_once : Work → ℕ → ℕ → DateTime → ℕ → Queue → Result Bool × Queue
unfolding settle
run_once w max_attempts timeout now later q =
    settle_claimed w max_attempts later (claim now timeout q)
