-- ===== src/Examples/Tasks.antt =====
-- A queue with a waiting and a finished task (src/task_queue.py).
use shelf_life_copilot.Prelude.{
  String, ◌≡◌, ◌≢◌, refl, inl, some, List, [], ◌∷◌, ok, err, value_error, utc, arith,
}
use shelf_life_copilot.Prelude.Table.{find, update_where}
use shelf_life_copilot.TaskQueue.{
  complete, TaskRow, Queue, completed, new_task, next_ready, claim_at, start_row, claimed_task,
}
use shelf_life_copilot.TaskQueue.Selection.{IsKeyed}
use shelf_life_copilot.TaskQueue.Claiming.{lookup, Taken, claim_at-Taken}
use shelf_life_copilot.TaskQueue.Events.{Event, apply, run, apply-IsKeyed}
use shelf_life_copilot.TaskQueue.Events as Events
use shelf_life_copilot.TaskQueue.Terminal.{run_keeps_final}
use shelf_life_copilot.TaskQueue.Leases.{lease_excludes}
use shelf_life_copilot.TaskQueue.Worker.{Work, settle}
use shelf_life_copilot.TaskQueue.Worker.Settling.{IsSettled, settle-IsSettled}

abbrev waiting : TaskRow
waiting = new_task "t1" "scan" "c1" "{}" "k1" 0

abbrev second : TaskRow
second = new_task "t3" "scan" "c1" "{}" "k3" 5

abbrev finished : TaskRow
finished = record (new_task "t2" "scan" "c2" "{}" "k2" 0) {
  status = completed;
  completed_at = some 7;
}

abbrev queue : Queue
queue = waiting ∷ finished ∷ second ∷ []

queue-IsKeyed : IsKeyed queue
queue-IsKeyed = ((refl, (refl, tt)), ((refl, tt), (tt, tt)))

abbrev events : List Event
events = Events.claimed (utc 9) 60 ∷ Events.completed "t2" 10 ∷ []

run_keeps_final_example : lookup "t2" (run events queue) ≡ some finished
unfolding lookup find
run_keeps_final_example = run_keeps_final events "t2" queue queue-IsKeyed refl (inl refl)

claim_at-Taken_example : Taken 9 60 queue (claim_at 9 60 queue).0 (claim_at 9 60 queue).1
claim_at-Taken_example = claim_at-Taken 9 60 queue queue-IsKeyed

lease_excludes_example : ◌≢◌ {A = String} "t3" "t1"
unfolding claim_at run apply next_ready update_where complete
lease_excludes_example =
    lease_excludes 9 60 queue {task = claimed_task waiting} {task2 = claimed_task second}
      queue-IsKeyed refl (Events.completed "t2" 10 ∷ []) 11 60 (refl, tt) (omega arith) refl

abbrev busy : Queue
busy = start_row 9 waiting ∷ finished ∷ []

busy-IsKeyed : IsKeyed busy
busy-IsKeyed = ((refl, tt), (tt, tt))

abbrev working : Work
working = record { scan = λ c. ok tt; message = λ e. "" }

abbrev broken : Work
broken = record { scan = λ c. err value_error; message = λ e. "timeout" }

settle-IsSettled_example :
    IsSettled working 3 20
      (claimed_task waiting)
      busy
      (start_row 9 waiting)
      (settle working 3 (claimed_task waiting) 20 busy)
unfolding lookup find
settle-IsSettled_example =
    settle-IsSettled working 3 20 (claimed_task waiting) busy busy-IsKeyed refl
