-- ===== src/Persistence/OptimizationStore/Once.antt =====
-- A plan is executed once and as a whole (src/persistence/optimization_store.py).
use shelf_life_copilot.Prelude.{
  ℕ, ◌+◌, String, ◌≡◌, refl, ◌∙◌, inl, inr, Bool, true, false, Option, none, some, List, DateTime,
  Result, ok, err, Error, value_error, arith, ◌==◌, nat_eq, Bool-cases, length, if◌then◌else◌,
}
use shelf_life_copilot.Prelude.Table.{All, find, find_sound, find-update_where, update_where}
use shelf_life_copilot.Optimization.Plans.{OptimizationPlan, executed, is_pending, validate_plan}
use shelf_life_copilot.Persistence.Approvals.{Tables, stored}
use shelf_life_copilot.Persistence.Approvals.Keeps.{IsSound}
use shelf_life_copilot.Persistence.OptimizationStore.{
  Database, Supplies, has_plan_id, order_all, approve_row, as_value_error, written, execute_plan,
  required_plan, execute,
}
use shelf_life_copilot.Persistence.OptimizationStore.Execution.{
  ordered, HasOrder, order_all-count, order_all-HasOrder, order_all-IsSound,
}

-- the plan that an execution returns
abbrev approved_plan : String → DateTime → OptimizationPlan → OptimizationPlan
approved_plan by at p = record p { status = executed; approved_by = some by; approved_at = some at }

-- The two ways in which an execution ends.
pub data Outcome (s : Supplies) (id by : String) (at : DateTime) (db : Database)
    (r : Result OptimizationPlan × Database) : Type 0 where
  refused : (e : Error) → r ≡ (err e, db) → Outcome s id by at db r
  done :
      (old : OptimizationPlan) (t : Tables)
      → at.tz ≡ true
      → find (has_plan_id id) db.plans ≡ some old
      → is_pending old.status ≡ true
      → order_all s old (stored at) 0 old.result.assignments db.tables ≡ ok t
      → r ≡ (
        ok (approved_plan by at old),
        record { plans = update_where (has_plan_id id) (approve_row by at) db.plans; tables = t },
      )
      → Outcome s id by at db r

validate_plan-same : (p : OptimizationPlan) {v : OptimizationPlan} → validate_plan p ≡ ok v → p ≡ v
unfolding validate_plan
validate_plan-same p h = ground arith

module _ (s : Supplies) (id by : String) (at : DateTime) (db : Database) where
  written-Outcome :
      (old : OptimizationPlan) (m : Result Tables)
      → at.tz ≡ true
      → find (has_plan_id id) db.plans ≡ some old
      → is_pending old.status ≡ true
      → order_all s old (stored at) 0 old.result.assignments db.tables ≡ m
      → Outcome s id by at db (written id by at old db m)
  written-Outcome old (err e) aware found waits h = refused (as_value_error e) refl
  written-Outcome old (ok t) aware found waits h = done old t aware found waits h refl

  valid-Outcome :
      (old : OptimizationPlan)
      → at.tz ≡ true
      → find (has_plan_id id) db.plans ≡ some old
      → Outcome s id by at db (execute_plan s id by at db (ok old))
  valid-Outcome old aware found = elim (Bool-cases (is_pending old.status)) [
    | inr e ↦ rw e (refused value_error refl)
    | inl waits ↦ rw waits (
        written-Outcome old (order_all s old (stored at) 0 old.result.assignments db.tables) aware
          found waits refl)
  ]

  read-Outcome :
      (m : Option OptimizationPlan) (v : Result OptimizationPlan)
      → at.tz ≡ true
      → find (has_plan_id id) db.plans ≡ m
      → required_plan m ≡ v
      → Outcome s id by at db (execute_plan s id by at db v)
  read-Outcome m (err e) aware found h = refused e refl
  read-Outcome none (ok v) aware found h = absurd (cc)
  read-Outcome (some old) (ok v) aware found h =
      rw (validate_plan-same old h) at (valid-Outcome old aware found)

  checked-Outcome :
      (aware : Bool)
      → at.tz ≡ aware
      → Outcome s id by at db (
          if aware
          then execute_plan s id by at db (required_plan (find (has_plan_id id) db.plans))
          else (err value_error, db))
  checked-Outcome false e = refused value_error refl
  checked-Outcome true e =
      read-Outcome (find (has_plan_id id) db.plans) (required_plan (find (has_plan_id id) db.plans))
        e refl refl

  -- An execution fails and leaves the database as it was, or it executes a plan that was pending:
  -- all orders of the plan are written and its row is approved, and nothing else.
  pub execute-Outcome : Outcome s id by at db (execute s id by at db)
  unfolding execute
  execute-Outcome = checked-Outcome at.tz refl

ended :
    {x : Result OptimizationPlan × Database} {p q : OptimizationPlan} {db db' : Database}
    → x ≡ (ok p, db)
    → x ≡ (ok q, db')
    → (p ≡ q) × (db ≡ db')
ended h k = (cc, cc)

-- What a successful execution has done.
pub record IsExecuted (s : Supplies) (id by : String) (at : DateTime) (db : Database)
    (p : OptimizationPlan) (db' : Database) : Type 0 where
  pub returned : (p.status ≡ executed) × (p.approved_by ≡ some by) × (p.approved_at ≡ some at)
  pub every_order :
      All
        (λ a. nat_eq a.allocated_qty 0 ≡ false → HasOrder s p (stored at) db'.tables a)
        p.result.assignments
  pub no_other_order :
      length db'.tables.work_orders ≡ length db.tables.work_orders + ordered p.result.assignments

-- An executed plan has for every assignment of a positive amount a pending work order of its batch
-- and action, and the execution has added that many orders and no other.
pub execute-IsExecuted :
    (s : Supplies) (id by : String) (at : DateTime) (db : Database) {p : OptimizationPlan}
    {db' : Database}
    → execute s id by at db ≡ (ok p, db')
    → IsExecuted s id by at db p db'
execute-IsExecuted s id by at db h = elim (execute-Outcome s id by at db) [
  | refused e k ↦ absurd (cc (h, k))
  | done old t aware found waits all k ↦
      (let (same_plan, same_db) = ended k h in
        rw (← same_plan, ← same_db)
          (record {
            returned = (refl, refl, refl);
            every_order =
                order_all-HasOrder s old (stored at) 0 old.result.assignments db.tables all;
            no_other_order =
                order_all-count s old (stored at) 0 old.result.assignments db.tables all;
          }))
]

approved_found :
    (id by : String) (at : DateTime) (plans : List OptimizationPlan) {old : OptimizationPlan}
    → find (has_plan_id id) plans ≡ some old
    → find (has_plan_id id) (update_where (has_plan_id id) (approve_row by at) plans)
      ≡ some (approve_row by at old)
approved_found id by at plans h =
    find-update_where (has_plan_id id) (has_plan_id id) (approve_row by at) (λ a. refl) plans
    ∙ rw (h, find_sound (has_plan_id id) plans h) refl

executed_refused :
    (s : Supplies) (id by by2 : String) (at at2 : DateTime) (db : Database) (old : OptimizationPlan)
    → find (has_plan_id id) db.plans ≡ some (approve_row by at old)
    → execute s id by2 at2 db ≡ (err value_error, db)
unfolding execute validate_plan
executed_refused s id by by2 at at2 db old h =
    elim at2.tz
      as (λ b.
        (if b
          then execute_plan s id by2 at2 db (required_plan (find (has_plan_id id) db.plans))
          else (err value_error, db))
        ≡ (err value_error, db)) [ true ↦ rw h refl | false ↦ refl ]

-- A plan that was executed is not executed again: every later call for it, by whomever and at
-- whatever time, raises ValueError and leaves the database as it was.
pub execute-once :
    (s : Supplies) (id by : String) (at : DateTime) (db : Database) {p : OptimizationPlan}
    {db' : Database}
    → execute s id by at db ≡ (ok p, db')
    → (s2 : Supplies) (by2 : String) (at2 : DateTime)
    → execute s2 id by2 at2 db' ≡ (err value_error, db')
execute-once s id by at db h s2 by2 at2 = elim (execute-Outcome s id by at db) [
  | refused e k ↦ absurd (cc (h, k))
  | done old t aware found waits all k ↦
      (let (same_plan, same_db) = ended k h in
        rw (← same_db)
          (executed_refused s2 id by by2 at at2 _ old (approved_found id by at db.plans found)))
]

-- An execution keeps the constraints of decisions and work orders, whatever it ends in. The ids
-- that `uuid4` returns are not empty.
pub execute-IsSound :
    (s : Supplies) (id by : String) (at : DateTime) (db : Database)
    → IsSound db.tables
    → ((k : ℕ) → (s.new_id k == "") ≡ false)
    → IsSound (execute s id by at db).1.tables
execute-IsSound s id by at db sound ids = elim (execute-Outcome s id by at db) [
  | refused e h ↦ rw h sound
  | done old t aware found waits all h ↦
      rw h
        (order_all-IsSound s old (stored at) refl ids 0 old.result.assignments db.tables all sound)
]
