-- ===== src/Api/Plans/Again.antt =====
-- A plan that was executed by a request is not executed by another one (src/api/router.py).
use shelf_life_copilot.Prelude.{
  ℕ, String, ◌≡◌, refl, Bool, true, false, Option, none, some, utc, Result, ok, err, Error,
  value_error, is_value_error, if◌then◌else◌,
}
use shelf_life_copilot.Security.{Principal, Access, granted, denied, require_customer}
use shelf_life_copilot.Optimization.Plans.{OptimizationPlan}
use shelf_life_copilot.Persistence.OptimizationStore.{Database, Supplies, get, execute}
use shelf_life_copilot.Persistence.OptimizationStore.Once.{execute-once}
use shelf_life_copilot.Api.Plans.{
  Reply, answered, refused, raised, outcome, approving, for_plan, execute_optimization_plan,
}

outcome-answered :
    (x : Result OptimizationPlan × Database) {plan : OptimizationPlan} {db : Database}
    → outcome x ≡ (answered plan, db)
    → x ≡ (ok plan, db)
outcome-answered (ok p, db) h = cc
outcome-answered (err e, db) h = absurd (not_answered (is_value_error e) h)
  where
    not_answered :
        (b : Bool) {plan : OptimizationPlan} {d d' : Database}
        → ◌≡◌ {A = Reply × Database} (if b then refused 409 else raised e, d) (answered plan, d')
        → ⊥
    not_answered true k = cc
    not_answered false k = cc

approving-answered :
    (s : Supplies) (id operator : String) (now : ℕ) (db : Database) (a : Access (Unit {0}))
    {plan : OptimizationPlan} {db' : Database}
    → approving s id operator now db a ≡ (answered plan, db')
    → execute s id operator (utc now) db ≡ (ok plan, db')
approving-answered s id operator now db (denied n) h = cc
approving-answered s id operator now db (granted _) h =
    outcome-answered (execute s id operator (utc now) db) h

for_plan-answered :
    (s : Supplies) (p : Principal) (id operator : String) (now : ℕ) (db : Database)
    (m : Result (Option OptimizationPlan)) {plan : OptimizationPlan} {db' : Database}
    → for_plan s p id operator now db m ≡ (answered plan, db')
    → execute s id operator (utc now) db ≡ (ok plan, db')
for_plan-answered s p id operator now db (err e) h = cc
for_plan-answered s p id operator now db (ok none) h = cc
for_plan-answered s p id operator now db (ok (some old)) h =
    approving-answered s id operator now db (require_customer p old.request.customer_id) h

-- What a request for a plan that cannot be executed is told.
pub data Refused (db : Database) (r : Reply × Database) : Type 0 where
  conflict : r ≡ (refused 409, db) → Refused db r
  no_access : (n : ℕ) → r ≡ (refused n, db) → Refused db r
  failed : (e : Error) → r ≡ (raised e, db) → Refused db r

refused_after :
    (s : Supplies) (p : Principal) (id operator : String) (now : ℕ) (db : Database)
    (m : Result (Option OptimizationPlan))
    → execute s id operator (utc now) db ≡ (err value_error, db)
    → Refused db (for_plan s p id operator now db m)
refused_after s p id operator now db (err e) h = failed e refl
refused_after s p id operator now db (ok none) h = no_access 404 refl
refused_after s p id operator now db (ok (some old)) h =
    by_access (require_customer p old.request.customer_id)
  where
    by_access : (a : Access (Unit {0})) → Refused db (approving s id operator now db a)
    by_access (denied n) = no_access n refl
    by_access (granted _) = conflict (rw h refl)

-- After a request has executed a plan, every later request for it, by whomever and whenever, ends in
-- an HTTP error or an exception and changes nothing.
pub execute_optimization_plan-again :
    (s : Supplies) (p : Principal) (id operator : String) (now : ℕ) (db : Database)
    {plan : OptimizationPlan} {db' : Database}
    → execute_optimization_plan s p id operator now db ≡ (answered plan, db')
    → (s2 : Supplies) (p2 : Principal) (operator2 : String) (now2 : ℕ)
    → Refused db' (execute_optimization_plan s2 p2 id operator2 now2 db')
unfolding execute_optimization_plan
execute_optimization_plan-again s p id operator now db {plan} {db'} h s2 p2 operator2 now2 =
    let done = for_plan-answered s p id operator now db (get id db) h in
    refused_after s2 p2 id operator2 now2 db' (get id db')
      (execute-once s id operator (utc now) db done s2 operator2 (utc now2))
