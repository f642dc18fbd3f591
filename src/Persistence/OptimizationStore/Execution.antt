-- ===== src/Persistence/OptimizationStore/Execution.antt =====
-- What the execution of a plan does (src/persistence/optimization_store.py).
use shelf_life_copilot.Prelude.{
  same_ok, ℕ, suc, ◌+◌, String, ◌≡◌, refl, sym, ◌∙◌, ap, inl, inr, Bool, true, false, Option, none,
  some, List, [], ◌∷◌, DateTime, ok, >>=-eq-ok, arith, ◌==◌, nat_eq, Bool-cases, Option-cases,
  length, length-append, eq_refl, eq_iff, if◌then◌else◌,
}
use shelf_life_copilot.Prelude.Table.{All, find, find-append_some}
use shelf_life_copilot.Prelude.Keys.{find-last}
use shelf_life_copilot.Models.WorkOrder.{validate, pending}
use shelf_life_copilot.Models.WorkOrder.Lifecycle.{IsValid}
use shelf_life_copilot.Optimization.{OptimizationBatch, OptimizationAssignment}
use shelf_life_copilot.Optimization.Plans.{OptimizationPlan}
use shelf_life_copilot.Persistence.Approvals.{
  WorkOrderRow, Tables, approve, for_batch, fresh_columns,
}
use shelf_life_copilot.Persistence.Approvals.Keeps.{
  IsSound, IsFree, approved_tables, approve-eq-ok, approved_tables-IsSound,
}
use shelf_life_copilot.Persistence.OptimizationStore.{
  Supplies, batch_of, known_batch, order_batch, order_all, approved_decision, pending_order,
  decision_key,
}

-- the assignments that get an order
abbrev pub ordered : List OptimizationAssignment → ℕ
ordered [] = 0
ordered (a ∷ rest) = (if nat_eq a.allocated_qty 0 then 0 else 1) + ordered rest

same_some : {V : Type 0} {v w : V} → some v ≡ some w → v ≡ w
same_some h = cc

module _ (s : Supplies) (p : OptimizationPlan) (at : DateTime) where
  added : ℕ → OptimizationAssignment → OptimizationBatch → Tables → Tables
  added n a b t =
      approved_tables (approved_decision s p at a b) (pending_order (s.new_id n) p at a b)
        (decision_key p.plan_id b) t

  order_batch-eq-ok :
      (n : ℕ) (a : OptimizationAssignment) (b : OptimizationBatch) (t : Tables) {t' : Tables}
      → order_batch s p at n a b t ≡ ok t'
      → IsFree (pending_order (s.new_id n) p at a b) (decision_key p.plan_id b) t
        × (t' ≡ added n a b t)
  unfolding order_batch approve added
  order_batch-eq-ok n a b t h =
      approve-eq-ok (approved_decision s p at a b) (pending_order (s.new_id n) p at a b)
        (decision_key p.plan_id b) t h

  -- how the loop goes on
  data Next (n : ℕ) (a : OptimizationAssignment) (rest : List OptimizationAssignment)
      (t t' : Tables) : Type 0 where
    skipped :
        nat_eq a.allocated_qty 0 ≡ true → order_all s p at n rest t ≡ ok t' → Next n a rest t t'
    placed :
        nat_eq a.allocated_qty 0 ≡ false
        → (b : OptimizationBatch) → batch_of a.batch_id p.request.batches ≡ some b
        → IsFree (pending_order (s.new_id n) p at a b) (decision_key p.plan_id b) t
        → order_all s p at (suc n) rest (added n a b t) ≡ ok t'
        → Next n a rest t t'

  known_batch-eq-ok :
      (m : Option OptimizationBatch) {b : OptimizationBatch} → known_batch m ≡ ok b → m ≡ some b
  known_batch-eq-ok none h = cc
  known_batch-eq-ok (some b) h = cc

  order_all-Next :
      (n : ℕ) (a : OptimizationAssignment) (rest : List OptimizationAssignment) (t : Tables)
      {t' : Tables}
      → order_all s p at n (a ∷ rest) t ≡ ok t'
      → Next n a rest t t'
  unfolding order_all
  order_all-Next n a rest t h = elim (Bool-cases (nat_eq a.allocated_qty 0)) [
    | inl e ↦ skipped e (rw (order_all, e) at h)
    | inr e ↦
        (let (b, known, h2) =
            >>=-eq-ok (known_batch (batch_of a.batch_id p.request.batches)) _
              (rw (order_all, e) at h) in
          let (t1, one, h3) = >>=-eq-ok (order_batch s p at n a b t) _ h2 in
          let (free, same) = order_batch-eq-ok n a b t one in
          placed e b (known_batch-eq-ok (batch_of a.batch_id p.request.batches) known) free
            (rw same at h3))
  ]

  pub order_all-count :
      (n : ℕ) (plan : List OptimizationAssignment) (t : Tables) {t' : Tables}
      → order_all s p at n plan t ≡ ok t'
      → length t'.work_orders ≡ length t.work_orders + ordered plan
  unfolding order_all
  order_all-count n [] t h =
      ap (λ (x : Tables). length x.work_orders) (same_ok (sym h)) ∙ omega arith
  order_all-count n (a ∷ rest) t {t'} h = elim (order_all-Next n a rest t h) [
    | skipped e k ↦ rw e (order_all-count n rest t k ∙ omega arith)
    | placed e b known free k ↦
        (let more = order_all-count (suc n) rest (added n a b t) k in
          let one : length (added n a b t).work_orders ≡ length t.work_orders + 1 =
            unfold added in length-append t.work_orders _ in
          rw e (omega (arith, more, one)))
  ]

  order_all-keeps :
      (q : WorkOrderRow → Bool) (n : ℕ) (plan : List OptimizationAssignment) (t : Tables)
      {t' : Tables} {r : WorkOrderRow}
      → order_all s p at n plan t ≡ ok t'
      → find q t.work_orders ≡ some r
      → find q t'.work_orders ≡ some r
  unfolding order_all
  order_all-keeps q n [] t h k = rw (same_ok h) at k
  order_all-keeps q n (a ∷ rest) t h k = elim (order_all-Next n a rest t h) [
    | skipped e go ↦ order_all-keeps q n rest t go k
    | placed e b known free go ↦
        order_all-keeps q (suc n) rest (added n a b t) go
          (unfold added in find-append_some q t.work_orders _ k)
  ]

  batch_of-id :
      (id : String) (bs : List OptimizationBatch) {b : OptimizationBatch}
      → batch_of id bs ≡ some b
      → b.batch_id ≡ id
  unfolding batch_of
  batch_of-id id [] h = cc
  batch_of-id id (x ∷ bs) {b} h = elim (Option-cases (batch_of id bs)) [
    | inl e ↦ own (x.batch_id == id) refl (rw e at h)
    | inr (later, e) ↦ batch_of-id id bs (e ∙ (rw e at h))
  ]
    where
      own :
          (t : Bool)
          → (x.batch_id == id) ≡ t
          → (if t then some x else none) ≡ some b
          → b.batch_id ≡ id
      own true e k =
          ap (λ (z : OptimizationBatch). z.batch_id) (same_some (sym k))
          ∙ (eq_iff x.batch_id id).0 e
      own false e k = cc

  -- The batch of an assignment has a pending order for its action.
  abbrev pub HasOrder : Tables → OptimizationAssignment → Type 0
  HasOrder t a =
      (row : WorkOrderRow) × (find (for_batch p.request.customer_id a.batch_id) t.work_orders
        ≡ some row)
      × (row.order.status ≡ pending)
      × (row.order.action ≡ a.action)

  new_order :
      (n : ℕ) (a : OptimizationAssignment) (b : OptimizationBatch) (t : Tables)
      → batch_of a.batch_id p.request.batches ≡ some b
      → IsFree (pending_order (s.new_id n) p at a b) (decision_key p.plan_id b) t
      → HasOrder (added n a b t) a
  unfolding added
  new_order n a b t known free =
      let same = batch_of-id a.batch_id p.request.batches known in
      rw (← same) (
        record {
          decision_id = t.last_id + 1;
          order = fresh_columns (pending_order (s.new_id n) p at a b);
        },
        find-last (for_batch p.request.customer_id b.batch_id) t.work_orders _ free.batch_free
            (rw (eq_refl p.request.customer_id, eq_refl b.batch_id)),
        refl,
        refl,
      )

  pub order_all-HasOrder :
      (n : ℕ) (plan : List OptimizationAssignment) (t : Tables) {t' : Tables}
      → order_all s p at n plan t ≡ ok t'
      → All (λ a. nat_eq a.allocated_qty 0 ≡ false → HasOrder t' a) plan
  order_all-HasOrder n [] t h = tt
  order_all-HasOrder n (a ∷ rest) t h = elim (order_all-Next n a rest t h) [
    | skipped e go ↦ (λ some_qty. absurd (cc (e, some_qty)), order_all-HasOrder n rest t go)
    | placed e b known free go ↦ (
      λ _.
          let (row, found, waits, does) = new_order n a b t known free in
          (row, order_all-keeps _ (suc n) rest (added n a b t) go found, waits, does),
      order_all-HasOrder (suc n) rest (added n a b t) go,
    )
  ]

  module _ (aware : at.tz ≡ true) (ids : (k : ℕ) → (s.new_id k == "") ≡ false) where
    pending_order-IsValid :
        (n : ℕ) (a : OptimizationAssignment) (b : OptimizationBatch)
        → IsValid (pending_order (s.new_id n) p at a b)
    unfolding validate
    pending_order-IsValid n a b = ground (arith, ids n)

    pub order_all-IsSound :
        (n : ℕ) (plan : List OptimizationAssignment) (t : Tables) {t' : Tables}
        → order_all s p at n plan t ≡ ok t'
        → IsSound t
        → IsSound t'
    unfolding order_all added
    order_all-IsSound n [] t h sound = rw (same_ok h) at sound
    order_all-IsSound n (a ∷ rest) t h sound = elim (order_all-Next n a rest t h) [
      | skipped e go ↦ order_all-IsSound n rest t go sound
      | placed e b known free go ↦ order_all-IsSound (suc n) rest (added n a b t) go (
          approved_tables-IsSound (approved_decision s p at a b)
            (pending_order (s.new_id n) p at a b) (decision_key p.plan_id b) t sound
            (pending_order-IsValid n a b) refl free)
    ]
