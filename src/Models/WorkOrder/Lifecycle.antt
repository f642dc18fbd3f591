-- ===== src/Models/WorkOrder/Lifecycle.antt =====
-- What `transition_to` and `complete` of src/models/work_order.py do to one order over its life.
use shelf_life_copilot.Prelude.{
  ℕ, suc, ◌+◌, ◌≤◌, ◌≡◌, refl, ◌↔◌, true, false, DateTime, ok, arith, ◌⊎◌,
}
use shelf_life_copilot.Models.WorkOrder.{
  WorkOrder, WorkOrderStatus, WorkOrderReceipt, pending, in_progress, completed, cancelled,
  is_completed, may_become, validate, transition_to, complete, with_receipt,
}

-- An order that construction accepts.
abbrev pub IsValid : WorkOrder → Type 0
IsValid o = validate o ≡ ok o

-- What one transition needs besides a valid order.
pub record MayMove (o : WorkOrder) (status : WorkOrderStatus) (at : DateTime) : Type 0 where
  pub aware : at.tz ≡ true
  pub legal : may_become o.status status ≡ true
  pub not_completed : is_completed status ≡ false
  pub after_creation : o.created_at.instant ≤ at.instant

-- One change of an order by either method.
pub data Step (o o' : WorkOrder) : Type 0 where
  moved : (s : WorkOrderStatus) (at : DateTime) → transition_to o s at ≡ ok o' → Step o o'
  finished : (r : WorkOrderReceipt) → complete o r ≡ ok o' → Step o o'

pub data Reach (o : WorkOrder) : WorkOrder → Type 0 where
  here : Reach o o
  next : {o' o'' : WorkOrder} → Reach o o' → Step o' o'' → Reach o o''

pub steps : {o o' : WorkOrder} → Reach o o' → ℕ
steps here = 0
steps (next r s) = suc (steps r)

pub validate-same : (o o' : WorkOrder) → validate o ≡ ok o' → o ≡ o'
unfolding validate
validate-same o o' h = ground arith

-- From a valid order `transition_to` returns the order with the new status and time exactly when
-- the time is aware, the move is legal and not to `completed`, and the time is not before the
-- creation. The time of the last update plays no part.
pub transition_to-ok_iff :
    (o : WorkOrder) (s : WorkOrderStatus) (at : DateTime)
    → IsValid o
    → (transition_to o s at ≡ ok (record o { status = s; updated_at = at })) ↔ MayMove o s at
unfolding transition_to validate
transition_to-ok_iff o s at v = (λ h. ground arith, λ m. ground arith)

validated-IsValid : (o : WorkOrder) {o' : WorkOrder} → validate o ≡ ok o' → IsValid o'
validated-IsValid o {o'} h = rw (validate-same o o' h) at h

-- The two methods end in the validation of the changed order.
pub moved-validated :
    (o : WorkOrder) (s : WorkOrderStatus) (at : DateTime) {o' : WorkOrder}
    → transition_to o s at ≡ ok o'
    → validate (record o { status = s; updated_at = at }) ≡ ok o'
unfolding transition_to
moved-validated o s at h = ground arith

pub finished-validated :
    (o : WorkOrder) (r : WorkOrderReceipt) {o' : WorkOrder}
    → complete o r ≡ ok o'
    → validate (with_receipt o r) ≡ ok o'
unfolding complete
finished-validated o r h = ground arith

Step-IsValid : {o o' : WorkOrder} → Step o o' → IsValid o'
Step-IsValid {o} (moved s at h) = validated-IsValid _ (moved-validated o s at h)
Step-IsValid {o} (finished r h) = validated-IsValid _ (finished-validated o r h)

-- Every order that the methods make of a valid one is valid: its times are aware and ordered, and
-- it holds a whole receipt if it is completed, and no part of one otherwise.
pub Reach-IsValid : {o o' : WorkOrder} → IsValid o → Reach o o' → IsValid o'
Reach-IsValid v here = v
Reach-IsValid v (next r s) = Step-IsValid s

-- The data that no transition changes.
pub record SameOrder (o o' : WorkOrder) : Type 0 where
  pub work_order_id : o'.work_order_id ≡ o.work_order_id
  pub batch_id : o'.batch_id ≡ o.batch_id
  pub customer_id : o'.customer_id ≡ o.customer_id
  pub material_name : o'.material_name ≡ o.material_name
  pub action : o'.action ≡ o.action
  pub created_at : o'.created_at ≡ o.created_at

Step-SameOrder : {o o' : WorkOrder} → Step o o' → SameOrder o o'
Step-SameOrder {o} {o'} (moved s at h) =
    rw (← validate-same (record o { status = s; updated_at = at }) o' (moved-validated o s at h))
      (record {
        work_order_id = refl;
        batch_id = refl;
        customer_id = refl;
        material_name = refl;
        action = refl;
        created_at = refl;
      })
Step-SameOrder {o} {o'} (finished r h) =
    rw (← validate-same (with_receipt o r) o' (finished-validated o r h)) (record {
      work_order_id = refl;
      batch_id = refl;
      customer_id = refl;
      material_name = refl;
      action = refl;
      created_at = refl;
    })

-- how many changes a status leaves room for
abbrev rank : WorkOrderStatus → ℕ
rank pending = 2
rank in_progress = 1
rank completed = 0
rank cancelled = 0

may_become-rank : (s t : WorkOrderStatus) → may_become s t ≡ true → suc (rank t) ≤ rank s
unfolding may_become
may_become-rank s t h = ground arith

Step-legal : {o o' : WorkOrder} → Step o o' → may_become o.status o'.status ≡ true
unfolding transition_to complete
Step-legal {o} {o'} (moved s at h) =
    ground (
      arith,
      validate-same (record o { status = s; updated_at = at }) o' (moved-validated o s at h),
    )
Step-legal {o} {o'} (finished r h) =
    ground (arith, validate-same (with_receipt o r) o' (finished-validated o r h))

-- Every change of an order, by either method, is one that the transition table lists; it leaves
-- what the order is about alone, and the order that it makes is valid.
pub Step_lem :
    {o o' : WorkOrder}
    → Step o o'
    → (may_become o.status o'.status ≡ true) × SameOrder o o' × IsValid o'
Step_lem s = (Step-legal s, Step-SameOrder s, Step-IsValid s)

steps-rank : {o o' : WorkOrder} (r : Reach o o') → steps r + rank o'.status ≤ rank o.status
unfolding steps
steps-rank here = omega arith
steps-rank (next {o'} {o''} r s) =
    omega (arith, steps-rank r, may_become-rank o'.status o''.status (Step-legal s))

-- No order changes its status more than twice.
pub steps-le : {o o' : WorkOrder} (r : Reach o o') → steps r ≤ 2
steps-le {o} r = omega (arith, steps-rank r, rank-le o.status)
  where
    rank-le : (s : WorkOrderStatus) → rank s ≤ 2
    rank-le s = ground arith

-- A completed or cancelled order changes no more.
pub terminal_absorbs :
    {o o' : WorkOrder} → (o.status ≡ completed) ⊎ (o.status ≡ cancelled) → ¬ Step o o'
terminal_absorbs {o} {o'} end s = ground (arith, may_become-rank o.status o'.status (Step-legal s))
