-- ===== src/Persistence/Approvals/Keeps.antt =====
-- The constraints of the tables `decisions` and `work_orders`, kept by `DecisionStore`.
use shelf_life_copilot.Prelude.{
  ℕ, ◌+◌, ◌≤◌, String, ◌≡◌, refl, Bool, true, false, ◌||◌, Option, none, some, List, [], ◌∷◌, ◌++◌,
  ok, arith, nat_eq,
}
use shelf_life_copilot.Prelude.Table.{All, contains, All-append, All-map}
use shelf_life_copilot.Prelude.Distinct.{
  Distinct, Distinct-append, All-contains-false, contains-append_true, contains-append_last,
}
use shelf_life_copilot.Models.Decision.{Decision}
use shelf_life_copilot.Models.WorkOrder.{WorkOrder, is_completed, validate}
use shelf_life_copilot.Models.WorkOrder.Lifecycle.{IsValid}
use shelf_life_copilot.Persistence.Approvals.{
  DecisionRow, WorkOrderRow, Tables, empty, for_batch, has_order_id, same_key, fresh_columns, save,
  append_decision, decision_values, approve,
}

-- what the unique constraints of `work_orders` forbid of two rows
abbrev pub orders_conflict : WorkOrderRow → WorkOrderRow → Bool
orders_conflict a b =
    has_order_id b.order.work_order_id a
    || (nat_eq a.decision_id b.decision_id || for_batch b.order.customer_id b.order.batch_id a)

abbrev keys_match : Option String → Option String → Bool
keys_match none k = false
keys_match (some j) k = same_key j k

-- the primary key and the unique index of `decisions`
abbrev pub decisions_conflict : DecisionRow → DecisionRow → Bool
decisions_conflict a b = nat_eq a.id b.id || keys_match b.idempotency_key a.idempotency_key

abbrev pub has_id : ℕ → DecisionRow → Bool
has_id id d = nat_eq d.id id

pub record IsSound (t : Tables) : Type 0 where
  pub orders_distinct : Distinct orders_conflict t.work_orders
  pub decisions_distinct : Distinct decisions_conflict t.decisions
  pub ids_bounded : All (λ d. d.id ≤ t.last_id) t.decisions
  pub linked : All (λ w. contains (has_id w.decision_id) t.decisions ≡ true) t.work_orders
  pub orders_valid : All (λ w. IsValid w.order) t.work_orders

pub IsSound-empty : IsSound empty
IsSound-empty = record {
  orders_distinct = tt;
  decisions_distinct = tt;
  ids_bounded = tt;
  linked = tt;
  orders_valid = tt;
}

fresh_id :
    (key : Option String) (n : ℕ) (d : Decision) (xs : List DecisionRow)
    → All (λ x. x.id ≤ n) xs
    → All (λ x. keys_match key x.idempotency_key ≡ false) xs
    → All
        (λ x.
          decisions_conflict x (record { id = n + 1; decision = d; idempotency_key = key }) ≡ false)
        xs
fresh_id key n d [] h k = tt
fresh_id key n d (x ∷ xs) h k = (ground arith, fresh_id key n d xs h.1 k.1)

append_decision-IsSound :
    (d : Decision) (key : Option String) (t : Tables)
    → IsSound t
    → All (λ x. keys_match key x.idempotency_key ≡ false) t.decisions
    → IsSound (append_decision d key t)
append_decision-IsSound d key t s free = record {
  orders_distinct = s.orders_distinct;
  decisions_distinct =
      Distinct-append decisions_conflict t.decisions _ s.decisions_distinct
        (fresh_id key t.last_id (decision_values d) t.decisions s.ids_bounded free);
  ids_bounded =
      All-append (λ x. x.id ≤ t.last_id + 1) t.decisions _
        (All-map (λ x. x.id ≤ t.last_id) (λ x. x.id ≤ t.last_id + 1) (λ x h. omega arith)
          t.decisions s.ids_bounded)
        (omega arith, tt);
  linked =
      All-map (λ w. contains (has_id w.decision_id) t.decisions ≡ true)
        (λ w. contains (has_id w.decision_id) (t.decisions ++ _ ∷ []) ≡ true)
        (λ w h. contains-append_true (has_id w.decision_id) t.decisions _ h) t.work_orders s.linked;
  orders_valid = s.orders_valid;
}

no_keys : (xs : List DecisionRow) → All (λ x. keys_match none x.idempotency_key ≡ false) xs
no_keys [] = tt
no_keys (x ∷ xs) = (refl, no_keys xs)

-- Saving a decision keeps the constraints.
pub save-IsSound : (d : Decision) (t : Tables) → IsSound t → IsSound (save d t).1
unfolding save
save-IsSound d t s = append_decision-IsSound d none t s (no_keys t.decisions)

-- the tables after both inserts of `record_approval`
abbrev pub approved_tables : Decision → WorkOrder → String → Tables → Tables
approved_tables d o key t = record (append_decision d (some key) t) {
  work_orders =
      t.work_orders ++ record { decision_id = t.last_id + 1; order = fresh_columns o } ∷ [];
}

-- Both inserts go through exactly when no unique constraint is in the way, and then add one row to
-- each table.
pub record IsFree (o : WorkOrder) (key : String) (t : Tables) : Type 0 where
  pub key_free : contains (λ r. same_key key r.idempotency_key) t.decisions ≡ false
  pub id_free : contains (has_order_id o.work_order_id) t.work_orders ≡ false
  pub decision_free :
      contains (λ (r : WorkOrderRow). nat_eq r.decision_id (t.last_id + 1)) t.work_orders ≡ false
  pub batch_free : contains (for_batch o.customer_id o.batch_id) t.work_orders ≡ false

pub approve-eq-ok :
    (d : Decision) (o : WorkOrder) (key : String) (t : Tables) {t' : Tables}
    → approve d o key t ≡ ok t'
    → IsFree o key t × (t' ≡ approved_tables d o key t)
unfolding approve
approve-eq-ok d o key t h = (ground arith, ground arith)

pub approve-free :
    (d : Decision) (o : WorkOrder) (key : String) (t : Tables)
    → IsFree o key t
    → approve d o key t ≡ ok (approved_tables d o key t)
unfolding approve
approve-free d o key t f = ground arith

free_row :
    (o : WorkOrder) (n : ℕ) (xs : List WorkOrderRow)
    → All (λ x. has_order_id o.work_order_id x ≡ false) xs
    → All (λ (x : WorkOrderRow). nat_eq x.decision_id n ≡ false) xs
    → All (λ x. for_batch o.customer_id o.batch_id x ≡ false) xs
    → All (λ x. orders_conflict x (record { decision_id = n; order = fresh_columns o }) ≡ false) xs
free_row o n [] a b c = tt
free_row o n (x ∷ xs) a b c = (ground arith, free_row o n xs a.1 b.1 c.1)

pub fresh_columns-IsValid :
    (o : WorkOrder) → IsValid o → is_completed o.status ≡ false → IsValid (fresh_columns o)
unfolding validate
fresh_columns-IsValid o v p = ground arith

pub approved_tables-IsSound :
    (d : Decision) (o : WorkOrder) (key : String) (t : Tables)
    → IsSound t
    → IsValid o
    → is_completed o.status ≡ false
    → IsFree o key t
    → IsSound (approved_tables d o key t)
approved_tables-IsSound d o key t s v p f =
    let added =
      append_decision-IsSound d (some key) t s (All-contains-false _ t.decisions f.key_free) in
    record {
      orders_distinct = Distinct-append orders_conflict t.work_orders _ s.orders_distinct (
          free_row o (t.last_id + 1) t.work_orders (All-contains-false _ _ f.id_free)
            (All-contains-false _ _ f.decision_free) (All-contains-false _ _ f.batch_free));
      decisions_distinct = added.decisions_distinct;
      ids_bounded = added.ids_bounded;
      linked =
          All-append
            (λ w.
              contains (has_id w.decision_id) (
                t.decisions
                ++ record {
                  id = t.last_id + 1;
                  decision = decision_values d;
                  idempotency_key = some key;
                }
                  ∷ [])
              ≡ true)
            t.work_orders _ added.linked
            (contains-append_last (has_id (t.last_id + 1)) t.decisions _ (ground arith), tt);
      orders_valid =
          All-append (λ w. IsValid w.order) t.work_orders _ s.orders_valid
            (fresh_columns-IsValid o v p, tt);
    }
