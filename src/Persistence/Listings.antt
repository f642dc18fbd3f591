-- ===== src/Persistence/Listings.antt =====
-- The period query of the decisions and the customer's list of work orders, in both backends
-- (src/persistence/decision_store.py, work_order_store.py and postgres.py).
use Prim.Native.String
use text.Mathlib.Text.{is_lt}
use shelf_life_copilot.Prelude.{
  same_ok, ap, sym, ◌∙◌, ℕ, ◌≤◌, ◌<◌, eq_iff, String, ◌≡◌, refl, Bool, true, false, ◌&&◌, ◌||◌,
  List, [], ◌∷◌, DateTime, Result, ok, err, guard, ◌>>◌, ◌>>=◌, >>=-eq-ok, value_error, ◌==◌,
  nat_eq, ltb, leb, arith, if◌then◌else◌,
}
use shelf_life_copilot.Prelude.Table.{All, All-map}
use shelf_life_copilot.Prelude.Slices.{slice, take, drop, All-take, All-drop}
use shelf_life_copilot.Prelude.Sorting.{filter, sort_by, filter-All, sort_by-All}
use shelf_life_copilot.Models.Decision.{Decision, validate_decision}
use shelf_life_copilot.Models.WorkOrder.{WorkOrder, validate}
use shelf_life_copilot.Models.WorkOrder.Lifecycle.{validate-same}
use shelf_life_copilot.Persistence.Approvals.{DecisionRow, WorkOrderRow, Tables}

-- `[from_row(row) for row in rows]`
unfoldable pub read_rows {ℓ κ} :
    {Row : Type ℓ} {V : Type κ} → (Row → Result V) → List Row → Result (List V)
read_rows from_row [] = ok []
read_rows from_row (r ∷ rows) = from_row r >>= λ v. read_rows from_row rows >>= λ vs. ok (v ∷ vs)

-- customer_id = ? AND decided_at >= ? AND decided_at < ?
abbrev pub decided_in : String → DateTime → DateTime → DecisionRow → Bool
decided_in customer start end r =
    r.decision.customer_id == customer
    && (leb start.instant r.decision.decided_at.instant
        && ltb r.decision.decided_at.instant end.instant)

abbrev pub decided_before : DecisionRow → DecisionRow → Bool
decided_before a b = ltb a.decision.decided_at.instant b.decision.decided_at.instant

-- `DecisionStore.list_for_period`
unfoldable pub list_decisions : String → DateTime → DateTime → Tables → Result (List Decision)
unfolding read_rows sort_by filter
list_decisions customer start end t =
    guard start.tz value_error
    >> guard end.tz value_error
    >> read_rows (λ r. validate_decision r.decision)
        (sort_by decided_before (filter (decided_in customer start end) t.decisions))

-- `PostgresDecisionStore.list_for_period`
unfoldable pub list_decisions_postgres :
    String → DateTime → DateTime → Tables → Result (List Decision)
unfolding read_rows sort_by filter
list_decisions_postgres customer start end t =
    if start.tz && end.tz
    then read_rows (λ r. validate_decision r.decision)
        (sort_by decided_before (filter (decided_in customer start end) t.decisions))
    else err value_error

-- ORDER BY created_at DESC, work_order_id ASC
abbrev pub created_after : WorkOrderRow → WorkOrderRow → Bool
created_after a b =
    ltb b.order.created_at.instant a.order.created_at.instant
    || (nat_eq a.order.created_at.instant b.order.created_at.instant
        && is_lt (String.compare a.order.work_order_id b.order.work_order_id))

-- `WorkOrderStore.list_for_customer`, and that of `PostgresWorkOrderStore`
unfoldable pub list_for_customer : String → ℕ → ℕ → Tables → Result (List WorkOrder)
unfolding read_rows sort_by filter slice
list_for_customer customer limit offset t =
    read_rows (λ r. validate r.order)
      (slice limit offset
        (sort_by created_after (filter (λ r. r.order.customer_id == customer) t.work_orders)))

-- Both backends list the same decisions of a period.
pub list_decisions_same :
    (customer : String) (start end : DateTime) (t : Tables)
    → list_decisions_postgres customer start end t ≡ list_decisions customer start end t
unfolding list_decisions_postgres list_decisions
list_decisions_same customer start end t = by_zones start.tz end.tz _
  where
    by_zones :
        (a b : Bool) (m : Result (List Decision))
        → (if a && b then m else err value_error)
          ≡ (guard a value_error >> guard b value_error >> m)
    by_zones true true m = refl
    by_zones true false m = refl
    by_zones false b m = refl

valid_row : (d : Decision) {v : Decision} → validate_decision d ≡ ok v → d ≡ v
unfolding validate_decision
valid_row d h = ground arith

read_rows-All {ℓ κ} :
    {Row : Type ℓ} {V : Type 0} (from_row : Row → Result V) (P : V → Type κ) (rows : List Row)
    {vs : List V}
    → All (λ r. (v : V) → from_row r ≡ ok v → P v) rows
    → read_rows from_row rows ≡ ok vs
    → All P vs
unfolding read_rows
read_rows-All from_row P [] a h = rw (← same_ok h) tt
read_rows-All from_row P (r ∷ rows) a h =
    let (v, first, h2) = >>=-eq-ok (from_row r) _ h in
    let (vs, more, h3) = >>=-eq-ok (read_rows from_row rows) _ h2 in
    rw (← same_ok h3) (a.0 v first, read_rows-All from_row P rows a.1 more)

-- The decisions that a listing returns are of the customer and within the period, whose end is not
-- part of it.
pub list_decisions-All :
    (customer : String) (start end : DateTime) (t : Tables) {ds : List Decision}
    → list_decisions customer start end t ≡ ok ds
    → All
        (λ d.
          (d.customer_id ≡ customer)
          × (start.instant ≤ d.decided_at.instant)
          × (d.decided_at.instant < end.instant))
        ds
unfolding list_decisions
list_decisions-All customer start end t h =
    let rows = sort_by decided_before (filter (decided_in customer start end) t.decisions) in
    let (checked, aware, h3) =
      >>=-eq-ok (guard start.tz value_error >> guard end.tz value_error) _ h in
    read_rows-All (λ r. validate_decision r.decision) _ rows
      (All-map (λ r. decided_in customer start end r ≡ true) _
        (λ r fits d same. rw (valid_row r.decision same) at (within r fits)) rows
        (sort_by-All (λ r. decided_in customer start end r ≡ true) decided_before
          (filter (decided_in customer start end) t.decisions)
          (filter-All (decided_in customer start end) t.decisions)))
      h3
  where
    within :
        (r : DecisionRow)
        → decided_in customer start end r ≡ true
        → (r.decision.customer_id ≡ customer)
          × (start.instant ≤ r.decision.decided_at.instant)
          × (r.decision.decided_at.instant < end.instant)
    within r fits =
        ((eq_iff r.decision.customer_id customer).0 (ground arith), ground arith, ground arith)

-- The work orders that a customer's listing returns are this customer's.
pub list_for_customer-All :
    (customer : String) (limit offset : ℕ) (t : Tables) {os : List WorkOrder}
    → list_for_customer customer limit offset t ≡ ok os
    → All (λ o. o.customer_id ≡ customer) os
unfolding list_for_customer slice
list_for_customer-All customer limit offset t h =
    let mine : WorkOrderRow → Bool = λ r. r.order.customer_id == customer in
    let rows = sort_by created_after (filter mine t.work_orders) in
    read_rows-All (λ r. validate r.order) (λ o. o.customer_id ≡ customer)
      (take limit (drop offset rows))
      (All-map (λ r. mine r ≡ true) _
        (λ r fits o same.
          ap (λ (x : WorkOrder). x.customer_id) (sym (validate-same r.order o same))
          ∙ (eq_iff r.order.customer_id customer).0 fits)
        (take limit (drop offset rows))
        (All-take (λ r. mine r ≡ true) limit (drop offset rows)
          (All-drop (λ r. mine r ≡ true) offset rows
            (sort_by-All (λ r. mine r ≡ true) created_after (filter mine t.work_orders)
              (filter-All mine t.work_orders)))))
      h
