-- ===== src/Api/Queries/Tenants.antt =====
-- No reader sees another customer's data (src/api/router.py).
use shelf_life_copilot.Prelude.{
  ℕ, String, ◌≡◌, refl, Bool, true, false, Option, List, DateTime, Result, ok, err, Bool-cases, inl,
  inr, ◌==◌, if◌then◌else◌,
}
use shelf_life_copilot.Prelude.Table.{All, contains}
use shelf_life_copilot.Models.WorkOrder.{WorkOrder}
use shelf_life_copilot.Persistence.Approvals.{Tables}
use shelf_life_copilot.Persistence.AuditStore.{AuditEvents, list_for_period}
use shelf_life_copilot.Persistence.AuditStore.Listing.{IsListing, list_for_period-IsListing}
use shelf_life_copilot.Persistence.Listings.{list_for_customer, list_for_customer-All}
use shelf_life_copilot.Security.{Principal, Access, granted, denied, require_customer}
use shelf_life_copilot.Api.Queries.{
  Reply, answered, refused, authorized, paged, is_ordered_range, list_work_orders,
  list_security_audit_events,
}

-- The caller has access to the customer.
abbrev pub HasCustomer : Principal → String → Type 0
HasCustomer p customer = contains (λ c. c == customer) p.customer_ids ≡ true

granted-HasCustomer :
    (p : Principal) (customer : String)
    → require_customer p customer ≡ granted tt
    → HasCustomer p customer
unfolding require_customer
granted-HasCustomer p customer h =
    elim (Bool-cases (contains (λ c. c == customer) p.customer_ids)) [
      | inl e ↦ e
      | inr e ↦ absurd (cc (rw e at h))
    ]

answered-granted :
    {A : Type 0} (x : Access (Unit {0})) (r : Reply A) {a : A}
    → authorized x r ≡ answered a
    → (x ≡ granted tt) × (r ≡ answered a)
answered-granted (denied n) r h = absurd (cc)
answered-granted (granted tt) r h = (refl, h)

paged-answered :
    {A : Type 0} (cursor limit : ℕ) (m : Result (List A)) {items : List A} {next : Option ℕ}
    → paged cursor limit m ≡ answered (items, next)
    → m ≡ ok items
paged-answered cursor limit (err e) h = absurd (cc)
paged-answered cursor limit (ok xs) h = cc

-- Work orders that the endpoint lists are all of the customer asked for, and the caller has access to
-- this customer.
pub list_work_orders-All :
    (t : Tables) (p : Principal) (customer : String) (cursor limit : ℕ) {items : List WorkOrder}
    {next : Option ℕ}
    → list_work_orders t p customer cursor limit ≡ answered (items, next)
    → HasCustomer p customer × All (λ o. o.customer_id ≡ customer) items
unfolding list_work_orders
list_work_orders-All t p customer cursor limit h =
    let (allowed, reply) = answered-granted (require_customer p customer) _ h in
    (
      granted-HasCustomer p customer allowed,
      list_for_customer-All customer limit cursor t
          (paged-answered cursor limit (list_for_customer customer limit cursor t) reply),
    )

in_range :
    {A : Type 0} (b : Bool) (r : Reply A) {a : A}
    → (if b then r else refused 422) ≡ answered a
    → r ≡ answered a
in_range true r h = h
in_range false r h = absurd (cc)

-- Audit events that the endpoint lists are a page of those of the customer asked for in the period, and
-- the caller has access to this customer.
pub list_security_audit_events-IsListing :
    (t : AuditEvents) (p : Principal) (customer : String) (start end : DateTime) (cursor limit : ℕ)
    {items : AuditEvents} {next : Option ℕ}
    → list_security_audit_events t p customer start end cursor limit ≡ answered (items, next)
    → HasCustomer p customer × IsListing customer start end limit cursor t items
unfolding list_security_audit_events
list_security_audit_events-IsListing t p customer start end cursor limit h =
    let (allowed, reply) = answered-granted (require_customer p customer) _ h in
    (
      granted-HasCustomer p customer allowed,
      list_for_period-IsListing customer start end limit cursor t (
          paged-answered cursor limit (list_for_period customer start end limit cursor t)
            (in_range (is_ordered_range start end) _ reply)),
    )
