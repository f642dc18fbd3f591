-- ===== src/Examples/Queries.antt =====
-- The listing of a customer's work orders (src/api/router.py).
use shelf_life_copilot.Prelude.{◌≡◌, refl, none, [], ◌∷◌}
use shelf_life_copilot.Prelude.Table.{All, contains}
use shelf_life_copilot.Prelude.Slices.{slice, take, drop}
use shelf_life_copilot.Prelude.Sorting.{sort_by, filter, insert_by}
use shelf_life_copilot.Models.WorkOrder.{validate, receipt_fits}
use shelf_life_copilot.Persistence.Listings.{list_for_customer, read_rows}
use shelf_life_copilot.Security.{Principal, operator, require_customer}
use shelf_life_copilot.Api.Paging.{page}
use shelf_life_copilot.Api.Queries.{answered, list_work_orders}
use shelf_life_copilot.Api.Queries.Tenants.{HasCustomer, list_work_orders-All}
use shelf_life_copilot.Examples.Orders.{started, moved_tables}

abbrev ann : Principal
ann = record { subject = "ann"; customer_ids = "c1" ∷ []; roles = operator ∷ [] }

lists : list_work_orders moved_tables ann "c1" 0 10 ≡ answered (started ∷ [], none)
unfolding list_work_orders list_for_customer read_rows validate receipt_fits require_customer page
    contains slice take drop sort_by filter insert_by
lists = refl

list_work_orders-All_example : HasCustomer ann "c1" × All (λ o. o.customer_id ≡ "c1") (started ∷ [])
list_work_orders-All_example = list_work_orders-All moved_tables ann "c1" 0 10 lists
