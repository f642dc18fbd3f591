-- ===== src/Persistence/AuditStore.antt =====
-- `SecurityAuditStore` (src/persistence/audit_store.py) on the table `security_audit_events`. A limit and
-- an offset that the endpoints have read are not negative.
pub mod Listing
use Prim.Native.String
use text.Mathlib.Text.{is_lt}
use shelf_life_copilot.Prelude.{
  ℕ, ◌+◌, String, Bool, true, false, not, ◌&&◌, ◌||◌, Option, none, some, List, [], ◌∷◌, ◌++◌,
  DateTime, Result, ok, err, guard, ◌>>◌, value_error, integrity_error, ◌==◌, nat_eq, ltb, leb,
  if◌then◌else◌,
}
use shelf_life_copilot.Prelude.Table.{contains, delete_where, count_where}
use shelf_life_copilot.Prelude.Slices.{slice}
use shelf_life_copilot.Prelude.Sorting.{filter, sort_by}
use shelf_life_copilot.Persistence.Approvals.{stored}

pub record SecurityAuditEvent : Type 0 where
  pub event_id : String
  pub occurred_at : DateTime
  pub event_type : String
  pub subject : String
  pub reason : String
  pub path : String
  pub customer_id : Option String
  pub trace_id : Option String

-- the field constraints, which construction checks
unfoldable pub validate_event : SecurityAuditEvent → Result SecurityAuditEvent
validate_event e =
    guard (not (e.event_id == "")) value_error
    >> guard e.occurred_at.tz value_error
    >> guard (not (e.event_type == "")) value_error
    >> guard (not (e.subject == "")) value_error
    >> guard (not (e.reason == "")) value_error
    >> guard (not (e.path == "")) value_error
    >> ok e

abbrev pub AuditEvents : Type 0
AuditEvents = List SecurityAuditEvent

-- `validate_audit_query`
unfoldable pub validate_audit_query : DateTime → DateTime → ℕ → Result (Unit {0})
validate_audit_query start end limit =
    guard (start.tz && end.tz) value_error
    >> guard (ltb start.instant end.instant) value_error
    >> guard (ltb 0 limit) value_error

-- the primary key
abbrev pub has_event_id : String → SecurityAuditEvent → Bool
has_event_id id e = e.event_id == id

-- `record`
unfoldable pub record_event : SecurityAuditEvent → AuditEvents → Result (Unit {0}) × AuditEvents
record_event e t =
    if contains (has_event_id e.event_id) t
    then (err integrity_error, t)
    else (ok tt, t ++ record e { occurred_at = stored e.occurred_at } ∷ [])

-- a NULL column is equal to nothing
abbrev pub is_customer : String → Option String → Bool
is_customer customer none = false
is_customer customer (some c) = c == customer

-- the WHERE clause of `list_for_period`
abbrev pub in_period : String → DateTime → DateTime → SecurityAuditEvent → Bool
in_period customer start end e =
    is_customer customer e.customer_id
    && (leb start.instant e.occurred_at.instant && ltb e.occurred_at.instant end.instant)

-- ORDER BY occurred_at DESC, event_id ASC
abbrev pub newer : SecurityAuditEvent → SecurityAuditEvent → Bool
newer a b =
    ltb b.occurred_at.instant a.occurred_at.instant
    || (nat_eq a.occurred_at.instant b.occurred_at.instant
        && is_lt (String.compare a.event_id b.event_id))

-- the rows of the period in their order
unfoldable pub period : String → DateTime → DateTime → AuditEvents → AuditEvents
unfolding filter sort_by
period customer start end t = sort_by newer (filter (in_period customer start end) t)

-- `list_for_period`
unfoldable pub list_for_period :
    String → DateTime → DateTime → ℕ → ℕ → AuditEvents → Result AuditEvents
unfolding period slice
list_for_period customer start end limit offset t =
    validate_audit_query start end limit >> ok (slice limit offset (period customer start end t))

abbrev pub is_old : DateTime → SecurityAuditEvent → Bool
is_old cutoff e = ltb e.occurred_at.instant cutoff.instant

-- `purge_before`, which returns the number of deleted rows
unfoldable pub purge_before : DateTime → AuditEvents → Result ℕ × AuditEvents
purge_before cutoff t =
    if cutoff.tz
    then (ok (count_where (is_old cutoff) t), delete_where (is_old cutoff) t)
    else (err value_error, t)
