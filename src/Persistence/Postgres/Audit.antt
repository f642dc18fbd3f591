-- ===== src/Persistence/Postgres/Audit.antt =====
-- `PostgresSecurityAuditStore` (src/persistence/postgres.py) on the table `security_audit_events`.
use Prim.Native.String
use text.Mathlib.Text.{is_lt}
use shelf_life_copilot.Prelude.{
  ℕ, String, ◌≡◌, refl, Bool, not, ◌&&◌, ◌||◌, [], ◌∷◌, ◌++◌, DateTime, Result, ok, err, ◌>>◌,
  value_error, integrity_error, nat_eq, ltb, leb, if◌then◌else◌, Bool-cases, inl, inr,
}
use shelf_life_copilot.Prelude.Table.{contains, delete_where, count_where}
use shelf_life_copilot.Prelude.Slices.{slice}
use shelf_life_copilot.Prelude.Sorting.{filter, sort_by}
use shelf_life_copilot.Persistence.Approvals.{stored}
use shelf_life_copilot.Persistence.AuditStore.{
  SecurityAuditEvent, AuditEvents, validate_audit_query, has_event_id, is_customer,
}
use shelf_life_copilot.Persistence.AuditStore as AuditStore

-- `record`
unfoldable pub record_event : SecurityAuditEvent → AuditEvents → Result (Unit {0}) × AuditEvents
record_event e t =
    if contains (has_event_id e.event_id) t
    then (err integrity_error, t)
    else (ok tt, t ++ record e { occurred_at = stored e.occurred_at } ∷ [])

-- WHERE customer_id = ... AND occurred_at >= ... AND occurred_at < ...
abbrev pub selected : String → DateTime → DateTime → SecurityAuditEvent → Bool
selected customer start end e =
    is_customer customer e.customer_id
    && (leb start.instant e.occurred_at.instant && ltb e.occurred_at.instant end.instant)

-- ORDER BY occurred_at DESC, event_id ASC
abbrev pub listed_before : SecurityAuditEvent → SecurityAuditEvent → Bool
listed_before a b =
    ltb b.occurred_at.instant a.occurred_at.instant
    || (nat_eq a.occurred_at.instant b.occurred_at.instant
        && is_lt (String.compare a.event_id b.event_id))

-- `list_for_period`
unfoldable pub list_for_period :
    String → DateTime → DateTime → ℕ → ℕ → AuditEvents → Result AuditEvents
unfolding slice sort_by filter
list_for_period customer start end limit offset t =
    validate_audit_query start end limit
    >> ok (slice limit offset (sort_by listed_before (filter (selected customer start end) t)))

-- `purge_before`
unfoldable pub purge_before : DateTime → AuditEvents → Result ℕ × AuditEvents
purge_before cutoff t = if not cutoff.tz then (err value_error, t) else (
  ok (count_where (λ e. ltb e.occurred_at.instant cutoff.instant) t),
  delete_where (λ e. ltb e.occurred_at.instant cutoff.instant) t,
)

-- The PostgreSQL archive lists what the SQLite archive lists.
pub list_same :
    (customer : String) (start end : DateTime) (limit offset : ℕ) (t : AuditEvents)
    → list_for_period customer start end limit offset t
      ≡ AuditStore.list_for_period customer start end limit offset t
unfolding list_for_period AuditStore.list_for_period AuditStore.period
list_same customer start end limit offset t = refl

-- The PostgreSQL archive deletes and counts what the SQLite archive does.
pub purge_same :
    (cutoff : DateTime) (t : AuditEvents) → purge_before cutoff t ≡ AuditStore.purge_before cutoff t
unfolding purge_before AuditStore.purge_before
purge_same cutoff t = elim (Bool-cases cutoff.tz) [ inl e ↦ rw e refl | inr e ↦ rw e refl ]
