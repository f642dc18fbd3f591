-- ===== src/Persistence.antt =====
-- The stores (src/persistence): those of SQLite, and those of PostgreSQL in `Postgres`.
pub mod Approvals
pub mod Listings
pub mod Migrations
pub mod OptimizationStore
pub mod AuditStore
pub mod Postgres
pub mod WorkOrderStore
pub mod IdempotencyStore
pub mod RevisionStore
pub mod SuggestionStore
