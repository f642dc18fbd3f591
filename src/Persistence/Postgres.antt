-- ===== src/Persistence/Postgres.antt =====
-- The stores of src/persistence/postgres.py. A method is one transaction, and a rollback leaves the rows
-- before it, but not the number that a sequence has given out.
pub mod RateLimiter
pub mod Decisions
pub mod Requests
pub mod Revisions
pub mod Orders
pub mod Suggestions
pub mod Audit
pub mod Plans
