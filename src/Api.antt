-- ===== src/Api.antt =====
-- The HTTP endpoints (src/api/router.py).
pub mod Paging
pub mod Plans
pub mod Scans
pub mod Queries
