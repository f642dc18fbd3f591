-- ===== src/Repository.antt =====
-- The sources of batches (src/repository).
pub mod Erp
