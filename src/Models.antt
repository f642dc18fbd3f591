-- ===== src/Models.antt =====
-- The domain models (src/models).
pub mod Action
pub mod Floats
pub mod Batch
pub mod Customer
pub mod Decision
pub mod Suggestion
pub mod WorkOrder
