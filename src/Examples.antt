-- ===== src/Examples.antt =====
-- Concrete inputs at which the conditions of the theorems hold, with what the theorems then say.
mod Tasks
mod Orders
mod Requests
mod Callbacks
mod Plans
mod Completions
mod Backends
mod Supplies
mod Execution
mod Figures
mod Scans
mod Queries
mod Migrations
mod Gates
mod Doubles
