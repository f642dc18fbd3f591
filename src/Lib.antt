-- ===== src/Lib.antt =====
-- Shelf-Life Copilot: a service that watches the expiry of inventory, asks a language model for a
-- disposal suggestion, takes an operator's decision from a chat card, and follows the work order that
-- the decision opens. This library models its Python code (src/) and proves what its parts promise.
--
-- How the parts interact. A scan (scheduler/runner.py) loads a customer's batches, raises an alert for
-- each that is close to expiry (alerts/monitor.py), asks the engine (suggestion/engine.py) for a
-- suggestion and stores it. Scans run as tasks of a durable queue (task_queue.py) or on demand
-- (api/router.py), on batches of files or of an ERP system (repository/erp.py). A callback
-- (webhook/router.py) claims the id of its event in the idempotency store, runs the click or text
-- handler on the decision, suggestion and revision stores, and stores its answer. An approval writes a
-- decision and a work order in one transaction. The allocation (optimization.py) shares capacities
-- among batches; its plan is stored, and executed once. Reports (reports/) and the quality gate
-- (quality.py) count what the decisions saved, runtime/security.py guards the endpoints, and every
-- store has a backend for SQLite and one for PostgreSQL (persistence/postgres.py).
--
-- Files and code (paths below src/):
--   Prelude               shared names: tests, exceptions as values, tables as lists of rows, sorting,
--                         slices, integers
--   Models                models/: `Models.WorkOrder` is models/work_order.py with its two methods;
--                         `Models.Floats` is the arithmetic of floats
--   Alerts                alerts/monitor.py: calculate_days_left, classify_severity, scan_batch
--   Persistence.Approvals persistence/decision_store.py: save, record_approval (with its two inserts)
--   Persistence.Listings  list_for_period of the decisions, list_for_customer of the work orders
--   Persistence.WorkOrderStore, IdempotencyStore, RevisionStore, SuggestionStore, AuditStore
--                         the stores of the same names in persistence/, an operation each
--   Persistence.OptimizationStore
--                         persistence/optimization_store.py: save, get, execute
--   Persistence.Migrations
--                         persistence/migrations.py: run_migrations
--   Persistence.Postgres  persistence/postgres.py: a child for each store and the rate limiter
--   TaskQueue             task_queue.py: DurableTaskQueue, PostgresTaskQueue in TaskQueue.Postgres, and
--                         TaskWorker.run_once in TaskQueue.Worker
--   Webhook               webhook/: Event is schemas.py, EventKey and Click are handlers.py, Callback is
--                         router.py
--   Completion            api/router.py: complete_work_order and _claim_or_replay
--   Api                   api/router.py: Scans, Plans and Queries are its other endpoints, Paging is _page
--   Scan                  scheduler/runner.py and suggestion/engine.py
--   Optimization          optimization.py: priority_baseline, the plan in Plans, evaluate_optimizer in Gate
--   Repository.Erp        repository/erp.py: PagedERPRepository
--   Quality, Reports      quality.py; reports/aggregator.py, sources.py and runner.py
--   Security              runtime/security.py and runtime/tenant.py
--   Examples              concrete inputs for the theorems
-- Each store is a record or list of rows, oldest first, and each operation a function from the store to
-- its result and the store after it; a transaction that fails leaves the store before it. The unique
-- constraints of persistence/migrations.py are tests of the inserts. An exception is a value of
-- `Prelude.Errors`. Runs of several callers are lists of calls, applied one after the other, as the
-- lock around the connection orders them.
--
-- Conventions. Instants are microseconds, days are ordinals, and an amount is a float that is not
-- negative, as a number of units, where a unit is a power of two of which all amounts at hand are
-- multiples. The allocation, its gate and the reports take the operations of floats as an argument
-- (Models.Floats), with what IEEE 754 says of them as a hypothesis where it matters: a result of at
-- most 2 ^ 53 units is exact. Clocks, uuid and hash functions, `str.strip`, JSON texts, the
-- batch repository, the ERP client, the language model and the scan runner of a callback are arguments.
-- Every loop of the modelled code is over a list, or counts retries, but one: the rounds of
-- `load_batches` of the ERP adapter, which follow cursors. They run on fuel, and one round more than there are cursors is enough,
-- since a cursor that comes again ends the load. A client that follows the pages of a listing
-- (`Api.Paging.follow`, a description and no code) has fuel too: one round more than there are items.
--
-- Not modelled: the HTTP layer's parsing, logs and metrics, cards and texts, the schedulers, the
-- renderer, plugins, configuration and start-up, and the connections to databases, which are glue or
-- third-party code; the HTTP client of SAP, the JSON files of the demonstration, the measurement of
-- language models (evaluation.py), the audit of denied requests, and how PostgreSQL transactions take and
-- release row locks, which a claim of the queue has as an argument.
pub mod Alerts
pub mod Api
pub mod Completion
pub mod Examples
pub mod Models
pub mod Optimization
pub mod Persistence
pub mod Prelude
pub mod Quality
pub mod Reports
pub mod Repository
pub mod Scan
pub mod Security
pub mod TaskQueue
pub mod Webhook
