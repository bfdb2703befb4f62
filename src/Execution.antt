-- ===== src/Execution.antt =====
-- The execution service (services/execution-service): idempotent dispatch of authorised actions,
-- with a ledger, an audit entry and a projection into the domain's tables.
pub mod Executor
pub mod Projections
pub mod Service
