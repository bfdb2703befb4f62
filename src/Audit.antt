-- ===== src/Audit.antt =====
-- The audit trail (packages/audit-trail): an append-only, hash-chained ledger.
pub mod Ledger
pub mod Chain
pub mod Tamper
pub mod Lock
