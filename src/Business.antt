-- ===== src/Business.antt =====
-- The back office (apps/business-api): the retention and integrity jobs, the reads of the
-- supervisors, the roles, and the endpoints.
pub mod Retention
pub mod Supervision
pub mod Roles
pub mod Kpis
pub mod Integrity
pub mod Records
pub mod Api
