-- ===== src/Policy.antt =====
-- The policy service (services/policy-service): the deterministic rules and their engine, the
-- outbound guardrail, and the service that persists and audits each verdict.
pub mod Types
pub mod Rules
pub mod Engine
pub mod Outbound
pub mod Service
