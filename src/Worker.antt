-- ===== src/Worker.antt =====
-- The agent worker (apps/agent-worker): the state of a session, the guarded path of a sensitive
-- action, and the tools that take it.
pub mod Session
pub mod Outcomes
pub mod Clients
pub mod Guarded
pub mod Identity
pub mod Tools
pub mod Sentiment
pub mod Conversation
pub mod Profile
pub mod Hooks
pub mod Handoffs
pub mod Call
