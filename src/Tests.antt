-- ===== src/Tests.antt =====
-- The theorems at concrete inputs, and runs of the definitions.
pub mod Fixtures
pub mod Policy
pub mod Audit
pub mod Execution
pub mod Worker
pub mod Tools
pub mod Sentiment
pub mod Pii
pub mod Conversation
pub mod Business
pub mod Context
pub mod Hooks
pub mod Storage
pub mod Cached
pub mod Office
pub mod Tickets
pub mod Notify
pub mod Lock
pub mod Call
pub mod Keyed
pub mod Knowledge
