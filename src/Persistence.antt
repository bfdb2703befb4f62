-- ===== src/Persistence.antt =====
-- The shared persistence package (packages/persistence): identifiers, the rows of the tables that
-- the services write, and the database that holds them.
pub mod Uuid
pub mod Tables
pub mod Conversation
pub mod Crm
pub mod Ticketing
