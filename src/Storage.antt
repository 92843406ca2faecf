-- ===== src/Storage.antt =====
-- The PostgreSQL repositories of sovereignflow/infrastructure/: each SQL statement is a function on
-- the rows of its tables.
pub mod Tables
pub mod Load
pub mod Ingestion
pub mod Conversations
pub mod GraphRows
pub mod Graph
