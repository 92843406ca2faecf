-- ===== src/Services.antt =====
-- The services of sovereignflow/application/ that the interfaces call.
pub mod Authorization
pub mod Query
pub mod Payload
pub mod IngestionBoundary
pub mod Ingestion
pub mod Conversations
