-- ===== src/Tests.antt =====
-- Concrete inputs, at which the theorems are applied.
pub mod Data
pub mod Documents
pub mod Texts
pub mod Pipelines
pub mod Actions
pub mod Engine
pub mod Retrieval
pub mod Routing
pub mod Services
pub mod Ingestion
pub mod Conversations
pub mod Graph
