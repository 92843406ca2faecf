-- ===== src/Domain.antt =====
-- sovereignflow/domain/models.py: the entities that the application works on.
pub mod Security
pub mod Chunk
pub mod Server
pub mod Profile
pub mod Conversation
pub mod Access
pub mod Ingestion
