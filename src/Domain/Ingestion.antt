-- ===== src/Domain/Ingestion.antt =====
-- Documents on their way into the index: sovereignflow/domain/models.py.
use sovereign_flow.Prelude.{
  ℕ, String, Bool, not, ◌&&◌, ◌||◌, List, [], ◌∷◌, Option, ◌==◌, leb, mem, is_empty,
}
use sovereign_flow.Result.{Result, ok, validation, guard, ◌>>=◌, ◌>>◌}
use sovereign_flow.Text.Strip.{required}
use sovereign_flow.Value.{Value}
use sovereign_flow.Domain.Chunk.{DocumentChunk}

pub record GraphNodeRef : Type 0 where
  pub source_id : String
  pub chunk_id : String

unfoldable pub new_node : GraphNodeRef → Result GraphNodeRef
new_node n = do
  source_id ← required n.source_id "GraphNodeRef.source_id"
  chunk_id ← required n.chunk_id "GraphNodeRef.chunk_id"
  ok (record { source_id = source_id; chunk_id = chunk_id })

pub record GraphRelationship : Type 0 where
  pub from_node : GraphNodeRef
  pub to_node : GraphNodeRef
  pub relationship_type : String
  pub metadata : List (String × Value)

unfoldable pub new_relationship : GraphRelationship → Result GraphRelationship
new_relationship r = do
  relationship_type ← required r.relationship_type "GraphRelationship.relationship_type"
  ok (record r { relationship_type = relationship_type })

abbrev pub same_node : GraphNodeRef → GraphNodeRef → Bool
same_node m n = m.source_id == n.source_id && m.chunk_id == n.chunk_id

-- `key in relationship_keys`: the nodes and the type are those of a relationship before.
abbrev pub same_relationship : GraphRelationship → GraphRelationship → Bool
same_relationship r s =
    same_node r.from_node s.from_node
    && (same_node r.to_node s.to_node && r.relationship_type == s.relationship_type)

abbrev pub among : GraphRelationship → List GraphRelationship → Bool
among r [] = Bool.false
among r (s ∷ seen) = same_relationship r s || among r seen

pub record IngestionCommand : Type 0 where
  pub idempotency_key : String
  pub domain : String
  pub tenant_id : String
  pub source_id : String
  pub source_version : String
  pub chunks : List DocumentChunk
  pub relationships : List GraphRelationship
  pub source_uri : Option String
  pub metadata : List (String × Value)

-- The loop on the chunks, with the identifiers seen so far; it returns all of them.
unfoldable pub check_chunks :
    String → String → String → List DocumentChunk → List String → Result (List String)
check_chunks domain tenant_id source_id [] seen = ok seen
check_chunks domain tenant_id source_id (chunk ∷ chunks) seen = do
  guard (chunk.domain == domain && (chunk.tenant_id == tenant_id && chunk.source_id == source_id))
      (validation "Every ingestion chunk must match command domain, tenant and source")
  guard (not (mem chunk.chunk_id seen)) (validation "Duplicate ingestion chunk id")
  check_chunks domain tenant_id source_id chunks (chunk.chunk_id ∷ seen)

-- The loop on the relationships, with those seen so far.
unfoldable pub check_relationships :
    String → List String → List GraphRelationship → List GraphRelationship → Result (Unit {0})
check_relationships source_id chunk_ids [] seen = ok tt
check_relationships source_id chunk_ids (r ∷ rs) seen = do
  guard (r.from_node.source_id == source_id)
      (validation "Every ingestion relationship must originate from the command source")
  guard (mem r.from_node.chunk_id chunk_ids)
      (validation "Every ingestion relationship must originate from an ingested chunk")
  guard (not (r.to_node.source_id == source_id && not (mem r.to_node.chunk_id chunk_ids)))
      (validation "An internal relationship target must be an ingested chunk")
  guard (not (among r seen)) (validation "Duplicate ingestion relationship")
  check_relationships source_id chunk_ids rs (r ∷ seen)

unfoldable pub new_ingestion_command : IngestionCommand → Result IngestionCommand
unfolding check_chunks check_relationships
new_ingestion_command c = do
  idempotency_key ← required c.idempotency_key "IngestionCommand.idempotency_key"
  domain ← required c.domain "IngestionCommand.domain"
  tenant_id ← required c.tenant_id "IngestionCommand.tenant_id"
  source_id ← required c.source_id "IngestionCommand.source_id"
  source_version ← required c.source_version "IngestionCommand.source_version"
  guard (not (is_empty c.chunks)) (validation "IngestionCommand.chunks cannot be empty")
  chunk_ids ← check_chunks domain tenant_id source_id c.chunks []
  check_relationships source_id chunk_ids c.relationships []
  ok (record c {
    idempotency_key = idempotency_key;
    domain = domain;
    tenant_id = tenant_id;
    source_id = source_id;
    source_version = source_version;
  })

pub data IngestionJobStatus : Type 0 where
  staged indexing indexed failed : IngestionJobStatus

pub record IngestionJob : Type 0 where
  pub job_id : String
  pub payload_hash : String
  pub status : IngestionJobStatus
  pub command : IngestionCommand
  pub attempts : ℕ

-- `attempts` is a natural number, so that the test on its sign is left out.
unfoldable pub new_job : IngestionJob → Result IngestionJob
new_job j = do
  job_id ← required j.job_id "IngestionJob.job_id"
  payload_hash ← required j.payload_hash "IngestionJob.payload_hash"
  ok (record j { job_id = job_id; payload_hash = payload_hash })

pub record IngestionResult : Type 0 where
  pub job_id : String
  pub domain : String
  pub tenant_id : String
  pub source_id : String
  pub source_version : String
  pub status : IngestionJobStatus
  pub chunk_count : ℕ

unfoldable pub new_ingestion_result : IngestionResult → Result IngestionResult
new_ingestion_result r = do
  job_id ← required r.job_id "IngestionResult.job_id"
  domain ← required r.domain "IngestionResult.domain"
  tenant_id ← required r.tenant_id "IngestionResult.tenant_id"
  source_id ← required r.source_id "IngestionResult.source_id"
  source_version ← required r.source_version "IngestionResult.source_version"
  guard (leb 1 r.chunk_count) (validation "IngestionResult.chunk_count must be greater than zero")
  ok (record r {
    job_id = job_id;
    domain = domain;
    tenant_id = tenant_id;
    source_id = source_id;
    source_version = source_version;
  })
