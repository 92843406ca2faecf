-- ===== src/Storage/Load.antt =====
-- `_load_with_cursor` of sovereignflow/infrastructure/ingestion.py: a job with its command, made from
-- the rows again.
use sovereign_flow.Prelude.{
  String, Bool, true, ◌&&◌, List, [], ◌∷◌, Option, none, some, ◌==◌, keep, ltb,
}
use sovereign_flow.Result.{Error, raised, ErrorClass, Result, ok, err, ◌>>=◌}
use sovereign_flow.Domain.Security.{new_document_security}
use sovereign_flow.Domain.Chunk.{DocumentChunk, new_document_chunk}
use sovereign_flow.Domain.Ingestion.{
  new_node, GraphRelationship, new_relationship, new_ingestion_command, IngestionJob, new_job,
}
use sovereign_flow.Services.Payload.{sorted_by, then_by}
use sovereign_flow.Storage.Tables.{
  JobRow, VersionRow, ChunkRow, RelationshipRow, Tables, Postgres, same_key, find_job, find_version,
}

abbrev pub ingestion_failed : String → Error
ingestion_failed m = raised ErrorClass.ingestion_error m

-- `ORDER BY position`
abbrev pub position_after : ChunkRow → ChunkRow → Bool
position_after c d = ltb d.position c.position

-- `ORDER BY from_source_id, from_chunk_id, to_source_id, to_chunk_id, relationship_type`
abbrev pub row_after : Postgres → RelationshipRow → RelationshipRow → Bool
row_after db r s = then_by (db.collate r.from_node.source_id s.from_node.source_id) (
    then_by (db.collate r.from_node.chunk_id s.from_node.chunk_id) (
      then_by (db.collate r.to_node.source_id s.to_node.source_id) (
        then_by (db.collate r.to_node.chunk_id s.to_node.chunk_id)
          (then_by (db.collate r.relationship_type s.relationship_type) Bool.false))))

abbrev pub of_job_chunk : JobRow → ChunkRow → Bool
of_job_chunk job c = same_key c.key job.key && c.source_version == job.source_version

abbrev pub of_job_relationship : JobRow → RelationshipRow → Bool
of_job_relationship job r = same_key r.owner job.key && r.owner_source_version == job.source_version

unfoldable pub chunk_of_row : JobRow → ChunkRow → Result DocumentChunk
chunk_of_row job row = do
  security ← new_document_security row.clearance_label row.classification_labels
  new_document_chunk (record {
    chunk_id = row.chunk_id;
    domain = job.key.domain;
    tenant_id = job.key.tenant_id;
    source_id = job.key.source_id;
    text = row.text_content;
    source_uri = row.source_uri;
    metadata = row.metadata;
    acl_labels = row.acl_labels;
    security = security;
  })

unfoldable pub relationship_of_row : RelationshipRow → Result GraphRelationship
relationship_of_row row = do
  from_node ← new_node row.from_node
  to_node ← new_node row.to_node
  new_relationship (record {
    from_node = from_node;
    to_node = to_node;
    relationship_type = row.relationship_type;
    metadata = row.metadata;
  })

-- `tuple(make(row) for row in rows)`
unfoldable pub traverse : {A B : Type 0} → (A → Result B) → List A → Result (List B)
traverse make [] = ok []
traverse make (row ∷ rows) = do item ← make row; items ← traverse make rows; ok (item ∷ items)

-- The job of a row of `sf.jobs` and of its row of `sf.source_versions`.
unfoldable pub job_of_rows : Postgres → Tables → JobRow → VersionRow → Result IngestionJob
unfolding chunk_of_row relationship_of_row traverse sorted_by
job_of_rows db t job version = do
  chunks ← traverse (chunk_of_row job) (sorted_by position_after (keep (of_job_chunk job) t.chunks))
  relationships ←
      traverse relationship_of_row
        (sorted_by (row_after db) (keep (of_job_relationship job) t.relationships))
  command ← new_ingestion_command (record {
    idempotency_key = job.idempotency_key;
    domain = job.key.domain;
    tenant_id = job.key.tenant_id;
    source_id = job.key.source_id;
    source_version = job.source_version;
    chunks = chunks;
    relationships = relationships;
    source_uri = version.source_uri;
    metadata = version.metadata;
  })
  new_job (record {
    job_id = job.job_id;
    payload_hash = job.payload_hash;
    status = job.status;
    command = command;
    attempts = job.attempts;
  })

unfoldable pub joined : Postgres → Tables → JobRow → Option VersionRow → Result IngestionJob
unfolding job_of_rows
joined db t job none = err (ingestion_failed "Ingestion job does not exist")
joined db t job (some version) = job_of_rows db t job version

-- `tenant_id IS NULL OR j.tenant_id = tenant_id`
abbrev pub of_tenant : Option String → JobRow → Bool
of_tenant none job = true
of_tenant (some tenant_id) job = job.key.tenant_id == tenant_id

unfoldable pub selected : Postgres → Tables → Option String → Option JobRow → Result IngestionJob
unfolding joined find_version
selected db t tenant_id none = err (ingestion_failed "Ingestion job does not exist")
selected db t tenant_id (some job) = elim (of_tenant tenant_id job) [
  | Bool.true ↦ joined db t job (find_version job.key job.source_version t.source_versions)
  | Bool.false ↦ err (ingestion_failed "Ingestion job does not exist")
]

-- `_load_with_cursor`
unfoldable pub load_rows : Postgres → Tables → String → Option String → Result IngestionJob
unfolding selected find_job
load_rows db t job_id tenant_id = selected db t tenant_id (find_job job_id t.jobs)
