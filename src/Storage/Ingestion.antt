-- ===== src/Storage/Ingestion.antt =====
-- `PostgreSQLIngestionRepository` of sovereignflow/infrastructure/ingestion.py, over the tables. A
-- connection that fails is not modelled, nor are the keys that the constructor of a command has
-- checked already; a method is one transaction, which an exception rolls back.
pub mod Keeps
pub mod Moves
pub mod Consistent
pub mod Inserted
pub mod Marked
pub mod Staging
pub mod Repeated
pub mod Calls
pub mod Marks
pub mod Runs
use sovereign_flow.Prelude.{
  ℕ, suc, ◌+◌, String, Bool, not, ◌&&◌, ◌||◌, List, [], ◌∷◌, ◌++◌, Option, none, some, ◌==◌, eqb,
  if◌then◌else◌, keep,
}
use sovereign_flow.Result.{Error, raised, foreign, ErrorClass, Result, ok, err}
use sovereign_flow.Effect.{Effect, return, throw, lift, gets, modify, ◌>>=◌, ◌>>◌, require, rescue}
use sovereign_flow.Text.Words.{text_take}
use sovereign_flow.Value.{Value}
use sovereign_flow.Domain.Chunk.{DocumentChunk}
use sovereign_flow.Domain.Ingestion.{
  GraphRelationship, IngestionCommand, IngestionJob, IngestionJobStatus, new_job,
}
use sovereign_flow.Storage.Tables.{
  SourceKey, JobRow, VersionRow, ChunkRow, RelationshipRow, SourceRow, Tables, Postgres, source_key,
  same_key, first_row, any_row, row_count, update_rows, has_id, find_job, of_idempotency_key,
  find_version, startable, in_progress, as_indexing, as_indexed, as_failed, staged_job, current_row,
  of_source, upsert_source, target_exists,
}
use sovereign_flow.Storage.Load.{ingestion_failed, load_rows}

-- The tables, and how often `job_id_factory` was called.
pub record Store : Type 0 where
  pub tables : Tables
  pub issued : ℕ

abbrev pub conflict : String → Error
conflict m = raised ErrorClass.conflict m

-- `except (ConflictError, IngestionError): raise` and `except IngestionError: raise`; any other
-- exception is a `DependencyUnavailableError`.
abbrev pub is_conflict_or_ingestion : Error → Bool
is_conflict_or_ingestion (raised ErrorClass.conflict m) = Bool.true
is_conflict_or_ingestion (raised ErrorClass.ingestion_error m) = Bool.true
is_conflict_or_ingestion other = Bool.false

abbrev pub is_ingestion : Error → Bool
is_ingestion (raised ErrorClass.ingestion_error m) = Bool.true
is_ingestion other = Bool.false

abbrev pub passed_on : (Error → Bool) → String → Error → Error
passed_on known message e = if known e then e else raised ErrorClass.dependency_unavailable message

-- A connection's block: what an exception leaves are the tables as they were.
unfoldable pub transaction :
    {A : Type 0} → (Error → Bool) → String → Effect Store A → Effect Store A
transaction known message m s =
    rescue m
      (λ e. modify (λ t. record t { tables = s.tables }) >> throw (passed_on known message e)) s

abbrev pub change : (Tables → Tables) → Effect Store (Unit {0})
change f = modify (λ s. record s { tables = f s.tables })

abbrev pub select : {A : Type 0} → (Tables → A) → Effect Store A
select f = gets (λ s. f s.tables)

-- `_transition`: the UPDATE must have changed one row.
unfoldable pub transition :
    (JobRow → Bool) → (JobRow → JobRow) → (message : String) → Effect Store (Unit {0})
unfolding transaction
transition condition f message =
    transaction is_ingestion "PostgreSQL ingestion transition failed" (do
      changes ← select (λ t. row_count condition t.jobs)
      change (λ t. record t { jobs = update_rows condition f t.jobs })
      require (eqb changes 1) (ingestion_failed message))

unfoldable pub mark_indexing : String → Effect Store (Unit {0})
unfolding transition startable as_indexing
mark_indexing job_id =
    transition (startable job_id) as_indexing "Ingestion job cannot enter indexing state"

unfoldable pub mark_failed : String → String → String → Effect Store (Unit {0})
unfolding transition in_progress as_failed
mark_failed job_id code message =
    transition (in_progress job_id) (as_failed (text_take 100 code) (text_take 2000 message))
      "Ingestion job cannot enter failed state"

-- What follows `RETURNING` in `mark_indexed`.
unfoldable pub activate : Option JobRow → Effect Store (Unit {0})
unfolding upsert_source
activate none = throw (ingestion_failed "Ingestion job cannot enter indexed state")
activate (some row) = change (λ t. record t { sources = upsert_source (current_row row) t.sources })

unfoldable pub mark_indexed : String → Effect Store (Unit {0})
unfolding transaction activate in_progress as_indexed
mark_indexed job_id = transaction is_ingestion "PostgreSQL ingestion completion failed" (do
  row ← select (λ t. first_row (in_progress job_id) t.jobs)
  change (λ t. record t { jobs = update_rows (in_progress job_id) as_indexed t.jobs })
  activate row)

abbrev pub chunk_row : IngestionCommand → DocumentChunk → ℕ → List (String × Value) → ChunkRow
chunk_row command chunk position metadata = record {
  key = source_key command;
  source_version = command.source_version;
  chunk_id = chunk.chunk_id;
  position = position;
  source_uri = chunk.source_uri;
  text_content = chunk.text;
  metadata = metadata;
  acl_labels = chunk.acl_labels;
  clearance_label = chunk.security.clearance_label;
  classification_labels = chunk.security.classification_labels;
}

abbrev pub relationship_row :
    IngestionCommand → GraphRelationship → List (String × Value) → RelationshipRow
relationship_row command relationship metadata = record {
  owner = source_key command;
  owner_source_version = command.source_version;
  from_node = relationship.from_node;
  to_node = relationship.to_node;
  relationship_type = relationship.relationship_type;
  metadata = metadata;
}

abbrev pub version_row : IngestionCommand → String → List (String × Value) → VersionRow
version_row command payload_hash metadata = record {
  key = source_key command;
  source_version = command.source_version;
  source_uri = command.source_uri;
  payload_hash = payload_hash;
  metadata = metadata;
}

-- A row that the version of the command owns.
abbrev pub is_owned : IngestionCommand → RelationshipRow → Bool
is_owned command r =
    same_key r.owner (source_key command) && r.owner_source_version == command.source_version

-- A job that was staged before, or the identifier of a new one.
pub data Staged : Type 0 where
  before : IngestionJob → Staged
  fresh : String → Staged

-- `existing_version is not None and existing_version[0] != payload_hash`
abbrev pub same_content : Option VersionRow → String → Bool
same_content none payload_hash = Bool.true
same_content (some version) payload_hash = version.payload_hash == payload_hash

-- The primary key of `sf.jobs` is tested by the INSERT.
unfoldable pub insert_job : JobRow → Effect Store (Unit {0})
insert_job row = do
  taken ← select (λ t. any_row (has_id row.job_id) t.jobs)
  require (not taken) (foreign "UniqueViolation")
  change (λ t. record t { jobs = t.jobs ++ row ∷ [] })

unfoldable pub staged_result : IngestionCommand → String → Staged → Result IngestionJob
staged_result command payload_hash (Staged.before job) = ok job
staged_result command payload_hash (Staged.fresh job_id) = new_job (record {
  job_id = job_id;
  payload_hash = payload_hash;
  status = IngestionJobStatus.staged;
  command = command;
  attempts = 0;
})

-- `current is None or current[0] != command.source_version`
abbrev pub is_active : IngestionCommand → Option SourceRow → Bool
is_active command none = Bool.false
is_active command (some source) = source.current_version == command.source_version

module _ (db : Postgres) where
  -- `self._load_with_cursor`
  unfoldable pub load_with_cursor : String → Option String → Effect Store IngestionJob
  unfolding load_rows
  load_with_cursor job_id tenant_id s = (load_rows db s.tables job_id tenant_id, s)

  -- `load` without a tenant, `load_for_tenant` with one.
  unfoldable pub load : String → Option String → Effect Store IngestionJob
  unfolding transaction load_with_cursor
  load job_id tenant_id =
      transaction is_ingestion "PostgreSQL ingestion read failed"
        (load_with_cursor job_id tenant_id)

  unfoldable pub new_job_id : Effect Store String
  new_job_id s = (ok (db.job_id_factory s.issued), record s { issued = suc s.issued })

  -- The INSERTs of the chunks; `position` is that of `enumerate`.
  unfoldable pub insert_chunks : IngestionCommand → List DocumentChunk → ℕ → Effect Store (Unit {0})
  insert_chunks command [] position = return tt
  insert_chunks command (chunk ∷ chunks) position = do
    metadata ← lift (db.jsonb chunk.metadata)
    change (λ t. record t { chunks = t.chunks ++ chunk_row command chunk position metadata ∷ [] })
    insert_chunks command chunks (suc position)

  unfoldable pub insert_relationship :
      IngestionCommand → GraphRelationship → Effect Store (Unit {0})
  insert_relationship command relationship = do
    metadata ← lift (db.jsonb relationship.metadata)
    change (λ t. record t {
      relationships = t.relationships ++ relationship_row command relationship metadata ∷ [];
    })

  -- The loop on the relationships; the target of some must stand in the current graph.
  unfoldable pub insert_relationships :
      (GraphRelationship → Bool)
      → IngestionCommand
      → List GraphRelationship
      → Effect Store (Unit {0})
  unfolding insert_relationship target_exists
  insert_relationships external command [] = return tt
  insert_relationships external command (r ∷ rs) = do
    known ← select (λ t. target_exists t command r)
    require (not (external r) || known)
        (conflict "Relationship target does not exist in the current graph")
    insert_relationship command r
    insert_relationships external command rs

  -- A version that is not stored yet is written with its chunks and relationships.
  unfoldable pub insert_version : IngestionCommand → String → Effect Store (Unit {0})
  unfolding insert_chunks insert_relationships
  insert_version command payload_hash = do
    metadata ← lift (db.jsonb command.metadata)
    change (λ t. record t {
      source_versions = t.source_versions ++ version_row command payload_hash metadata ∷ [];
    })
    insert_chunks command command.chunks 0
    insert_relationships (λ r. not (r.to_node.source_id == command.source_id)) command
        command.relationships

  unfoldable pub insert_unless_stored :
      Option VersionRow → IngestionCommand → String → Effect Store (Unit {0})
  unfolding insert_version
  insert_unless_stored none command payload_hash = insert_version command payload_hash
  insert_unless_stored (some version) command payload_hash = return tt

  -- What follows when the idempotency key is new, up to the end of the `try`.
  unfoldable pub stage_new : IngestionCommand → String → Effect Store String
  unfolding find_version insert_unless_stored new_job_id insert_job staged_job
  stage_new command payload_hash = do
    version ←
        select (λ t. find_version (source_key command) command.source_version t.source_versions)
    require (same_content version payload_hash)
        (conflict "Source version already exists with different content")
    job_id ← new_job_id
    insert_unless_stored version command payload_hash
    insert_job (staged_job job_id command payload_hash)
    return job_id

  unfoldable pub stage_rows : Option JobRow → IngestionCommand → String → Effect Store Staged
  unfolding load_with_cursor stage_new
  stage_rows (some row) command payload_hash = do
    require (row.payload_hash == payload_hash)
        (conflict "Idempotency key was already used for a different payload")
    job ← load_with_cursor row.job_id none
    return (Staged.before job)
  stage_rows none command payload_hash = do
    job_id ← stage_new command payload_hash
    return (Staged.fresh job_id)

  unfoldable pub stage : IngestionCommand → String → Effect Store IngestionJob
  unfolding transaction stage_rows staged_result
  stage command payload_hash = do
    staged ← transaction is_conflict_or_ingestion "PostgreSQL ingestion stage failed" (do
      existing ← select (λ t. first_row (of_idempotency_key command) t.jobs)
      stage_rows existing command payload_hash)
    lift (staged_result command payload_hash staged)

  unfoldable pub replace_relationships : IngestionCommand → Effect Store (Unit {0})
  unfolding transaction insert_relationships
  replace_relationships command =
      transaction is_conflict_or_ingestion "PostgreSQL relationship publication failed" (do
        current ← select (λ t. first_row (of_source (source_key command)) t.sources)
        require (is_active command current)
            (conflict "Relationships can only be published for the active source version")
        change
            (λ t. record t { relationships = keep (λ r. not (is_owned command r)) t.relationships })
        insert_relationships (λ r. Bool.true) command command.relationships)

-- The relationship comes from the source or leads to it.
abbrev pub touches : SourceKey → RelationshipRow → Bool
touches key r =
    r.owner.tenant_id == key.tenant_id
    && (r.owner.domain == key.domain
        && (r.from_node.source_id == key.source_id || r.to_node.source_id == key.source_id))

unfoldable pub delete_source : SourceKey → Effect Store (Unit {0})
unfolding transaction
delete_source key =
    transaction (λ e. Bool.false) "PostgreSQL source deletion failed"
      (change (λ t. record t {
        relationships = keep (λ r. not (touches key r)) t.relationships;
        sources = keep (λ row. not (of_source key row)) t.sources;
      }))
