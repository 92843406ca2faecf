-- ===== src/Storage/Tables.antt =====
-- The tables of sovereignflow/infrastructure/ingestion.py, and the statements on them. A table is the
-- list of its rows in the order of their insertion; the columns with times are left out.
use Prim.Native.Nat.{Ordering}
use sovereign_flow.Prelude.{
  ℕ, suc, ◌+◌, String, Bool, ◌&&◌, ◌||◌, List, [], ◌∷◌, Option, none, some, map, ◌==◌,
  if◌then◌else◌,
}
use sovereign_flow.Result.{Result}
use sovereign_flow.Value.{Value}
use sovereign_flow.Domain.Ingestion.{
  GraphNodeRef, GraphRelationship, IngestionCommand, IngestionJobStatus,
}

-- The columns that name a source.
pub record SourceKey : Type 0 where
  pub tenant_id : String
  pub domain : String
  pub source_id : String

pub record JobRow : Type 0 where
  pub job_id : String
  pub key : SourceKey
  pub source_version : String
  pub idempotency_key : String
  pub payload_hash : String
  pub status : IngestionJobStatus
  pub attempts : ℕ
  pub error_code : Option String
  pub error_message : Option String

pub record VersionRow : Type 0 where
  pub key : SourceKey
  pub source_version : String
  pub source_uri : Option String
  pub payload_hash : String
  pub metadata : List (String × Value)

pub record ChunkRow : Type 0 where
  pub key : SourceKey
  pub source_version : String
  pub chunk_id : String
  pub position : ℕ
  pub source_uri : Option String
  pub text_content : String
  pub metadata : List (String × Value)
  pub acl_labels : List String
  pub clearance_label : Option String
  pub classification_labels : List String

pub record RelationshipRow : Type 0 where
  pub owner : SourceKey
  pub owner_source_version : String
  pub from_node : GraphNodeRef
  pub to_node : GraphNodeRef
  pub relationship_type : String
  pub metadata : List (String × Value)

pub record SourceRow : Type 0 where
  pub key : SourceKey
  pub current_version : String
  pub current_job_id : String

pub record Tables : Type 0 where
  pub jobs : List JobRow
  pub source_versions : List VersionRow
  pub chunks : List ChunkRow
  pub relationships : List RelationshipRow
  pub sources : List SourceRow

-- What the code relies on and the database decides: the text order of its collation, and what a
-- `jsonb` column holds of a mapping that `_json` serializes, if it does.
pub record Postgres : Type 0 where
  pub collate : String → String → Ordering
  pub jsonb : List (String × Value) → Result (List (String × Value))
  -- The n-th call of `job_id_factory`.
  pub job_id_factory : ℕ → String

abbrev pub source_key : IngestionCommand → SourceKey
source_key c = record { tenant_id = c.tenant_id; domain = c.domain; source_id = c.source_id }

abbrev pub same_key : SourceKey → SourceKey → Bool
same_key k l = k.tenant_id == l.tenant_id && (k.domain == l.domain && k.source_id == l.source_id)

-- `cursor.fetchone()` of a SELECT: the first row that satisfies the condition.
abbrev pub first_row : {A : Type 0} → (A → Bool) → List A → Option A
first_row p [] = none
first_row p (x ∷ xs) = if p x then some x else first_row p xs

-- Whether a row satisfies the condition.
abbrev pub any_row : {A : Type 0} → (A → Bool) → List A → Bool
any_row p [] = Bool.false
any_row p (x ∷ xs) = p x || any_row p xs

-- `cursor.rowcount` of an UPDATE.
abbrev pub row_count : {A : Type 0} → (A → Bool) → List A → ℕ
row_count p [] = 0
row_count p (x ∷ xs) = (if p x then 1 else 0) + row_count p xs

abbrev pub changed : {A : Type 0} → (A → Bool) → (A → A) → A → A
changed p f x = if p x then f x else x

-- An UPDATE: every row that satisfies the condition is changed.
abbrev pub update_rows : {A : Type 0} → (A → Bool) → (A → A) → List A → List A
update_rows p f xs = map (changed p f) xs

abbrev pub has_id : String → JobRow → Bool
has_id job_id row = job_id == row.job_id

unfoldable pub find_job : String → List JobRow → Option JobRow
find_job job_id rows = first_row (has_id job_id) rows

abbrev pub of_idempotency_key : IngestionCommand → JobRow → Bool
of_idempotency_key c row =
    row.key.tenant_id == c.tenant_id
    && (row.key.domain == c.domain && row.idempotency_key == c.idempotency_key)

abbrev pub of_version : SourceKey → String → VersionRow → Bool
of_version key source_version row = same_key row.key key && row.source_version == source_version

unfoldable pub find_version : SourceKey → String → List VersionRow → Option VersionRow
find_version key source_version rows = first_row (of_version key source_version) rows

-- `status IN ('staged', 'indexing', 'failed')`
abbrev pub may_start : IngestionJobStatus → Bool
may_start IngestionJobStatus.staged = Bool.true
may_start IngestionJobStatus.indexing = Bool.true
may_start IngestionJobStatus.indexed = Bool.false
may_start IngestionJobStatus.failed = Bool.true

-- `status = 'indexing'`
abbrev pub is_indexing : IngestionJobStatus → Bool
is_indexing IngestionJobStatus.indexing = Bool.true
is_indexing other = Bool.false

unfoldable pub startable : String → JobRow → Bool
startable job_id row = has_id job_id row && may_start row.status

unfoldable pub in_progress : String → JobRow → Bool
in_progress job_id row = has_id job_id row && is_indexing row.status

unfoldable pub as_indexing : JobRow → JobRow
as_indexing row = record row {
  status = IngestionJobStatus.indexing;
  attempts = suc row.attempts;
  error_code = none;
  error_message = none;
}

unfoldable pub as_indexed : JobRow → JobRow
as_indexed row = record row { status = IngestionJobStatus.indexed }

unfoldable pub as_failed : String → String → JobRow → JobRow
as_failed code message row = record row {
  status = IngestionJobStatus.failed;
  error_code = some code;
  error_message = some message;
}

unfoldable pub staged_job : String → IngestionCommand → String → JobRow
staged_job job_id c payload_hash = record {
  job_id = job_id;
  key = source_key c;
  source_version = c.source_version;
  idempotency_key = c.idempotency_key;
  payload_hash = payload_hash;
  status = IngestionJobStatus.staged;
  attempts = 0;
  error_code = none;
  error_message = none;
}

abbrev pub current_row : JobRow → SourceRow
current_row row = record {
  key = row.key;
  current_version = row.source_version;
  current_job_id = row.job_id;
}

abbrev pub of_source : SourceKey → SourceRow → Bool
of_source key row = same_key row.key key

-- INSERT INTO sf.sources ... ON CONFLICT (tenant_id, domain, source_id) DO UPDATE
unfoldable pub upsert_source : SourceRow → List SourceRow → List SourceRow
upsert_source new [] = new ∷ []
upsert_source new (row ∷ rows) =
    let rest = upsert_source new rows in if of_source new.key row then new ∷ rows else row ∷ rest

-- The chunk stands in the current version of its source.
unfoldable pub is_current_chunk : SourceKey → String → List ChunkRow → SourceRow → Bool
is_current_chunk key chunk_id chunks source =
    of_source key source
    && any_row
        (λ c.
          same_key c.key source.key
          && (c.source_version == source.current_version && c.chunk_id == chunk_id))
        chunks

-- `_target_exists`
unfoldable pub target_exists : Tables → IngestionCommand → GraphRelationship → Bool
unfolding is_current_chunk
target_exists t c r =
    any_row
      (is_current_chunk
        (record { tenant_id = c.tenant_id; domain = c.domain; source_id = r.to_node.source_id })
        r.to_node.chunk_id t.chunks)
      t.sources
