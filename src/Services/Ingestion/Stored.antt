-- ===== src/Services/Ingestion/Stored.antt =====
-- The ingestion service over the PostgreSQL repository: the store is one part of the world, and
-- what the vector index changes is the other.
use sovereign_flow.Prelude.{none}
use sovereign_flow.Effect.{Effect}
use sovereign_flow.Storage.Tables.{Postgres}
use sovereign_flow.Storage.Ingestion.{Store, stage, load, mark_indexing, mark_indexed, mark_failed}
use sovereign_flow.Services.Ingestion.{IngestionRepository}

pub record World (V : Type 0) : Type 0 where
  pub store : Store
  pub index : V

module _ {V A : Type 0} where
  abbrev pub on_store : Effect Store A → Effect (World V) A
  on_store m w = let (r, s) = m w.store in (r, record w { store = s })

  abbrev pub on_index : Effect V A → Effect (World V) A
  on_index m w = let (r, v) = m w.index in (r, record w { index = v })

-- `PostgreSQLIngestionRepository` as the repository of the service.
abbrev pub postgres_repository : {V : Type 0} → Postgres → IngestionRepository (World V)
postgres_repository db = record {
  stage = λ command payload_hash. on_store (stage db command payload_hash);
  load = λ job_id. on_store (load db job_id none);
  mark_indexing = λ job_id. on_store (mark_indexing job_id);
  mark_indexed = λ job_id. on_store (mark_indexed job_id);
  mark_failed = λ job_id code message. on_store (mark_failed job_id code message);
}
