-- ===== src/Services/Ingestion.antt =====
-- `DocumentIngestionService` of sovereignflow/application/ingestion.py: a command that passes the
-- boundary is staged as a job, and the job is indexed.
pub mod Stored
pub mod Settled
use sovereign_flow.Prelude.{ℕ, String, List, length}
use sovereign_flow.Result.{Error, Result, ok, err, error_code, error_message}
use sovereign_flow.Effect.{Effect, return, throw, lift, ◌>>=◌, ◌>>◌, rescue}
use sovereign_flow.Library.{Library}
use sovereign_flow.Domain.Profile.{DomainProfile}
use sovereign_flow.Domain.Ingestion.{
  IngestionCommand, IngestionJob, IngestionJobStatus, IngestionResult, new_ingestion_result,
}
use sovereign_flow.Services.Payload.{payload_hash}
use sovereign_flow.Services.IngestionBoundary.{verify_boundary}

-- The methods of `IngestionRepositoryPort` that the service calls.
pub record IngestionRepository (W : Type 0) : Type 0 where
  pub stage : IngestionCommand → (payload_hash : String) → Effect W IngestionJob
  pub load : (job_id : String) → Effect W IngestionJob
  pub mark_indexing : (job_id : String) → Effect W (Unit {0})
  pub mark_indexed : (job_id : String) → Effect W (Unit {0})
  pub mark_failed : (job_id error_code error_message : String) → Effect W (Unit {0})

-- `_result`
unfoldable pub job_result : IngestionJob → Result IngestionResult
job_result job = new_ingestion_result (record {
  job_id = job.job_id;
  domain = job.command.domain;
  tenant_id = job.command.tenant_id;
  source_id = job.command.source_id;
  source_version = job.command.source_version;
  status = IngestionJobStatus.indexed;
  chunk_count = length job.command.chunks;
})

-- The service's `domain`, `repository` and `VectorIndexPort.replace_source`, which is given a job and
-- the name of a collection.
module _ {W : Type 0} (domain : DomainProfile) (repository : IngestionRepository W)
    (replace_source : IngestionJob → String → Effect W (Unit {0})) where
  -- The `try` of `_process`.
  unfoldable pub index_job : IngestionJob → Effect W (Unit {0})
  index_job job = do replace_source job domain.collection; repository.mark_indexed job.job_id

  -- The `except` of `_process`: the job is marked, and the exception goes on.
  unfoldable pub fail_job : IngestionJob → Error → Effect W (Unit {0})
  fail_job job e = do
    repository.mark_failed job.job_id (error_code e)
        (error_message "Unhandled vector indexing failure" e)
    throw e

  -- `_process` of a job that is not indexed yet.
  unfoldable pub index_or_fail : IngestionJob → Effect W IngestionResult
  unfolding index_job fail_job job_result
  index_or_fail job = do
    repository.mark_indexing job.job_id
    rescue (index_job job) (fail_job job)
    lift (job_result job)

  unfoldable pub process_unless : IngestionJobStatus → IngestionJob → Effect W IngestionResult
  unfolding index_or_fail
  process_unless IngestionJobStatus.indexed job = lift (job_result job)
  process_unless other job = index_or_fail job

  -- `_process`
  unfoldable pub process : IngestionJob → Effect W IngestionResult
  unfolding process_unless
  process job = process_unless job.status job

  unfoldable pub ingest : Library → IngestionCommand → Effect W IngestionResult
  unfolding process
  ingest lib command = do
    lift (verify_boundary domain command)
    hash ← lift (payload_hash lib command)
    job ← repository.stage command hash
    process job

  unfoldable pub retry : (job_id : String) → Effect W IngestionResult
  unfolding process
  retry job_id = do
    job ← repository.load job_id
    lift (verify_boundary domain job.command)
    process job
