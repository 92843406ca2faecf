-- ===== src/Services/Ingestion/Settled.antt =====
-- `_process` over the tables: whatever the vector index answers, the job is settled.
use sovereign_flow.Prelude.{suc, none, String, ◌≡◌, refl, ap, ◌∙◌, true, List, some}
use sovereign_flow.Result.{Error, Result, ok, err, error_code, error_message}
use sovereign_flow.Effect.{Effect}
use sovereign_flow.Text.Words.{text_take}
use sovereign_flow.Domain.Profile.{DomainProfile}
use sovereign_flow.Domain.Ingestion.{IngestionJob, IngestionJobStatus, IngestionResult}
use sovereign_flow.Storage.Tables.{
  JobRow, SourceRow, Postgres, update_rows, first_row, startable, in_progress, may_start,
  as_indexing, as_indexed, as_failed, current_row, of_source,
}
use sovereign_flow.Storage.Ingestion.{Store, mark_indexing, mark_indexed, mark_failed}
use sovereign_flow.Storage.Ingestion.Marks.{
  Holds, with_jobs, with_source, mark_indexing-Holds, mark_indexed-Holds, mark_failed-Holds,
  upsert_source-found,
}
use sovereign_flow.Services.Ingestion.{
  index_job, fail_job, index_or_fail, process_unless, process, job_result,
}
use sovereign_flow.Services.Ingestion.Stored.{World, on_index, postgres_repository}

-- The message of a failure that is no error of the program.
abbrev pub unhandled : Error → String
unhandled e = error_message "Unhandled vector indexing failure" e

-- How the row of the job ends, after the index has answered: indexed and without an error, or failed
-- with the code and the message of the exception, which are cut to their columns.
abbrev pub HasEnded : Result (Unit {0}) → JobRow → Type 0
HasEnded (ok u) k =
    (k.status ≡ IngestionJobStatus.indexed) × (k.error_code ≡ none) × (k.error_message ≡ none)
HasEnded (err e) k =
    (k.status ≡ IngestionJobStatus.failed)
    × (k.error_code ≡ some (text_take 100 (error_code e)))
    × (k.error_message ≡ some (text_take 2000 (unhandled e)))

-- The row `k` is the row `row` of a job that was started once more.
pub record IsStartedOf (row k : JobRow) : Type 0 where
  pub same_id : k.job_id ≡ row.job_id
  pub same_source : k.key ≡ row.key
  pub same_version : k.source_version ≡ row.source_version
  pub same_key : k.idempotency_key ≡ row.idempotency_key
  pub same_payload : k.payload_hash ≡ row.payload_hash
  pub attempts : k.attempts ≡ suc row.attempts

-- What the caller gets.
abbrev pub settled_result : Result (Unit {0}) → IngestionJob → Result IngestionResult
settled_result (ok u) job = job_result job
settled_result (err e) job = err e

-- The current version of the job's source: that of the job, by the job, or what it was.
abbrev pub HasSource : Result (Unit {0}) → JobRow → List SourceRow → List SourceRow → Type 0
HasSource (ok u) row sources sources' =
    (source : SourceRow) × (first_row (of_source row.key) sources' ≡ some source)
    × (source.key ≡ row.key)
    × (source.current_version ≡ row.source_version)
    × (source.current_job_id ≡ row.job_id)
HasSource (err e) row sources sources' = sources' ≡ sources

module _ {V : Type 0} (db : Postgres) (domain : DomainProfile)
    (replace_source : IngestionJob → String → Effect V (Unit {0})) where
  abbrev run : IngestionJob → Effect (World V) IngestionResult
  run job =
      process domain (postgres_repository db)
        (λ j collection. on_index (replace_source j collection)) job

  -- How `_process` ended: its result and the world, where the job's row and its source are settled.
  pub record IsSettled (job : IngestionJob) (row : JobRow) (w : World V)
      (answer : Result (Unit {0})) (v : V) : Type 0 where
    pub store : Store
    pub ran : run job w ≡ (settled_result answer job, record { store = store; index = v })
    pub settled : JobRow
    pub holds : Holds store.tables.jobs job.job_id settled
    pub same_job : IsStartedOf row settled
    pub ended : HasEnded answer settled
    pub source : HasSource answer row w.store.tables.sources store.tables.sources

  abbrev rest : IngestionJob → Effect (World V) IngestionResult
  rest job =
      index_or_fail domain (postgres_repository db)
        (λ j collection. on_index (replace_source j collection)) job

  run-rest : (job : IngestionJob) → may_start job.status ≡ true → run job ≡ rest job
  unfolding process process_unless
  run-rest job h = cases job.status h
    where
      cases :
          (status : IngestionJobStatus)
          → may_start status ≡ true
          → process_unless domain
              (postgres_repository db)
              (λ j collection. on_index (replace_source j collection))
              status
              job
            ≡ rest job
      cases IngestionJobStatus.staged h = refl
      cases IngestionJobStatus.indexing h = refl
      cases IngestionJobStatus.indexed h = cc
      cases IngestionJobStatus.failed h = refl

  -- The index has answered.
  rest-ok :
      (job : IngestionJob) (w : World V) (s₁ s₂ : Store) (v : V)
      → mark_indexing job.job_id w.store ≡ (ok tt, s₁)
      → replace_source job domain.collection w.index ≡ (ok tt, v)
      → mark_indexed job.job_id s₁ ≡ (ok tt, s₂)
      → rest job w ≡ (job_result job, record { store = s₂; index = v })
  unfolding index_or_fail index_job
  rest-ok job w s₁ s₂ v a b c = rw a (rw b (rw c refl))

  -- The index has raised.
  rest-err :
      (job : IngestionJob) (w : World V) (s₁ s₂ : Store) (e : Error) (v : V)
      → mark_indexing job.job_id w.store ≡ (ok tt, s₁)
      → replace_source job domain.collection w.index ≡ (err e, v)
      → mark_failed job.job_id (error_code e) (unhandled e) s₁ ≡ (ok tt, s₂)
      → rest job w ≡ (err e, record { store = s₂; index = v })
  unfolding index_or_fail index_job fail_job
  rest-err job w s₁ s₂ e v a b c = rw a (rw b (rw c refl))

  indexed_of : (row : JobRow) → IsStartedOf row (as_indexed (as_indexing row))
  unfolding as_indexing as_indexed
  indexed_of row = record {
    same_id = refl;
    same_source = refl;
    same_version = refl;
    same_key = refl;
    same_payload = refl;
    attempts = refl;
  }

  failed_of :
      (row : JobRow) (code message : String)
      → IsStartedOf row (as_failed code message (as_indexing row))
  unfolding as_indexing as_failed
  failed_of row code message = record {
    same_id = refl;
    same_source = refl;
    same_version = refl;
    same_key = refl;
    same_payload = refl;
    attempts = refl;
  }

  -- A job whose row may start, and is the only one of its identifier, is settled by `_process`,
  -- whatever the index answers. Its row counts one attempt more and keeps its source, version and
  -- payload. It ends indexed, without an error, and its version and the job become the current ones
  -- of its source; or it ends failed with the code and the message of the exception, cut to 100 and
  -- 2000 characters, the exception goes on to the caller, and the sources stay as they were.
  pub process-IsSettled :
      (job : IngestionJob) (row : JobRow) (w : World V) (answer : Result (Unit {0})) (v : V)
      → may_start job.status ≡ true
      → Holds w.store.tables.jobs job.job_id row
      → may_start row.status ≡ true
      → replace_source job domain.collection w.index ≡ (answer, v)
      → IsSettled job row w answer v
  unfolding as_indexing as_indexed as_failed
  process-IsSettled job row w answer v begins h starts b =
      let (e₁, h₁) = mark_indexing-Holds job.job_id row w.store h starts in
      let s₁ =
        with_jobs (update_rows (startable job.job_id) as_indexing w.store.tables.jobs) w.store in
      go answer s₁ refl e₁ h₁ b
    where
      go :
          (answer : Result (Unit {0}))
          → (s₁ : Store) → s₁.tables.sources ≡ w.store.tables.sources
          → mark_indexing job.job_id w.store ≡ (ok tt, s₁)
          → Holds s₁.tables.jobs job.job_id (as_indexing row)
          → replace_source job domain.collection w.index ≡ (answer, v)
          → IsSettled job row w answer v
      go (ok tt) s₁ o e₁ h₁ b =
          let (e₂, h₂) = mark_indexed-Holds job.job_id (as_indexing row) s₁ h₁ refl in
          record {
            store =
                with_source (current_row (as_indexing row))
                  (with_jobs (update_rows (in_progress job.job_id) as_indexed s₁.tables.jobs) s₁);
            ran = ap (λ m. m w) (run-rest job begins) ∙ rest-ok job w s₁ _ v e₁ b e₂;
            settled = as_indexed (as_indexing row);
            holds = h₂;
            same_job = indexed_of row;
            ended = (refl, refl, refl);
            source = (
              current_row (as_indexing row),
              upsert_source-found (current_row (as_indexing row)) s₁.tables.sources,
              refl,
              refl,
              refl,
            );
          }
      go (err e) s₁ o e₁ h₁ b =
          let (e₂, h₂) =
            mark_failed-Holds job.job_id (error_code e) (unhandled e) (as_indexing row) s₁ h₁
              refl in
          record {
            store =
                with_jobs
                  (update_rows (in_progress job.job_id)
                    (as_failed (text_take 100 (error_code e)) (text_take 2000 (unhandled e)))
                    s₁.tables.jobs)
                  s₁;
            ran = ap (λ m. m w) (run-rest job begins) ∙ rest-err job w s₁ _ e v e₁ b e₂;
            settled =
                as_failed (text_take 100 (error_code e)) (text_take 2000 (unhandled e))
                  (as_indexing row);
            holds = h₂;
            same_job = failed_of row _ _;
            ended = (refl, refl, refl);
            source = o;
          }
