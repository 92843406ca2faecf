-- ===== src/Storage/Ingestion/Staging.antt =====
-- The calls that write versions, and those that read and delete: what they keep that is said of the
-- jobs and the sources alone.
use sovereign_flow.Prelude.{String, refl, Bool, not, [], ◌∷◌, ◌++◌, Option, none, some, ◌==◌, keep}
use sovereign_flow.Result.{foreign}
use sovereign_flow.Domain.Ingestion.{IngestionCommand}
use sovereign_flow.Storage.Tables.{
  JobRow, SourceRow, Tables, SourceKey, Postgres, first_row, of_source, source_key, find_version,
  staged_job, of_idempotency_key, has_id, any_row,
}
use sovereign_flow.Storage.Ingestion.{
  load_with_cursor, load, same_content, insert_job, stage_new, stage_rows, Staged, staged_result,
  stage, replace_relationships, delete_source, is_ingestion, is_conflict_or_ingestion, new_job_id,
  conflict, is_active, is_owned, touches,
}
use sovereign_flow.Effect.Keeps.{
  Keeps, >>=-Keeps, >>-Keeps, require-Keeps, lift-Keeps, return-Keeps,
}
use sovereign_flow.Storage.Ingestion.Keeps.{change-Keeps, transaction-Keeps, select-Keeps, On}
use sovereign_flow.Storage.Ingestion.Inserted.{
  IsAside, aside, insert_relationships-Keeps, insert_unless_stored-Keeps,
}

module _ (I : Tables → Type 0) where
  -- The predicate holds of the tables with one more job.
  abbrev pub IsAppended : Type 0
  IsAppended = (row : JobRow) (t : Tables) → I t → I (record t { jobs = t.jobs ++ row ∷ [] })

  -- The predicate holds of the tables without some of the sources.
  abbrev pub IsReduced : Type 0
  IsReduced =
      (p : SourceRow → Bool) (t : Tables) → I t → I (record t { sources = keep p t.sources })

module _ (I : Tables → Type 0) (closed : IsAside I) (appended : IsAppended I) where
  insert_job-Keeps : (row : JobRow) → Keeps (On I) (insert_job row)
  unfolding insert_job
  insert_job-Keeps row =
      >>=-Keeps (On I) _ _ (select-Keeps I (λ t. any_row (has_id row.job_id) t.jobs)) (λ taken.
        >>-Keeps (On I) _ _ (require-Keeps (On I) (not taken) (foreign "UniqueViolation"))
          (change-Keeps I (λ t. record t { jobs = t.jobs ++ row ∷ [] }) (appended row)))

  stage_new-Keeps :
      (db : Postgres) (command : IngestionCommand) (payload_hash : String)
      → Keeps (On I) (stage_new db command payload_hash)
  unfolding stage_new
  stage_new-Keeps db command payload_hash =
      >>=-Keeps (On I) _ _
        (select-Keeps I
          (λ t. find_version (source_key command) command.source_version t.source_versions))
        (λ version.
          >>-Keeps (On I) _ _
            (require-Keeps (On I) (same_content version payload_hash)
              (conflict "Source version already exists with different content"))
            (>>=-Keeps (On I) _ _ new_job_id-Keeps (λ job_id.
              >>-Keeps (On I) _ _
                (insert_unless_stored-Keeps I closed db version command payload_hash)
                (>>-Keeps (On I) _ _ (insert_job-Keeps (staged_job job_id command payload_hash))
                  (return-Keeps (On I) job_id)))))
    where
      new_job_id-Keeps : Keeps (On I) (new_job_id db)
      new_job_id-Keeps = record { after = λ s h. h }

  stage_rows-Keeps :
      (db : Postgres) (row : Option JobRow) (command : IngestionCommand) (payload_hash : String)
      → Keeps (On I) (stage_rows db row command payload_hash)
  unfolding stage_rows load_with_cursor
  stage_rows-Keeps db none command payload_hash =
      >>=-Keeps (On I) _ _ (stage_new-Keeps db command payload_hash)
        (λ job_id. return-Keeps (On I) (Staged.fresh job_id))
  stage_rows-Keeps db (some row) command payload_hash =
      >>-Keeps (On I) _ _
        (require-Keeps (On I) (row.payload_hash == payload_hash)
          (conflict "Idempotency key was already used for a different payload"))
        (>>=-Keeps (On I) (load_with_cursor db row.job_id none) _ (record { after = λ s h. h })
          (λ job. return-Keeps (On I) (Staged.before job)))

  pub stage-Keeps :
      (db : Postgres) (command : IngestionCommand) (payload_hash : String)
      → Keeps (On I) (stage db command payload_hash)
  unfolding stage
  stage-Keeps db command payload_hash =
      >>=-Keeps (On I) _ _
        (transaction-Keeps I is_conflict_or_ingestion "PostgreSQL ingestion stage failed" _ (
          >>=-Keeps (On I) _ _ (select-Keeps I (λ t. first_row (of_idempotency_key command) t.jobs))
            (λ existing. stage_rows-Keeps db existing command payload_hash)))
        (λ staged. lift-Keeps (On I) (staged_result command payload_hash staged))

  pub load-Keeps :
      (db : Postgres) (job_id : String) (tenant_id : Option String)
      → Keeps (On I) (load db job_id tenant_id)
  unfolding load load_with_cursor
  load-Keeps db job_id tenant_id =
      transaction-Keeps I is_ingestion "PostgreSQL ingestion read failed"
        (load_with_cursor db job_id tenant_id) (record { after = λ s h. h })

  pub replace_relationships-Keeps :
      (db : Postgres) (command : IngestionCommand) → Keeps (On I) (replace_relationships db command)
  unfolding replace_relationships
  replace_relationships-Keeps db command =
      transaction-Keeps I is_conflict_or_ingestion "PostgreSQL relationship publication failed" _ (
        >>=-Keeps (On I) _ _
          (select-Keeps I (λ t. first_row (of_source (source_key command)) t.sources))
          (λ current.
            >>-Keeps (On I) _ _
              (require-Keeps (On I) (is_active command current)
                (conflict "Relationships can only be published for the active source version"))
              (>>-Keeps (On I) _ _
                (aside I (closed)
                  (λ t. record t {
                    relationships = keep (λ r. not (is_owned command r)) t.relationships;
                  })
                  (λ t. refl) (λ t. refl))
                (insert_relationships-Keeps I closed db (λ r. Bool.true) command
                  command.relationships))))

  pub delete_source-Keeps : IsReduced I → (key : SourceKey) → Keeps (On I) (delete_source key)
  unfolding delete_source
  delete_source-Keeps reduced key =
      transaction-Keeps I (λ e. Bool.false) "PostgreSQL source deletion failed" _
        (change-Keeps I
          (λ t. record t {
            relationships = keep (λ r. not (touches key r)) t.relationships;
            sources = keep (λ row. not (of_source key row)) t.sources;
          })
          (λ t h.
            reduced (λ row. not (of_source key row))
              (record t { relationships = keep (λ r. not (touches key r)) t.relationships })
              (closed
                (λ u. record u { relationships = keep (λ r. not (touches key r)) u.relationships })
                (λ u. refl) (λ u. refl) t h)))
