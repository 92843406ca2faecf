-- ===== src/Storage/Ingestion/Marked.antt =====
-- The calls that mark a job keep the jobs and the current versions.
use sovereign_flow.Prelude.{
  ℕ, String, ◌≡◌, refl, Bool, List, Option, none, some, eqb, map, [], ◌∷◌, ◌++◌, All-map, All-keep,
  Any-append,
}
use sovereign_flow.Text.Words.{text_take}
use sovereign_flow.Storage.Tables.{
  JobRow, Tables, changed, update_rows, first_row, current_row, in_progress, as_indexed, startable,
  as_indexing, as_failed,
}
use sovereign_flow.Storage.Load.{ingestion_failed}
use sovereign_flow.Storage.Ingestion.{
  transition, mark_indexing, mark_failed, mark_indexed, activate, is_ingestion, change,
}
use sovereign_flow.Effect.Keeps.{Keeps, >>=-Keeps, >>-Keeps, require-Keeps}
use sovereign_flow.Storage.Ingestion.Inserted.{IsAside}
use sovereign_flow.Storage.Ingestion.Staging.{IsAppended, IsReduced}
use sovereign_flow.Storage.Ingestion.Keeps.{change-Keeps, transaction-Keeps, select-Keeps, On}
use sovereign_flow.Storage.Ingestion.Moves.{
  Steps, Advance, Advance-map, Advance-append, startable-Steps, as_indexed-Steps, as_failed-Steps,
}
use sovereign_flow.Storage.Ingestion.Consistent.{
  Makes, IsCurrent, IsConsistent, IsCurrent-map, upsert_source-All, first_row-Makes,
}

-- The tables are consistent, and each of the jobs `first` is among theirs, as it was or moved on.
pub record IsKept (first : List JobRow) (t : Tables) : Type 0 where
  pub jobs : Advance first t.jobs
  pub current : IsConsistent t

module _ (first : List JobRow) where
  pub IsKept-IsAside : IsAside (IsKept first)
  IsKept-IsAside f j s t h = record {
    jobs = rw (j t) h.jobs;
    current = rw (j t) (rw (s t) h.current);
  }

  pub IsKept-IsAppended : IsAppended (IsKept first)
  IsKept-IsAppended row t h = record {
    jobs = Advance-append first t.jobs (row ∷ []) h.jobs;
    current =
        All-map (IsCurrent t.jobs) (IsCurrent (t.jobs ++ row ∷ [])) t.sources
          (λ s. Any-append (Makes s) t.jobs (row ∷ [])) h.current;
  }

  pub IsKept-IsReduced : IsReduced (IsKept first)
  IsKept-IsReduced p t h = record {
    jobs = h.jobs;
    current = All-keep (IsCurrent t.jobs) p t.sources h.current;
  }

  pub jobs_step :
      (g : JobRow → JobRow)
      → Steps g
      → Keeps (On (IsKept first)) (change (λ t. record t { jobs = map g t.jobs }))
  jobs_step g steps = change-Keeps (IsKept first) _ (λ t h. record {
    jobs = Advance-map g first t.jobs steps h.jobs;
    current = IsCurrent-map g t.jobs t.sources steps h.current;
  })

  pub transition-Keeps :
      (p : JobRow → Bool) (f : JobRow → JobRow) (message : String)
      → Steps (changed p f)
      → Keeps (On (IsKept first)) (transition p f message)
  unfolding transition
  transition-Keeps p f message steps =
      transaction-Keeps (IsKept first) is_ingestion "PostgreSQL ingestion transition failed" _ (
        >>=-Keeps (On (IsKept first)) _ _ (select-Keeps (IsKept first) _) (λ n.
          >>-Keeps (On (IsKept first)) _ _ (jobs_step (changed p f) steps)
            (require-Keeps (On (IsKept first)) (eqb n 1) (ingestion_failed message))))

  pub mark_indexing-Keeps : (job_id : String) → Keeps (On (IsKept first)) (mark_indexing job_id)
  unfolding mark_indexing
  mark_indexing-Keeps job_id =
      transition-Keeps (startable job_id) as_indexing "Ingestion job cannot enter indexing state"
        (startable-Steps job_id)

  pub mark_failed-Keeps :
      (job_id code message : String) → Keeps (On (IsKept first)) (mark_failed job_id code message)
  unfolding mark_failed
  mark_failed-Keeps job_id code message =
      transition-Keeps (in_progress job_id)
        (as_failed (text_take 100 code) (text_take 2000 message))
        "Ingestion job cannot enter failed state"
        (as_failed-Steps job_id (text_take 100 code) (text_take 2000 message))

  activated :
      (job_id : String) (row : Option JobRow) (t : Tables)
      → first_row (in_progress job_id) t.jobs ≡ row
      → IsKept first t
      → (n : ℕ)
      → IsKept first
          ((activate row (record {
            tables = record t { jobs = update_rows (in_progress job_id) as_indexed t.jobs };
            issued = n;
          })).1
            ).tables
  unfolding activate
  activated job_id none t e h n =
      (jobs_step (changed (in_progress job_id) as_indexed) (as_indexed-Steps job_id)).after
        (record { tables = t; issued = n }) h
  activated job_id (some row) t e h n =
      let kept =
        (jobs_step (changed (in_progress job_id) as_indexed) (as_indexed-Steps job_id)).after
          (record { tables = t; issued = n }) h in
      record {
        jobs = kept.jobs;
        current =
            upsert_source-All (IsCurrent (update_rows (in_progress job_id) as_indexed t.jobs))
              (current_row row) t.sources (first_row-Makes job_id t.jobs row e) kept.current;
      }

  pub mark_indexed-Keeps : (job_id : String) → Keeps (On (IsKept first)) (mark_indexed job_id)
  unfolding mark_indexed
  mark_indexed-Keeps job_id =
      transaction-Keeps (IsKept first) is_ingestion "PostgreSQL ingestion completion failed" _
        (record {
          after = λ s h.
              activated job_id (first_row (in_progress job_id) s.tables.jobs) s.tables refl h
                s.issued;
        })
