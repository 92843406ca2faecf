-- ===== src/Storage/Ingestion/Runs.antt =====
-- What any sequence of calls of the repository keeps: jobs move on, and what is current is indexed.
use sovereign_flow.Prelude.{List}
use sovereign_flow.Storage.Tables.{JobRow, Postgres}
use sovereign_flow.Storage.Ingestion.{
  Store, mark_indexing, mark_failed, mark_indexed, load, stage, replace_relationships,
  delete_source,
}
use sovereign_flow.Storage.Ingestion.Moves.{IsLater-refl}
use sovereign_flow.Storage.Ingestion.Consistent.{IsConsistent}
use sovereign_flow.Storage.Ingestion.Marked.{
  IsKept, IsKept-IsAside, IsKept-IsAppended, IsKept-IsReduced, mark_indexing-Keeps,
  mark_failed-Keeps, mark_indexed-Keeps,
}
use sovereign_flow.Storage.Ingestion.Calls.{
  Call, Advances, AsTheyAre, AsTheyAre-IsAside, AsTheyAre-IsAppended, AsTheyAre-IsReduced,
  AsTheyAre-Advances, mark_indexing-Advances, mark_indexed-Advances, mark_failed-Advances,
}
use sovereign_flow.Storage.Ingestion.Staging.{
  stage-Keeps, load-Keeps, replace_relationships-Keeps, delete_source-Keeps,
}

module _ (db : Postgres) where
  -- The store after a call, whether it returned or raised.
  unfoldable pub after_call : Call → Store → Store
  unfolding stage load mark_indexing mark_indexed mark_failed replace_relationships delete_source
  after_call (Call.staging command payload_hash) s = (stage db command payload_hash s).1
  after_call (Call.loading job_id tenant_id) s = (load db job_id tenant_id s).1
  after_call (Call.indexing job_id) s = (mark_indexing job_id s).1
  after_call (Call.completing job_id) s = (mark_indexed job_id s).1
  after_call (Call.failing job_id code message) s = (mark_failed job_id code message s).1
  after_call (Call.relating command) s = (replace_relationships db command s).1
  after_call (Call.deleting key) s = (delete_source key s).1

  -- The stores that calls, one after the other, come to.
  pub data Runs (s : Store) : Store → Type 0 where
    begun : Runs s s
    called : {s' : Store} → Runs s s' → (call : Call) → Runs s (after_call call s')

  call-IsKept :
      (first : List JobRow) (call : Call) (s : Store)
      → IsKept first s.tables
      → IsKept first (after_call call s).tables
  unfolding after_call
  call-IsKept first (Call.staging command payload_hash) s h =
      (stage-Keeps (IsKept first) (IsKept-IsAside first) (IsKept-IsAppended first) db command
          payload_hash).after
        s h
  call-IsKept first (Call.loading job_id tenant_id) s h =
      (load-Keeps (IsKept first) (IsKept-IsAside first) (IsKept-IsAppended first) db job_id
          tenant_id).after
        s h
  call-IsKept first (Call.indexing job_id) s h = (mark_indexing-Keeps first job_id).after s h
  call-IsKept first (Call.completing job_id) s h = (mark_indexed-Keeps first job_id).after s h
  call-IsKept first (Call.failing job_id code message) s h =
      (mark_failed-Keeps first job_id code message).after s h
  call-IsKept first (Call.relating command) s h =
      (replace_relationships-Keeps (IsKept first) (IsKept-IsAside first) (IsKept-IsAppended first)
          db command).after
        s h
  call-IsKept first (Call.deleting key) s h =
      (delete_source-Keeps (IsKept first) (IsKept-IsAside first) (IsKept-IsAppended first)
          (IsKept-IsReduced first) key).after
        s h

  call-Advances :
      (call : Call) (s : Store) → Advances call s.tables.jobs (after_call call s).tables.jobs
  unfolding after_call
  call-Advances (Call.staging command payload_hash) s =
      let first = s.tables.jobs in
      AsTheyAre-Advances first (Call.staging command payload_hash)
        (stage db command payload_hash s).1.tables
        ((stage-Keeps (AsTheyAre first) (AsTheyAre-IsAside first) (AsTheyAre-IsAppended first) db
            command payload_hash).after
          s (λ id j e. e))
  call-Advances (Call.loading job_id tenant_id) s =
      let first = s.tables.jobs in
      AsTheyAre-Advances first (Call.loading job_id tenant_id) (load db job_id tenant_id s).1.tables
        ((load-Keeps (AsTheyAre first) (AsTheyAre-IsAside first) (AsTheyAre-IsAppended first) db
            job_id tenant_id).after
          s (λ id j e. e))
  call-Advances (Call.indexing job_id) s = mark_indexing-Advances job_id s
  call-Advances (Call.completing job_id) s = mark_indexed-Advances job_id s
  call-Advances (Call.failing job_id code message) s = mark_failed-Advances job_id code message s
  call-Advances (Call.relating command) s =
      let first = s.tables.jobs in
      AsTheyAre-Advances first (Call.relating command) (replace_relationships db command s).1.tables
        ((replace_relationships-Keeps (AsTheyAre first) (AsTheyAre-IsAside first)
            (AsTheyAre-IsAppended first) db command).after
          s (λ id j e. e))
  call-Advances (Call.deleting key) s =
      let first = s.tables.jobs in
      AsTheyAre-Advances first (Call.deleting key) (delete_source key s).1.tables (
        (delete_source-Keeps (AsTheyAre first) (AsTheyAre-IsAside first)
            (AsTheyAre-IsAppended first) (AsTheyAre-IsReduced first) key).after
          s (λ id j e. e))

  -- Each of the calls has moved the status of its own job alone, and once at most.
  abbrev pub EachAdvances : (s s' : Store) → Runs s s' → Type 0
  EachAdvances s s' Runs.begun = Unit
  EachAdvances s s' (Runs.called {s' = m} runs call) =
      EachAdvances s m runs × Advances call m.tables.jobs (after_call call m).tables.jobs

  runs-EachAdvances : (s s' : Store) (runs : Runs s s') → EachAdvances s s' runs
  runs-EachAdvances s s' Runs.begun = tt
  runs-EachAdvances s s' (Runs.called {s' = m} runs call) =
      (runs-EachAdvances s m runs, call-Advances call m)

  runs-IsKept_jobs :
      (s s' : Store) → IsConsistent s.tables → Runs s s' → IsKept s.tables.jobs s'.tables
  runs-IsKept_jobs s s' h Runs.begun = record {
    jobs = λ job_id j e. (j, e, IsLater-refl j);
    current = h;
  }
  runs-IsKept_jobs s s' h (Runs.called {s' = m} runs call) =
      call-IsKept s.tables.jobs call m (runs-IsKept_jobs s m h runs)

  -- Whatever calls are made, in any order and whether they return or raise. Each call moves the
  -- status of the job that it names alone, and once at most: `mark_indexing` from `staged`,
  -- `indexing` or `failed` to `indexing`, `mark_indexed` from `indexing` to `indexed`, `mark_failed`
  -- from `indexing` to `failed`, and the other calls of no job. Each job stays in the table with its
  -- identifier, source, version and payload, and its attempts do not decrease. If the current version
  -- of each source was indexed by the job that the source names before the calls, it was after them.
  pub runs-IsKept :
      (s s' : Store)
      → IsConsistent s.tables
      → (runs : Runs s s') → IsKept s.tables.jobs s'.tables × EachAdvances s s' runs
  runs-IsKept s s' h runs = (runs-IsKept_jobs s s' h runs, runs-EachAdvances s s' runs)
