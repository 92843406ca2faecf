-- ===== src/Storage/Ingestion/Calls.antt =====
-- What one call of the repository does to the jobs: it moves the status of its own job at most, and by
-- one change.
use mathlib.Core.Path.{subst}
use sovereign_flow.Prelude.{
  String, ◌≡◌, refl, sym, ap, ◌∙◌, Bool, true, ◌⊎◌, inl, inr, List, Option, some, eqb, eq_iff,
  and_parts, Bool-cases, Option-cases,
}
use sovereign_flow.Domain.Ingestion.{IngestionCommand, IngestionJobStatus}
use sovereign_flow.Text.Words.{text_take}
use sovereign_flow.Storage.Tables.{
  JobRow, SourceKey, Tables, changed, update_rows, row_count, first_row, find_job, has_id,
  startable, in_progress, as_indexing, as_indexed, as_failed,
}
use sovereign_flow.Storage.Ingestion.{
  Store, transition, transaction, mark_indexing, mark_failed, mark_indexed, activate,
}
use sovereign_flow.Storage.Ingestion.Moves.{
  Move, IsLater, IsLater-refl, Steps, starts, progresses, startable-Steps, as_indexed-Steps,
  as_failed-Steps, find_job-map, find_job-append,
}
use sovereign_flow.Storage.Ingestion.Inserted.{IsAside}
use sovereign_flow.Storage.Ingestion.Staging.{IsAppended, IsReduced}

-- A call of the repository, with its arguments.
pub data Call : Type 0 where
  staging : IngestionCommand → (payload_hash : String) → Call
  loading : (job_id : String) → (tenant_id : Option String) → Call
  indexing : (job_id : String) → Call
  completing : (job_id : String) → Call
  failing : (job_id code message : String) → Call
  relating : IngestionCommand → Call
  deleting : SourceKey → Call

-- How a call may move the status of the job with this identifier.
pub data StatusMove : Call → String → IngestionJobStatus → IngestionJobStatus → Type 0 where
  unmoved : {call : Call} {id : String} {a : IngestionJobStatus} → StatusMove call id a a
  begins :
      {id : String} {a : IngestionJobStatus}
      → Move a IngestionJobStatus.indexing
      → StatusMove (Call.indexing id) id a IngestionJobStatus.indexing
  completes :
      {id : String}
      → StatusMove (Call.completing id) id IngestionJobStatus.indexing IngestionJobStatus.indexed
  fails :
      {id code message : String}
      → StatusMove
          (Call.failing id code message)
          id
          IngestionJobStatus.indexing
          IngestionJobStatus.failed

-- Every job of the first table is in the second, and the call has moved its status once at most.
abbrev pub Advances : Call → List JobRow → List JobRow → Type 0
Advances call before after =
    (job_id : String) (j : JobRow)
    → find_job job_id before ≡ some j
    → (k : JobRow) × (find_job job_id after ≡ some k)
      × IsLater j k
      × StatusMove call j.job_id j.status k.status

-- The jobs of the first table are in those of the second, as they are.
abbrev pub AsTheyAre : List JobRow → Tables → Type 0
AsTheyAre first t =
    (job_id : String) (j : JobRow)
    → find_job job_id first ≡ some j
    → find_job job_id t.jobs ≡ some j

module _ (first : List JobRow) where
  pub AsTheyAre-IsAside : IsAside (AsTheyAre first)
  AsTheyAre-IsAside f j s t h = rw (j t) h

  pub AsTheyAre-IsAppended : IsAppended (AsTheyAre first)
  AsTheyAre-IsAppended row t h job_id j e = find_job-append job_id t.jobs _ j (h job_id j e)

  pub AsTheyAre-IsReduced : IsReduced (AsTheyAre first)
  AsTheyAre-IsReduced p t h = h

  pub AsTheyAre-Advances :
      (call : Call) (t : Tables) → AsTheyAre first t → Advances call first t.jobs
  AsTheyAre-Advances call t h job_id j e = (j, h job_id j e, IsLater-refl j, StatusMove.unmoved)

-- A table that is as it was, or updated.
abbrev IsUpdated : (JobRow → Bool) → (JobRow → JobRow) → List JobRow → List JobRow → Type 0
IsUpdated p f before after = (after ≡ before) ⊎ (after ≡ update_rows p f before)

IsUpdated-Advances :
    (call : Call) (p : JobRow → Bool) (f : JobRow → JobRow) (before after : List JobRow)
    → Steps (changed p f)
    → ((j : JobRow) → p j ≡ true → StatusMove call j.job_id j.status (f j).status)
    → IsUpdated p f before after
    → Advances call before after
IsUpdated-Advances call p f before after steps moves (inl e) job_id j found =
    (j, ap (find_job job_id) e ∙ found, IsLater-refl j, StatusMove.unmoved)
IsUpdated-Advances call p f before after steps moves (inr e) job_id j found = (
  changed p f j,
  ap (find_job job_id) e ∙ find_job-map (changed p f) steps job_id before j found,
  steps j j (IsLater-refl j),
  moved (Bool-cases (p j)),
)
  where
    moved :
        (p j ≡ true) ⊎ (p j ≡ Bool.false) → StatusMove call j.job_id j.status (changed p f j).status
    moved (inl holds) = rw holds (moves j holds)
    moved (inr other) = rw other StatusMove.unmoved

transition-IsUpdated :
    (p : JobRow → Bool) (f : JobRow → JobRow) (message : String) (s : Store)
    → IsUpdated p f s.tables.jobs (transition p f message s).1.tables.jobs
unfolding transition transaction
transition-IsUpdated p f message s = elim (Bool-cases (eqb (row_count p s.tables.jobs) 1)) [
  | inl one ↦ inr (rw one refl)
  | inr other ↦ inl (rw other refl)
]

mark_indexed-IsUpdated :
    (job_id : String) (s : Store)
    → IsUpdated (in_progress job_id) as_indexed s.tables.jobs (mark_indexed job_id s).1.tables.jobs
unfolding mark_indexed transaction activate
mark_indexed-IsUpdated job_id s =
    elim (Option-cases (first_row (in_progress job_id) s.tables.jobs)) [
      | inl missing ↦ inl (rw missing refl)
      | inr (row, found) ↦ inr (rw found refl)
    ]

in_progress-parts :
    (job_id : String) (j : JobRow)
    → in_progress job_id j ≡ true
    → (job_id ≡ j.job_id) × (j.status ≡ IngestionJobStatus.indexing)
unfolding in_progress
in_progress-parts job_id j h =
    let (same, going) = and_parts (has_id job_id j) _ h in
    ((eq_iff job_id j.job_id).0 same, progresses j.status going)

pub mark_indexing-Advances :
    (job_id : String) (s : Store)
    → Advances (Call.indexing job_id) s.tables.jobs (mark_indexing job_id s).1.tables.jobs
unfolding mark_indexing startable as_indexing
mark_indexing-Advances job_id s =
    IsUpdated-Advances (Call.indexing job_id) (startable job_id) as_indexing s.tables.jobs _
      (startable-Steps job_id)
      (λ j h.
        let (same, may) = and_parts (has_id job_id j) _ h in
        subst (λ x. StatusMove (Call.indexing job_id) x j.status IngestionJobStatus.indexing)
          ((eq_iff job_id j.job_id).0 same) (StatusMove.begins (starts j.status may)))
      (transition-IsUpdated (startable job_id) as_indexing
        "Ingestion job cannot enter indexing state" s)

pub mark_indexed-Advances :
    (job_id : String) (s : Store)
    → Advances (Call.completing job_id) s.tables.jobs (mark_indexed job_id s).1.tables.jobs
unfolding as_indexed
mark_indexed-Advances job_id s =
    IsUpdated-Advances (Call.completing job_id) (in_progress job_id) as_indexed s.tables.jobs _
      (as_indexed-Steps job_id)
      (λ j h.
        let (same, going) = in_progress-parts job_id j h in
        subst (λ x. StatusMove (Call.completing job_id) x j.status IngestionJobStatus.indexed) same
          (subst (λ a. StatusMove (Call.completing job_id) job_id a IngestionJobStatus.indexed)
            (sym going) StatusMove.completes))
      (mark_indexed-IsUpdated job_id s)

pub mark_failed-Advances :
    (job_id code message : String) (s : Store)
    → Advances
        (Call.failing job_id code message)
        s.tables.jobs
        (mark_failed job_id code message s).1.tables.jobs
unfolding mark_failed as_failed
mark_failed-Advances job_id code message s =
    let call = Call.failing job_id code message in
    let f = as_failed (text_take 100 code) (text_take 2000 message) in
    IsUpdated-Advances call (in_progress job_id) f s.tables.jobs _
      (as_failed-Steps job_id (text_take 100 code) (text_take 2000 message))
      (λ j h.
        let (same, going) = in_progress-parts job_id j h in
        subst (λ x. StatusMove call x j.status IngestionJobStatus.failed) same
          (subst (λ a. StatusMove call job_id a IngestionJobStatus.failed) (sym going)
            StatusMove.fails))
      (transition-IsUpdated (in_progress job_id) f "Ingestion job cannot enter failed state" s)
