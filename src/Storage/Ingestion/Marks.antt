-- ===== src/Storage/Ingestion/Marks.antt =====
-- What the marks do to a job that the table holds once.
use mathlib.Core.Path.{subst}
use sovereign_flow.Prelude.{
  String, ◌≡◌, refl, sym, ap, ◌∙◌, Bool, true, ◌&&◌, List, [], ◌∷◌, some, map, eq_refl, arith,
  Bool-cases, inl, inr, some_injective,
}
use sovereign_flow.Result.{ok}
use sovereign_flow.Text.Words.{text_take}
use sovereign_flow.Storage.Tables.{
  JobRow, SourceRow, changed, update_rows, first_row, row_count, has_id, find_job, startable,
  in_progress, may_start, is_indexing, as_indexing, as_indexed, as_failed, upsert_source,
  current_row, of_source,
}
use sovereign_flow.Storage.Ingestion.{
  Store, transition, mark_indexing, mark_indexed, mark_failed, activate, transaction,
}
use sovereign_flow.Storage.Ingestion.Moves.{
  IsLater-refl, Steps, startable-Steps, as_indexed-Steps, as_failed-Steps, find_job-map,
}

-- The identifier is that of this row and of no other, as the primary key has it.
pub record Holds (rows : List JobRow) (job_id : String) (row : JobRow) : Type 0 where
  pub found : find_job job_id rows ≡ some row
  pub once : row_count (has_id job_id) rows ≡ 1

module _ (job_id : String) (q : JobRow → Bool) where
  -- The condition of an UPDATE.
  abbrev both : JobRow → Bool
  both k = has_id job_id k && q k

  row_count-zero :
      (rows : List JobRow) → row_count (has_id job_id) rows ≡ 0 → row_count both rows ≡ 0
  row_count-zero [] h = refl
  row_count-zero (k ∷ rows) h = ground (arith, row_count-zero rows)

  row_count-one :
      (rows : List JobRow) (row : JobRow)
      → row_count (has_id job_id) rows ≡ 1
      → find_job job_id rows ≡ some row
      → q row ≡ true
      → row_count both rows ≡ 1
  unfolding find_job
  row_count-one [] row h e t = cc
  row_count-one (k ∷ rows) row h e t = elim (Bool-cases (has_id job_id k)) [
    | inl same ↦
        let here : k ≡ row = some_injective k row (rw same at e) in
        let holds : q k ≡ true = ap q here ∙ t in
        let rest : row_count both rows ≡ 0 = row_count-zero rows (ground arith) in ground arith
    | inr other ↦
        let rest : row_count both rows ≡ 1 =
          row_count-one rows row (ground arith) (rw other at e) t in
        ground arith
  ]

  first_row-both :
      (rows : List JobRow) (row : JobRow)
      → find_job job_id rows ≡ some row
      → q row ≡ true
      → first_row both rows ≡ some row
  unfolding find_job
  first_row-both [] row e t = cc
  first_row-both (k ∷ rows) row e t = elim (Bool-cases (has_id job_id k)) [
    | inl same ↦
        let here : k ≡ row = some_injective k row (rw same at e) in
        let holds : q k ≡ true = ap q here ∙ t in ground arith
    | inr other ↦
        let rest : first_row both rows ≡ some row = first_row-both rows row (rw other at e) t in
        ground arith
  ]

row_count-map :
    (g : JobRow → JobRow)
    → Steps g
    → (job_id : String) (rows : List JobRow)
    → row_count (has_id job_id) (map g rows) ≡ row_count (has_id job_id) rows
row_count-map g steps job_id [] = refl
row_count-map g steps job_id (k ∷ rows) =
    rw ((steps k k (IsLater-refl k)).same_id) (rw (row_count-map g steps job_id rows) refl)

Holds-map :
    (g : JobRow → JobRow)
    → Steps g
    → (rows : List JobRow) (job_id : String) (row : JobRow) → Holds rows job_id row
    → Holds (map g rows) job_id (g row)
Holds-map g steps rows job_id row h = record {
  found = find_job-map g steps job_id rows row h.found;
  once = row_count-map g steps job_id rows ∙ h.once;
}

-- The row that is found has the identifier.
has_id-found :
    (job_id : String) (rows : List JobRow) (row : JobRow)
    → find_job job_id rows ≡ some row
    → has_id job_id row ≡ true
unfolding find_job
has_id-found job_id [] row h = cc
has_id-found job_id (k ∷ rows) row h = elim (Bool-cases (has_id job_id k)) [
  | inl same ↦ sym (ap (has_id job_id) (some_injective k row (rw same at h))) ∙ same
  | inr other ↦ has_id-found job_id rows row (rw other at h)
]

abbrev pub with_jobs : List JobRow → Store → Store
with_jobs rows s = record s { tables = record s.tables { jobs = rows } }

transition-one :
    (p : JobRow → Bool) (f : JobRow → JobRow) (message : String) (s : Store)
    → row_count p s.tables.jobs ≡ 1
    → transition p f message s ≡ (ok tt, with_jobs (update_rows p f s.tables.jobs) s)
unfolding transition transaction
transition-one p f message s h = rw h refl

changed-Holds :
    (p : JobRow → Bool) (f : JobRow → JobRow) (rows : List JobRow) (job_id : String) (row : JobRow)
    → Steps (changed p f)
    → Holds rows job_id row
    → p row ≡ true
    → Holds (update_rows p f rows) job_id (f row)
changed-Holds p f rows job_id row steps h t =
    subst (Holds (update_rows p f rows) job_id) (row_changed t)
      (Holds-map (changed p f) steps rows job_id row h)
  where
    row_changed : p row ≡ true → changed p f row ≡ f row
    row_changed e = rw e refl

-- The job that may start is marked.
pub mark_indexing-Holds :
    (job_id : String) (row : JobRow) (s : Store)
    → Holds s.tables.jobs job_id row
    → may_start row.status ≡ true
    → (mark_indexing job_id s
        ≡ (ok tt, with_jobs (update_rows (startable job_id) as_indexing s.tables.jobs) s))
      × Holds (update_rows (startable job_id) as_indexing s.tables.jobs) job_id (as_indexing row)
unfolding mark_indexing startable
mark_indexing-Holds job_id row s h t = (
  transition-one (startable job_id) as_indexing "Ingestion job cannot enter indexing state" s
      (row_count-one job_id (λ k. may_start k.status) s.tables.jobs row h.once h.found t),
  changed-Holds (startable job_id) as_indexing s.tables.jobs job_id row (startable-Steps job_id) h
      (rw (has_id-found job_id s.tables.jobs row h.found) t),
)

pub mark_failed-Holds :
    (job_id code message : String) (row : JobRow) (s : Store)
    → Holds s.tables.jobs job_id row
    → is_indexing row.status ≡ true
    → let f = as_failed (text_take 100 code) (text_take 2000 message) in
      (mark_failed job_id code message s
        ≡ (ok tt, with_jobs (update_rows (in_progress job_id) f s.tables.jobs) s))
      × Holds (update_rows (in_progress job_id) f s.tables.jobs) job_id (f row)
unfolding mark_failed in_progress
mark_failed-Holds job_id code message row s h t = (
  transition-one (in_progress job_id) (as_failed (text_take 100 code) (text_take 2000 message))
      "Ingestion job cannot enter failed state" s
      (row_count-one job_id (λ k. is_indexing k.status) s.tables.jobs row h.once h.found t),
  changed-Holds (in_progress job_id) (as_failed (text_take 100 code) (text_take 2000 message))
      s.tables.jobs job_id row
      (as_failed-Steps job_id (text_take 100 code) (text_take 2000 message)) h
      (rw (has_id-found job_id s.tables.jobs row h.found) t),
)

abbrev pub with_source : SourceRow → Store → Store
with_source new s = record s {
  tables = record s.tables { sources = upsert_source new s.tables.sources };
}

pub mark_indexed-Holds :
    (job_id : String) (row : JobRow) (s : Store)
    → Holds s.tables.jobs job_id row
    → is_indexing row.status ≡ true
    → (mark_indexed job_id s ≡ (
      ok tt,
      with_source
          (current_row row)
          (with_jobs (update_rows (in_progress job_id) as_indexed s.tables.jobs) s),
    ))
      × Holds (update_rows (in_progress job_id) as_indexed s.tables.jobs) job_id (as_indexed row)
unfolding mark_indexed in_progress activate transaction
mark_indexed-Holds job_id row s h t = (
  rw (first_row-both job_id (λ k. is_indexing k.status) s.tables.jobs row h.found t) refl,
  changed-Holds (in_progress job_id) as_indexed s.tables.jobs job_id row (as_indexed-Steps job_id) h
      (rw (has_id-found job_id s.tables.jobs row h.found) t),
)

-- After the upsert, the row is the one of its source.
pub upsert_source-found :
    (new : SourceRow) (rows : List SourceRow)
    → first_row (of_source new.key) (upsert_source new rows) ≡ some new
unfolding upsert_source
upsert_source-found new [] =
    rw (eq_refl new.key.tenant_id)
      (rw (eq_refl new.key.domain) (rw (eq_refl new.key.source_id) refl))
upsert_source-found new (row ∷ rows) = elim (Bool-cases (of_source new.key row)) [
  | inl same ↦ rw same (
      rw (eq_refl new.key.tenant_id)
        (rw (eq_refl new.key.domain) (rw (eq_refl new.key.source_id) refl)))
  | inr other ↦ rw other (rw other (upsert_source-found new rows))
]
