-- ===== src/Storage/Ingestion/Consistent.antt =====
-- The current version of a source is one whose indexing has ended well.
use mathlib.Core.Path.{subst}
use sovereign_flow.Prelude.{
  String, ◌≡◌, refl, ◌∙◌, List, [], ◌∷◌, some, map, inl, inr, Bool-cases, some_injective, All, Any,
  All-map, Any-map,
}
use sovereign_flow.Domain.Ingestion.{IngestionJobStatus}
use sovereign_flow.Storage.Tables.{
  JobRow, SourceRow, Tables, update_rows, first_row, upsert_source, current_row, of_source,
  in_progress, as_indexed,
}
use sovereign_flow.Storage.Ingestion.Moves.{IsLater-refl, Steps, indexed_stays}

-- The job of the row is indexed, and its version is the current one of the source.
pub record Makes (s : SourceRow) (k : JobRow) : Type 0 where
  pub indexed : k.status ≡ IngestionJobStatus.indexed
  pub same_id : k.job_id ≡ s.current_job_id
  pub same_source : k.key ≡ s.key
  pub same_version : k.source_version ≡ s.current_version

abbrev pub IsCurrent : List JobRow → SourceRow → Type 0
IsCurrent rows s = Any (Makes s) rows

-- Every current version was indexed by the job that its source names.
abbrev pub IsConsistent : Tables → Type 0
IsConsistent t = All (IsCurrent t.jobs) t.sources

pub Makes-step :
    (g : JobRow → JobRow) → Steps g → (s : SourceRow) (k : JobRow) → Makes s k → Makes s (g k)
Makes-step g steps s k m =
    let later = steps k k (IsLater-refl k) in
    record {
      indexed = indexed_stays later.moves m.indexed;
      same_id = later.same_id ∙ m.same_id;
      same_source = later.same_source ∙ m.same_source;
      same_version = later.same_version ∙ m.same_version;
    }

pub IsCurrent-map :
    (g : JobRow → JobRow) (rows : List JobRow) (sources : List SourceRow)
    → Steps g
    → All (IsCurrent rows) sources
    → All (IsCurrent (map g rows)) sources
IsCurrent-map g rows sources steps h =
    All-map (IsCurrent rows) (IsCurrent (map g rows)) sources
      (λ s. Any-map (Makes s) (Makes s) g rows (Makes-step g steps s)) h

pub upsert_source-All :
    (P : SourceRow → Type 0) (new : SourceRow) (rows : List SourceRow)
    → P new
    → All P rows
    → All P (upsert_source new rows)
unfolding upsert_source
upsert_source-All P new [] p h = (p, tt)
upsert_source-All P new (row ∷ rows) p h = elim (Bool-cases (of_source new.key row)) [
  | inl same ↦ rw same (p, h.1)
  | inr other ↦ rw other (h.0, upsert_source-All P new rows p h.1)
]

as_indexed-Makes : (x : JobRow) → Makes (current_row x) (as_indexed x)
unfolding as_indexed
as_indexed-Makes x = record {
  indexed = refl;
  same_id = refl;
  same_source = refl;
  same_version = refl;
}

-- The row that the UPDATE returns is indexed after it.
pub first_row-Makes :
    (job_id : String) (rows : List JobRow) (row : JobRow)
    → first_row (in_progress job_id) rows ≡ some row
    → Any (Makes (current_row row)) (update_rows (in_progress job_id) as_indexed rows)
first_row-Makes job_id [] row h = cc
first_row-Makes job_id (r ∷ rows) row h = elim (Bool-cases (in_progress job_id r)) [
  | inl holds ↦
      let same : r ≡ row = some_injective r row (rw holds at h) in
      inl (rw holds (subst (λ x. Makes (current_row x) (as_indexed r)) same (as_indexed-Makes r)))
  | inr fails ↦ inr (first_row-Makes job_id rows row (rw fails at h))
]
