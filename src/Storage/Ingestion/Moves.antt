-- ===== src/Storage/Ingestion/Moves.antt =====
-- How the status of a job moves, and what the statements do to the rows of `sf.jobs`.
use mathlib.Core.Path.{subst}
use sovereign_flow.Prelude.{
  ◌≤◌, String, ◌≡◌, refl, sym, ◌∙◌, Bool, true, false, List, [], ◌∷◌, ◌++◌, some, map, arith,
  Bool-cases, inl, inr, some_injective,
}
use sovereign_flow.Domain.Ingestion.{IngestionJobStatus}
use sovereign_flow.Storage.Tables.{
  JobRow, changed, find_job, startable, in_progress, as_indexing, as_indexed, as_failed, may_start,
  is_indexing,
}

-- One change of a status: a job is started from any status but `indexed`, and ends from `indexing`.
pub data Move : IngestionJobStatus → IngestionJobStatus → Type 0 where
  start : Move IngestionJobStatus.staged IngestionJobStatus.indexing
  start_again : Move IngestionJobStatus.indexing IngestionJobStatus.indexing
  start_failed : Move IngestionJobStatus.failed IngestionJobStatus.indexing
  finish : Move IngestionJobStatus.indexing IngestionJobStatus.indexed
  give_up : Move IngestionJobStatus.indexing IngestionJobStatus.failed

pub data Moves : IngestionJobStatus → IngestionJobStatus → Type 0 where
  stay : {a : IngestionJobStatus} → Moves a a
  then : {a b c : IngestionJobStatus} → Moves a b → Move b c → Moves a c

-- A later state `k` of the row `j`.
pub record IsLater (j k : JobRow) : Type 0 where
  pub moves : Moves j.status k.status
  pub same_id : k.job_id ≡ j.job_id
  pub same_source : k.key ≡ j.key
  pub same_version : k.source_version ≡ j.source_version
  pub same_payload : k.payload_hash ≡ j.payload_hash
  pub attempts : j.attempts ≤ k.attempts

pub IsLater-refl : (j : JobRow) → IsLater j j
IsLater-refl j = record {
  moves = Moves.stay;
  same_id = refl;
  same_source = refl;
  same_version = refl;
  same_payload = refl;
  attempts = omega arith;
}

pub Moves-trans : {a b c : IngestionJobStatus} → Moves a b → Moves b c → Moves a c
Moves-trans m Moves.stay = m
Moves-trans m (Moves.then n k) = Moves.then (Moves-trans m n) k

pub IsLater-trans : (i j k : JobRow) → IsLater i j → IsLater j k → IsLater i k
IsLater-trans i j k a b = record {
  moves = Moves-trans a.moves b.moves;
  same_id = b.same_id ∙ a.same_id;
  same_source = b.same_source ∙ a.same_source;
  same_version = b.same_version ∙ a.same_version;
  same_payload = b.same_payload ∙ a.same_payload;
  attempts = omega (arith, a.attempts, b.attempts);
}

-- A job that is indexed stays so.
Move-from_indexed :
    {a b : IngestionJobStatus}
    → Move a b
    → a ≡ IngestionJobStatus.indexed
    → b ≡ IngestionJobStatus.indexed
Move-from_indexed Move.start h = cc
Move-from_indexed Move.start_again h = cc
Move-from_indexed Move.start_failed h = cc
Move-from_indexed Move.finish h = refl
Move-from_indexed Move.give_up h = cc

pub indexed_stays :
    {a b : IngestionJobStatus}
    → Moves a b
    → a ≡ IngestionJobStatus.indexed
    → b ≡ IngestionJobStatus.indexed
indexed_stays Moves.stay h = h
indexed_stays (Moves.then m k) h = Move-from_indexed k (indexed_stays m h)

-- A step of each row: it is as it was, or it moves once.
abbrev pub Steps : (JobRow → JobRow) → Type 0
Steps g = (j k : JobRow) → IsLater j k → IsLater j (g k)

pub starts : (a : IngestionJobStatus) → may_start a ≡ true → Move a IngestionJobStatus.indexing
starts IngestionJobStatus.staged h = Move.start
starts IngestionJobStatus.indexing h = Move.start_again
starts IngestionJobStatus.indexed h = cc
starts IngestionJobStatus.failed h = Move.start_failed

pub progresses : (a : IngestionJobStatus) → is_indexing a ≡ true → a ≡ IngestionJobStatus.indexing
progresses IngestionJobStatus.staged h = cc
progresses IngestionJobStatus.indexing h = refl
progresses IngestionJobStatus.indexed h = cc
progresses IngestionJobStatus.failed h = cc

module _ (p : JobRow → Bool) (f : JobRow → JobRow) where
  changed-true : (k : JobRow) → p k ≡ true → changed p f k ≡ f k
  changed-true k h = rw h refl

  changed-false : (k : JobRow) → p k ≡ false → changed p f k ≡ k
  changed-false k h = rw h refl

  -- A change that moves the rows it is made on is a step.
  changed-Steps :
      ((j k : JobRow) → p k ≡ true → IsLater j k → IsLater j (f k)) → Steps (changed p f)
  changed-Steps h j k later = elim (Bool-cases (p k)) [
    | inl holds ↦ subst (IsLater j) (sym (changed-true k holds)) (h j k holds later)
    | inr fails ↦ subst (IsLater j) (sym (changed-false k fails)) later
  ]

pub startable-Steps : (job_id : String) → Steps (changed (startable job_id) as_indexing)
unfolding startable as_indexing
startable-Steps job_id = changed-Steps (startable job_id) as_indexing (λ j k h later. record {
  moves = Moves.then later.moves (starts k.status (ground arith));
  same_id = later.same_id;
  same_source = later.same_source;
  same_version = later.same_version;
  same_payload = later.same_payload;
  attempts = omega (arith, later.attempts);
})

-- A change of a row in progress to a status that `indexing` moves to.
in_progress-Steps :
    (job_id : String) (f : JobRow → JobRow)
    → ((k : JobRow) → k.status ≡ IngestionJobStatus.indexing → IsLater k (f k))
    → Steps (changed (in_progress job_id) f)
unfolding in_progress
in_progress-Steps job_id f h =
    changed-Steps (in_progress job_id) f
      (λ j k p later. IsLater-trans j k (f k) later (h k (progresses k.status (ground arith))))

finishes :
    (a : IngestionJobStatus) → a ≡ IngestionJobStatus.indexing → Moves a IngestionJobStatus.indexed
finishes a h =
    Moves.then Moves.stay (subst (λ x. Move x IngestionJobStatus.indexed) (sym h) Move.finish)

gives_up :
    (a : IngestionJobStatus) → a ≡ IngestionJobStatus.indexing → Moves a IngestionJobStatus.failed
gives_up a h =
    Moves.then Moves.stay (subst (λ x. Move x IngestionJobStatus.failed) (sym h) Move.give_up)

pub as_indexed-Steps : (job_id : String) → Steps (changed (in_progress job_id) as_indexed)
unfolding as_indexed
as_indexed-Steps job_id = in_progress-Steps job_id as_indexed (λ k h. record {
  moves = finishes k.status h;
  same_id = refl;
  same_source = refl;
  same_version = refl;
  same_payload = refl;
  attempts = omega arith;
})

pub as_failed-Steps :
    (job_id code message : String) → Steps (changed (in_progress job_id) (as_failed code message))
unfolding as_failed
as_failed-Steps job_id code message = in_progress-Steps job_id (as_failed code message) (λ k h.
    record {
      moves = gives_up k.status h;
      same_id = refl;
      same_source = refl;
      same_version = refl;
      same_payload = refl;
      attempts = omega arith;
    })

-- A row is found again after a step of all rows.
pub find_job-map :
    (g : JobRow → JobRow)
    → Steps g
    → (job_id : String) (rows : List JobRow) (k : JobRow) → find_job job_id rows ≡ some k
    → find_job job_id (map g rows) ≡ some (g k)
unfolding find_job
find_job-map g steps job_id [] k h = cc
find_job-map g steps job_id (r ∷ rows) k h = ground (
  arith,
  (steps r r (IsLater-refl r)).same_id,
  some_injective r k,
  find_job-map g steps job_id rows k,
)

pub find_job-append :
    (job_id : String) (rows new : List JobRow) (k : JobRow)
    → find_job job_id rows ≡ some k
    → find_job job_id (rows ++ new) ≡ some k
unfolding find_job
find_job-append job_id [] new k h = cc
find_job-append job_id (r ∷ rows) new k h = ground (arith, find_job-append job_id rows new k)

-- Every job of the first table is in the second, in a later state.
abbrev pub Advance : List JobRow → List JobRow → Type 0
Advance before after =
    (job_id : String) (j : JobRow)
    → find_job job_id before ≡ some j
    → (k : JobRow) × (find_job job_id after ≡ some k) × IsLater j k

pub Advance-map :
    (g : JobRow → JobRow) (first rows : List JobRow)
    → Steps g
    → Advance first rows
    → Advance first (map g rows)
Advance-map g first rows steps h job_id j e =
    let (k, found, later) = h job_id j e in
    (g k, find_job-map g steps job_id rows k found, steps j k later)

pub Advance-append :
    (first rows new : List JobRow) → Advance first rows → Advance first (rows ++ new)
Advance-append first rows new h job_id j e =
    let (k, found, later) = h job_id j e in (k, find_job-append job_id rows new k found, later)
