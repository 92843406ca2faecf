-- ===== src/Tests/Ingestion.antt =====
-- The theorems on ingestion, at concrete inputs.
use Prim.Native.Nat.{Ordering}
use mathlib.Core.Path.{subst}
use sovereign_flow.Prelude.{ℕ, String, ◌≡◌, refl, [], ◌∷◌, none, some, some_injective, All, ◌↔◌}
use sovereign_flow.Result.{ok, err, foreign}
use sovereign_flow.Text.Strip.{strip, required}
use sovereign_flow.Domain.Security.Accepted.{HasLevel, clearance_value-eq-ok}
use sovereign_flow.Domain.Security.{
  ClearanceLevelModel, SecurityDecision, document_visible_to_subject, clearance_value, level_at,
}
use sovereign_flow.Domain.Ingestion.{IngestionCommand, IngestionJob, IngestionJobStatus, new_job}
use sovereign_flow.Services.IngestionBoundary.{
  verify_boundary, verify_chunks, validate_document_security, validate_by_kind, validate_clearance,
  as_policy_violation,
}
use sovereign_flow.Services.IngestionBoundary.Accepted.{
  IsBounded, verify_boundary_iff, verify_boundary-decided,
}
use sovereign_flow.Services.Ingestion.Settled.{IsSettled, process-IsSettled}
use sovereign_flow.Services.Ingestion.Stored.{World}
use sovereign_flow.Storage.Tables.{JobRow, Postgres, source_key, find_job, find_version, staged_job}
use sovereign_flow.Storage.Ingestion.{
  Store, stage, transaction, stage_rows, stage_new, insert_unless_stored, insert_version,
  insert_chunks, insert_relationships, new_job_id, insert_job, staged_result,
}
use sovereign_flow.Storage.Ingestion.Repeated.{stage-repeated}
use sovereign_flow.Storage.Ingestion.Marks.{Holds}
use sovereign_flow.Storage.Ingestion.Marked.{IsKept}
use sovereign_flow.Storage.Ingestion.Calls.{Call}
use sovereign_flow.Storage.Ingestion.Runs.{Runs, EachAdvances, after_call, runs-IsKept}
use sovereign_flow.Tests.Data.{chunk, clearance, domain, cleared}

abbrev command : IngestionCommand
command = record {
  idempotency_key = "k1";
  domain = "hr";
  tenant_id = "acme";
  source_id = "handbook";
  source_version = "v1";
  chunks = chunk "c1" "public" ∷ chunk "c2" "secret" ∷ [];
  relationships = [];
  source_uri = none;
  metadata = [];
}

command_passes : verify_boundary domain command ≡ ok tt
unfolding verify_boundary verify_chunks validate_document_security validate_by_kind
    validate_clearance as_policy_violation clearance_value level_at required strip
command_passes = refl

verify_boundary_iff_example : verify_boundary domain command ≡ ok tt ↔ IsBounded domain command
verify_boundary_iff_example = verify_boundary_iff domain command

secret_value : clearance_value clearance "secret" "clearance" ≡ ok 5
unfolding clearance_value level_at required strip
secret_value = refl

known_label :
    (m : ClearanceLevelModel)
    → domain.security_model.clearance_level ≡ some m
    → (label : String) → (cleared "secret").clearance_label ≡ some label
    → (n : ℕ) × HasLevel m label n
known_label m same label named =
    subst (λ x. (n : ℕ) × HasLevel x label n) (some_injective clearance m same)
      (subst (λ x. (n : ℕ) × HasLevel clearance x n) (some_injective "secret" label named)
        (5, clearance_value-eq-ok clearance "secret" "clearance" 5 secret_value))

verify_boundary-decided_example :
    All
      (λ c.
        (d : SecurityDecision) × (document_visible_to_subject domain.security_model c.security
            (cleared "secret")
          ≡ ok d))
      command.chunks
verify_boundary-decided_example =
    verify_boundary-decided domain command (cleared "secret") command_passes known_label

abbrev db : Postgres
db = record {
  collate = λ s t. Ordering.eq;
  jsonb = λ metadata. ok metadata;
  job_id_factory = λ n. "job";
}

abbrev empty : Store
empty = record {
  tables = record {
    jobs = [];
    source_versions = [];
    chunks = [];
    relationships = [];
    sources = [];
  };
  issued = 0;
}

abbrev staging : Call
staging = Call.staging command "hash"

abbrev indexing : Call
indexing = Call.indexing "job"

abbrev completing : Call
completing = Call.completing "job"

abbrev completed : Store
completed = after_call db completing (after_call db indexing (after_call db staging empty))

abbrev three_calls : Runs db empty completed
three_calls = Runs.called (Runs.called (Runs.called Runs.begun staging) indexing) completing

runs-IsKept_example : IsKept [] completed.tables × EachAdvances db empty completed three_calls
runs-IsKept_example = runs-IsKept db empty completed tt three_calls

abbrev row : JobRow
row = record {
  job_id = "job";
  key = source_key command;
  source_version = "v1";
  idempotency_key = "k1";
  payload_hash = "hash";
  status = IngestionJobStatus.failed;
  attempts = 1;
  error_code = some "internal_error";
  error_message = some "Unhandled vector indexing failure";
}

abbrev stored : World (Unit {0})
stored = record {
  store = record empty { tables = record empty.tables { jobs = row ∷ [] } };
  index = tt;
}

abbrev job : IngestionJob
job = record {
  job_id = "job";
  payload_hash = "hash";
  status = IngestionJobStatus.failed;
  command = command;
  attempts = 1;
}

row-Holds : Holds (row ∷ []) "job" row
unfolding find_job
row-Holds = record { found = refl; once = refl }

process-IsSettled_example :
    IsSettled db domain
      (λ j collection v. (err (foreign "timeout"), v))
      job
      row
      stored
      (err (foreign "timeout"))
      tt
process-IsSettled_example =
    process-IsSettled db domain (λ j collection v. (err (foreign "timeout"), v)) job row stored
      (err (foreign "timeout")) tt refl row-Holds refl refl

abbrev staged_job_of_command : IngestionJob
staged_job_of_command = record job { status = IngestionJobStatus.staged; attempts = 0 }

command_staged :
    stage db command "hash" empty ≡ (ok staged_job_of_command, (stage db command "hash" empty).1)
unfolding stage transaction stage_rows stage_new find_version insert_unless_stored insert_version
    insert_chunks insert_relationships new_job_id insert_job staged_job staged_result new_job
    required strip
command_staged = refl

stage-repeated_example :
    (stage db command "hash" (stage db command "hash" empty).1).1.tables
    ≡ (stage db command "hash" empty).1.tables
stage-repeated_example =
    stage-repeated db command "hash" empty (stage db command "hash" empty).1 staged_job_of_command
      command_staged
