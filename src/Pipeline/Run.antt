-- ===== src/Pipeline/Run.antt =====
-- The records of a run of sovereignflow/domain/models.py: what the engine writes to the audit log
-- and what it returns.
use sovereign_flow.Prelude.{ℕ, String, List, Option, leb}
use sovereign_flow.Result.{Result, ok, validation, guard, ◌>>=◌, ◌>>◌}
use sovereign_flow.Text.Strip.{required}
use sovereign_flow.Value.{Float, Value}
use sovereign_flow.Domain.Security.{SecurityModelKind}
use sovereign_flow.Domain.Chunk.{Citation}
use sovereign_flow.Domain.Profile.{SearchMode}
use sovereign_flow.Pipeline.Actions.Transmission.{ModelTransmissionDiagnostic}

pub record PipelineRun : Type 0 where
  pub run_id : String
  pub request_id : String
  pub session_id : String
  pub domain : String
  pub tenant_id : String
  pub pipeline_name : String
  pub pipeline_version : String
  pub pipeline_checksum : String
  pub query : String

unfoldable pub new_run : PipelineRun → Result PipelineRun
new_run r = do
  run_id ← required r.run_id "PipelineRun.run_id"
  request_id ← required r.request_id "PipelineRun.request_id"
  session_id ← required r.session_id "PipelineRun.session_id"
  domain ← required r.domain "PipelineRun.domain"
  tenant_id ← required r.tenant_id "PipelineRun.tenant_id"
  pipeline_name ← required r.pipeline_name "PipelineRun.pipeline_name"
  pipeline_version ← required r.pipeline_version "PipelineRun.pipeline_version"
  pipeline_checksum ← required r.pipeline_checksum "PipelineRun.pipeline_checksum"
  query ← required r.query "PipelineRun.query"
  ok (record {
    run_id = run_id;
    request_id = request_id;
    session_id = session_id;
    domain = domain;
    tenant_id = tenant_id;
    pipeline_name = pipeline_name;
    pipeline_version = pipeline_version;
    pipeline_checksum = pipeline_checksum;
    query = query;
  })

-- `duration_ms` is a natural number, so that the test on its sign is left out.
pub record PipelineStepAudit : Type 0 where
  pub run_id : String
  pub sequence_number : ℕ
  pub step_id : String
  pub action : String
  pub action_version : String
  pub duration_ms : ℕ
  pub next_step_id : Option String

unfoldable pub new_step_audit : PipelineStepAudit → Result PipelineStepAudit
new_step_audit a = do
  run_id ← required a.run_id "PipelineStepAudit.run_id"
  step_id ← required a.step_id "PipelineStepAudit.step_id"
  action ← required a.action "PipelineStepAudit.action"
  action_version ← required a.action_version "PipelineStepAudit.action_version"
  guard (leb 1 a.sequence_number)
      (validation "PipelineStepAudit.sequence_number must be greater than zero")
  ok (record a {
    run_id = run_id;
    step_id = step_id;
    action = action;
    action_version = action_version;
  })

pub record RetrievalDiagnostic : Type 0 where
  pub chunk_id : String
  pub source_id : String
  pub score : Float
  pub score_type : String
  pub rank : ℕ
  pub origin : String
  pub graph_depth : Option Value
  pub graph_path : List Value

pub record QueryDiagnostics : Type 0 where
  pub contract_version : String
  pub subject_hash : String
  pub tenant_id : String
  pub allowed_acl_labels : List String
  pub security_model_kind : SecurityModelKind
  pub search_mode : SearchMode
  pub retrieval : List RetrievalDiagnostic
  pub omitted_chunk_ids : List String
  pub context_chunk_ids : List String
  pub context_characters : ℕ
  pub provider : String
  pub model : String
  pub prompt_key : String
  pub model_transmission : ModelTransmissionDiagnostic
  pub system_prompt_hash : String
  pub prompt_tokens : ℕ
  pub completion_tokens : ℕ
  pub model_duration_ms : ℕ
  pub pipeline_trace : List String

pub record QueryResult : Type 0 where
  pub request_id : String
  pub answer : String
  pub domain : String
  pub session_id : String
  pub citations : List Citation
  pub pipeline_trace : List String
  pub diagnostics : QueryDiagnostics
  pub conversation_id : Option String
  pub turn_id : Option String
