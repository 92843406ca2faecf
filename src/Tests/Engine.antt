-- ===== src/Tests/Engine.antt =====
-- The theorems on the engine, at a pipeline of two steps.
use sovereign_flow.Prelude.{zero, ◌≡◌, refl, false, [], ◌∷◌, none, some, arith}
use sovereign_flow.Result.{ok}
use sovereign_flow.Text.Strip.{strip, required}
use sovereign_flow.Text.Words.{text_length}
use sovereign_flow.Domain.Security.{clearance_kind}
use sovereign_flow.Domain.Profile.{SearchMode}
use sovereign_flow.Pipeline.Definition.{find_step, step_found, pipeline_step}
use sovereign_flow.Pipeline.Registry.{get_action, find_action, action_found}
use sovereign_flow.Pipeline.Transition.{next_step, chosen, followed}
use sovereign_flow.Pipeline.Context.{ActionState}
use sovereign_flow.Pipeline.Run.{new_run, new_step_audit, QueryResult}
use sovereign_flow.Pipeline.Diagnostics.{
  with_origin, without_origin, chunk_origins, retrieval_diagnostics, diagnostics,
}
use sovereign_flow.Pipeline.Engine.{
  ExecutionAudit, take_step, run_from, conclude, attempted, execute,
}
use sovereign_flow.Pipeline.Engine.Limit.{run_from-unlimited}
use sovereign_flow.Pipeline.Engine.Outcome.{IsAnswered, execute-IsAnswered}
use sovereign_flow.Tests.Data.{context, library, no_requirement}
use sovereign_flow.Tests.Pipelines.{registry, pipeline, pipeline_valid}

abbrev pub audit : ExecutionAudit (Unit {0})
audit = record {
  start = λ run w. (ok tt, w);
  record_step = λ step w. (ok tt, w);
  succeed = λ run_id answer citations prompt_tokens completion_tokens cost w. (ok tt, w);
  fail = λ run_id code message w. (ok tt, w);
}

abbrev before : ActionState (Unit {0})
before = record { context = record context { hits = [] }; world = tt }

abbrev after : ActionState (Unit {0})
after = record {
  context = record context { hits = []; trace = "search" ∷ "finish" ∷ [] };
  world = tt;
}

run_from-unlimited_example :
    run_from audit (λ w. (ok 0, w)) registry pipeline "run" 9 zero (some "search") before
    ≡ run_from audit (λ w. (ok 0, w)) registry pipeline "run" 2 zero (some "search") before
run_from-unlimited_example =
    run_from-unlimited audit (λ w. (ok 0, w)) registry pipeline "run" 9 before pipeline_valid
      (omega arith)

abbrev result : QueryResult
result = record {
  request_id = "r1";
  answer = "";
  domain = "hr";
  session_id = "s1";
  citations = [];
  pipeline_trace = "search" ∷ "finish" ∷ [];
  diagnostics = record {
    contract_version = "1.0";
    subject_hash = "ann";
    tenant_id = "acme";
    allowed_acl_labels = [];
    security_model_kind = clearance_kind;
    search_mode = SearchMode.bm25;
    retrieval = [];
    omitted_chunk_ids = [];
    context_chunk_ids = [];
    context_characters = 0;
    provider = "default";
    model = "model";
    prompt_key = "";
    model_transmission = record {
      checked = false;
      allowed = false;
      reason_code = "";
      selected_model_server_id = none;
      final_model_server_id = none;
      rerouted = false;
      trust_boundary = none;
      external_transmission = none;
      context_security_requirement = no_requirement;
      checked_chunk_ids = [];
      blocked_chunk_ids = [];
    };
    system_prompt_hash = "";
    prompt_tokens = 0;
    completion_tokens = 0;
    model_duration_ms = 0;
    pipeline_trace = "search" ∷ "finish" ∷ [];
  };
  conversation_id = none;
  turn_id = none;
}

executed :
    execute library audit (λ w. (ok 0, w)) registry pipeline (λ w. (ok "run", w)) before
    ≡ (ok result, after)
unfolding execute attempted run_from take_step conclude diagnostics chunk_origins with_origin
    without_origin retrieval_diagnostics new_run new_step_audit required strip pipeline_step
    step_found find_step get_action find_action action_found next_step chosen followed text_length
executed = refl

execute-IsAnswered_example :
    IsAnswered library audit (λ w. (ok 0, w)) registry pipeline result before after
execute-IsAnswered_example =
    execute-IsAnswered library audit (λ w. (ok 0, w)) registry pipeline (λ w. (ok "run", w)) before
      after result pipeline_valid executed
