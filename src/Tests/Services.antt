-- ===== src/Tests/Services.antt =====
-- The theorems on the services, at concrete inputs.
use sovereign_flow.Prelude.{◌≡◌, refl, true, false, [], ◌∷◌, none, some}
use sovereign_flow.Result.{ok}
use sovereign_flow.Text.Strip.{strip, required}
use sovereign_flow.Text.Words.{text_length}
use sovereign_flow.Text.Order.{set_insert, sorted_set}
use sovereign_flow.Text.Normal.{normalized_values, required_all}
use sovereign_flow.Domain.Security.{clearance_kind, required_option}
use sovereign_flow.Domain.Access.{
  CapabilityDescriptor, ResolvedAccessPolicy, PipelineAccessDecision, new_access_decision,
}
use sovereign_flow.Domain.Chunk.{new_authorization_context}
use sovereign_flow.Domain.Profile.{new_query_command, SearchMode}
use sovereign_flow.Services.Authorization.{
  AccessPolicies, authorize, access_event, access_decision, access_allowed, refusal_reason,
  pipeline_name_of,
}
use sovereign_flow.Services.Authorization.Granted.{IsGranted, authorize-IsGranted}
use sovereign_flow.Services.Query.{
  QueryService, query, prepare, run_prepared, admit, effective_authorization, initial_model,
  new_context, unchecked_requirement,
}
use sovereign_flow.Services.Query.Admitted.{IsAdmitted, admit-IsAdmitted}
use sovereign_flow.Services.Query.Served.{IsServed, query-IsServed}
use sovereign_flow.Pipeline.Context.{Action}
use sovereign_flow.Pipeline.Definition.{PipelineDefinition, find_step, step_found, pipeline_step}
use sovereign_flow.Pipeline.Registry.{get_action, find_action, action_found}
use sovereign_flow.Pipeline.Transition.{next_step, chosen, followed}
use sovereign_flow.Pipeline.Run.{new_run, new_step_audit, QueryResult}
use sovereign_flow.Pipeline.Diagnostics.{
  with_origin, without_origin, chunk_origins, retrieval_diagnostics, diagnostics,
}
use sovereign_flow.Pipeline.Engine.{take_step, run_from, conclude, attempted, execute}
use sovereign_flow.Tests.Data.{caller, domain, context, library, servers}
use sovereign_flow.Tests.Pipelines.{registry, pipeline, pipeline_valid}
use sovereign_flow.Tests.Engine.{audit}

abbrev capability : CapabilityDescriptor
capability = record {
  capability_id = "answers";
  display_name = "Answers";
  description = "Answers on leave";
  domain = "hr";
  pipeline_name = "answer";
  diagnostics_available = false;
  external_model = false;
  policy_version = 3;
}

abbrev policy : ResolvedAccessPolicy
policy = record {
  subject = "ann";
  tenant_id = "acme";
  policy_version = 3;
  group_ids = "staff" ∷ [];
  capability_ids = "answers" ∷ [];
  pipeline_names = "answer" ∷ [];
}

abbrev policies : AccessPolicies (Unit {0})
policies = record {
  resolve = λ authorization w. (ok policy, w);
  capabilities = λ policy w. (ok (capability ∷ []), w);
  capability = λ id policy w. (ok (some capability), w);
}

abbrev granted : PipelineAccessDecision
granted = record {
  allowed = true;
  reason_code = "pipeline_access_allowed";
  capability = some capability;
  policy = policy;
}

authorized :
    authorize policies (λ event w. (ok tt, w)) "r1" "answers" caller false tt ≡ (ok granted, tt)
unfolding authorize access_event access_decision access_allowed refusal_reason pipeline_name_of
    new_access_decision required strip
authorized = refl

authorize-IsGranted_example :
    IsGranted policies (λ event w. (ok tt, w)) "r1" "answers" caller false granted tt tt
authorize-IsGranted_example =
    authorize-IsGranted policies (λ event w. (ok tt, w)) "r1" "answers" caller false granted tt tt
      authorized

abbrev service : QueryService (Unit {0})
service = record {
  domain = domain;
  retrieval = context.retrieval;
  graph = context.graph;
  model_servers = servers;
  prompts = context.prompts;
  pipeline = pipeline;
  conversation_history = none;
}

abbrev answered : QueryResult
answered = record {
  request_id = "r1";
  answer = "";
  domain = "hr";
  session_id = "s1";
  citations = [];
  pipeline_trace = "search" ∷ "finish" ∷ [];
  diagnostics = record {
    contract_version = "1.0";
    subject_hash = "ann";
    tenant_id = "acme";
    allowed_acl_labels = [];
    security_model_kind = clearance_kind;
    search_mode = SearchMode.bm25;
    retrieval = [];
    omitted_chunk_ids = [];
    context_chunk_ids = [];
    context_characters = 0;
    provider = "open";
    model = "model";
    prompt_key = "";
    model_transmission = record {
      checked = false;
      allowed = false;
      reason_code = "not_checked";
      selected_model_server_id = none;
      final_model_server_id = none;
      rerouted = false;
      trust_boundary = none;
      external_transmission = none;
      context_security_requirement = unchecked_requirement;
      checked_chunk_ids = [];
      blocked_chunk_ids = [];
    };
    system_prompt_hash = "";
    prompt_tokens = 0;
    completion_tokens = 0;
    model_duration_ms = 0;
    pipeline_trace = "search" ∷ "finish" ∷ [];
  };
  conversation_id = none;
  turn_id = none;
}

abbrev engine : PipelineDefinition → Action (Unit {0}) QueryResult
engine p = execute library audit (λ w. (ok 0, w)) registry p (λ w. (ok "run", w))

admitted : admit domain context.command ≡ ok caller
unfolding admit effective_authorization new_authorization_context required strip normalized_values
    required_all sorted_set set_insert
admitted = refl

admit-IsAdmitted_example : IsAdmitted domain context.command caller
admit-IsAdmitted_example = admit-IsAdmitted domain context.command caller (tt, tt) admitted

queried : query engine service context.command tt ≡ (ok answered, tt)
unfolding query prepare run_prepared admit effective_authorization new_authorization_context
    initial_model new_query_command required_option new_context sorted_set set_insert
    normalized_values required_all execute attempted run_from take_step conclude diagnostics
    chunk_origins with_origin without_origin retrieval_diagnostics new_run new_step_audit required
    strip pipeline_step step_found find_step get_action find_action action_found next_step chosen
    followed text_length
queried = refl

query-IsServed_example :
    IsServed library audit
      (λ w. (ok 0, w))
      registry
      (λ w. (ok "run", w))
      service
      context.command
      answered
      tt
      tt
query-IsServed_example =
    query-IsServed library audit (λ w. (ok 0, w)) registry (λ w. (ok "run", w)) service
      context.command answered tt tt (tt, tt) pipeline_valid queried
