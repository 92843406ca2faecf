-- ===== src/Services/Query.antt =====
-- sovereignflow/application/query_service.py: a command is checked and narrowed to the domain, and
-- the engine runs the domain's pipeline on a fresh context.
pub mod Admitted
pub mod Served
use sovereign_flow.Prelude.{
  ℕ, String, Bool, not, ◌&&◌, List, [], ◌∷◌, Option, none, some, ◌==◌, keys, subset, intersection,
  is_empty, difference,
}
use sovereign_flow.Prelude.Int.{pos}
use sovereign_flow.Result.{Result, ok, err, foreign, policy_violated, guard, ◌>>=◌, ◌>>◌}
use sovereign_flow.Text.Order.{sorted_set}
use sovereign_flow.Value.{Float}
use sovereign_flow.Domain.Security.{none_kind}
use sovereign_flow.Domain.Chunk.{SearchHit, AuthorizationContext, new_authorization_context}
use sovereign_flow.Domain.Server.{ContextSecurityRequirement}
use sovereign_flow.Domain.Profile.{
  DomainProfile, SearchRequest, GraphTraversalRequest, QueryCommand, new_query_command,
}
use sovereign_flow.Effect.{Effect}
use sovereign_flow.Pipeline.Definition.{PipelineDefinition}
use sovereign_flow.Pipeline.Run.{QueryResult}
use sovereign_flow.Pipeline.Context.{
  PipelineContext, ModelGateway, ModelServerRuntime, HistoryService, Action,
}

-- The fields of `RagQueryService`; the engine is an argument of its method.
pub record QueryService (W : Type 0) : Type 0 where
  pub domain : DomainProfile
  pub retrieval : SearchRequest → Effect W (List SearchHit)
  pub graph : GraphTraversalRequest → Effect W (List SearchHit)
  pub model_servers : List (String × ModelServerRuntime W)
  pub prompts : String → Effect W String
  pub pipeline : PipelineDefinition
  pub conversation_history : Option (HistoryService W)

-- `_effective_authorization`; `replace` runs the constructor of the context again.
unfoldable pub effective_authorization :
    DomainProfile → AuthorizationContext → Result AuthorizationContext
effective_authorization domain a = do
  guard (a.tenant_id == domain.tenant_id)
      (policy_violated "The authenticated tenant cannot access this domain")
  new_authorization_context (record a {
    acl_labels = sorted_set (intersection a.acl_labels domain.allowed_acl_labels);
    allow_external_model = a.allow_external_model && domain.allow_external_model;
  })

-- The checks of `execute`, up to the authorization that the pipeline runs under.
unfoldable pub admit : DomainProfile → QueryCommand → Result AuthorizationContext
unfolding effective_authorization
admit domain command = do
  guard (command.domain == domain.name)
      (policy_violated "Query domain does not match service domain")
  authorization ← effective_authorization domain command.authorization
  guard (is_empty (difference (keys command.filters) domain.retrieval.allowed_filter_fields))
      (policy_violated "Query contains filters that are not allowed by the domain profile")
  guard (not (command.diagnostics_requested && not authorization.diagnostic_access))
      (policy_violated "The authenticated user cannot access query diagnostics")
  ok authorization

-- The requirement of a context that was not checked.
abbrev pub unchecked_requirement : ContextSecurityRequirement
unchecked_requirement = record {
  security_model_kind = none_kind;
  clearance_label = none;
  classification_labels = [];
}

module _ {W : Type 0} where
  unfoldable pub new_query_service : QueryService W → Result (QueryService W)
  new_query_service s = do
    guard (not (is_empty s.model_servers))
        (policy_violated "At least one model server must be configured")
    ok s

  -- `next(iter(model_servers.values())).gateway`; the constructor has refused an empty dictionary.
  unfoldable pub initial_model : List (String × ModelServerRuntime W) → Result (ModelGateway W)
  initial_model [] = err (foreign "StopIteration")
  initial_model ((server_id, runtime) ∷ rest) = ok runtime.gateway

  -- `PipelineContext(...)` with its defaults.
  unfoldable pub new_context : QueryService W → QueryCommand → ModelGateway W → PipelineContext W
  new_context service command model = record {
    command = command;
    domain = service.domain;
    retrieval = service.retrieval;
    graph = service.graph;
    model = model;
    prompts = service.prompts;
    conversation_history = service.conversation_history;
    model_servers = service.model_servers;
    conversation_id = none;
    conversation_turn_id = none;
    conversation_turn_finalized = Bool.false;
    conversation_history_text = "";
    conversation_history_turns = [];
    normalized_query = "";
    hits = [];
    seed_hits = [];
    graph_hits = [];
    omitted_chunk_ids = [];
    context_chunk_ids = [];
    evidence = "";
    citations = [];
    answer = "";
    last_model_response = "";
    last_route = "";
    last_prefix = "";
    variables = [];
    loop_counters = [];
    retrieval_queries_asked_norm = [];
    prompt_tokens = 0;
    completion_tokens = 0;
    estimated_cost = Float.finite (pos 0) 0;
    model_duration_ms = 0;
    prompt_key = "";
    system_prompt_hash = "";
    model_transmission_checked = Bool.false;
    model_transmission_allowed = Bool.false;
    model_transmission_reason_code = "not_checked";
    model_transmission_selected_server_id = none;
    model_transmission_final_server_id = none;
    model_transmission_rerouted = Bool.false;
    model_transmission_trust_boundary = none;
    model_transmission_external_policy = none;
    model_transmission_context_requirement = unchecked_requirement;
    model_transmission_checked_chunk_ids = [];
    model_transmission_blocked_chunk_ids = [];
    trace = [];
  }

  -- The context that a command is run on; `replace` runs the constructor of the command again.
  unfoldable pub prepare : QueryService W → QueryCommand → Result (PipelineContext W)
  unfolding admit initial_model new_context
  prepare service command = do
    authorization ← admit service.domain command
    model ← initial_model service.model_servers
    narrowed ← new_query_command (record command { authorization = authorization })
    ok (new_context service narrowed model)

  -- A prepared context is run, and only its result and the world stay.
  unfoldable pub run_prepared :
      (PipelineDefinition → Action W QueryResult)
      → QueryService W
      → Result (PipelineContext W)
      → Effect W QueryResult
  run_prepared engine service (err e) w = (err e, w)
  run_prepared engine service (ok context) w =
      let (result, s) = engine service.pipeline (record { context = context; world = w }) in
      (result, s.world)

  -- `RagQueryService.execute`
  unfoldable pub query :
      (engine : PipelineDefinition → Action W QueryResult)
      → QueryService W
      → QueryCommand
      → Effect W QueryResult
  unfolding prepare run_prepared
  query engine service command = run_prepared engine service (prepare service command)
