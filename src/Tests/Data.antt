-- ===== src/Tests/Data.antt =====
-- A domain with two clearance levels, a server for each, a caller, and the hits of a search.
use sovereign_flow.Prelude.{String, false, List, [], ◌∷◌, Option, none, some}
use sovereign_flow.Prelude.Int.{pos}
use sovereign_flow.Result.{ok, err, bad_execution}
use sovereign_flow.Value.{Float}
use sovereign_flow.Library.{Library}
use sovereign_flow.Domain.Security.{
  clearance_kind, none_kind, ClearanceLevelModel, SecurityModel, DocumentSecurity, SubjectSecurity,
}
use sovereign_flow.Domain.Chunk.{DocumentChunk, SearchHit, AuthorizationContext}
use sovereign_flow.Domain.Profile.{SearchMode, DomainProfile}
use sovereign_flow.Domain.Server.{internal, ModelServerDefinition, ContextSecurityRequirement}
use sovereign_flow.Pipeline.Context.{PipelineContext, ActionState, ModelGateway, ModelServerRuntime}

abbrev pub clearance : ClearanceLevelModel
clearance = record { levels = ("public", 0) ∷ ("secret", 5) ∷ [] }

abbrev pub security : SecurityModel
security = record {
  kind = clearance_kind;
  clearance_level = some clearance;
  classification_labels = none;
}

abbrev pub labelled : String → DocumentSecurity
labelled label = record { clearance_label = some label; classification_labels = [] }

abbrev pub cleared : String → SubjectSecurity
cleared label = record { clearance_label = some label; classification_labels = [] }

abbrev pub chunk : String → String → DocumentChunk
chunk chunk_id label = record {
  chunk_id = chunk_id;
  domain = "hr";
  tenant_id = "acme";
  source_id = "handbook";
  text = "Leave is thirty days.";
  source_uri = none;
  metadata = [];
  acl_labels = [];
  security = labelled label;
}

abbrev pub hit : String → String → SearchHit
hit chunk_id label = record {
  chunk = chunk chunk_id label;
  score = Float.finite (pos 1) 1;
  score_type = "bm25";
}

abbrev pub hits : List SearchHit
hits = hit "c1" "public" ∷ hit "c2" "secret" ∷ []

abbrev pub caller : AuthorizationContext
caller = record {
  subject = "ann";
  tenant_id = "acme";
  roles = [];
  groups = [];
  acl_labels = [];
  security = cleared "secret";
  allow_external_model = false;
  diagnostic_access = false;
}

abbrev pub domain : DomainProfile
domain = record {
  name = "hr";
  description = "Human resources";
  collection = "Chunks";
  tenant_id = "acme";
  prompt_name = "hr";
  allow_external_model = false;
  retrieval = record {
    mode = SearchMode.bm25;
    top_k = 5;
    max_context_characters = 1000;
    filters = [];
    allowed_filter_fields = [];
  };
  pipeline_name = "answer";
  allowed_pipeline_names = "answer" ∷ [];
  disclaimer = "";
  allowed_acl_labels = [];
  security_model = security;
  require_travel_permission = false;
}

abbrev pub server : String → String → Option String → ModelServerDefinition
server server_id label reroute = record {
  server_id = server_id;
  trust_boundary = internal;
  security_profile = record {
    security_model_kind = clearance_kind;
    clearance_label = some label;
    classification_labels = [];
  };
  security_reroute_server_id = reroute;
}

abbrev pub gateway : String → ModelGateway (Unit {0})
gateway name = record {
  name = name;
  model_id = "model";
  generate = λ system_prompt user_prompt parameters w. (err (bad_execution "no model"), w);
}

abbrev pub runtime : String → String → Option String → ModelServerRuntime (Unit {0})
runtime server_id label reroute = record {
  definition = server server_id label reroute;
  gateway = gateway server_id;
}

-- The open server sends what it may not see to the closed one.
abbrev pub servers : List (String × ModelServerRuntime (Unit {0}))
servers =
    ("open", runtime "open" "public" (some "closed"))
    ∷ ("closed", runtime "closed" "secret" none)
    ∷ []

abbrev pub no_requirement : ContextSecurityRequirement
no_requirement = record {
  security_model_kind = none_kind;
  clearance_label = none;
  classification_labels = [];
}

abbrev pub context : PipelineContext (Unit {0})
context = record {
  command = record {
    request_id = "r1";
    query = "How much leave is there?";
    domain = "hr";
    session_id = "s1";
    authorization = caller;
    filters = [];
    diagnostics_requested = false;
    conversation_id = none;
  };
  domain = domain;
  retrieval = λ request w. (ok hits, w);
  graph = λ request w. (ok [], w);
  model = gateway "default";
  prompts = λ name w. (ok "Answer from the evidence.", w);
  conversation_history = none;
  model_servers = servers;
  conversation_id = none;
  conversation_turn_id = none;
  conversation_turn_finalized = false;
  conversation_history_text = "";
  conversation_history_turns = [];
  normalized_query = "";
  hits = hits;
  seed_hits = [];
  graph_hits = [];
  omitted_chunk_ids = [];
  context_chunk_ids = [];
  evidence = "";
  citations = [];
  answer = "";
  last_model_response = "";
  last_route = "";
  last_prefix = "";
  variables = [];
  loop_counters = [];
  retrieval_queries_asked_norm = [];
  prompt_tokens = 0;
  completion_tokens = 0;
  estimated_cost = Float.finite (pos 0) 0;
  model_duration_ms = 0;
  prompt_key = "";
  system_prompt_hash = "";
  model_transmission_checked = false;
  model_transmission_allowed = false;
  model_transmission_reason_code = "";
  model_transmission_selected_server_id = none;
  model_transmission_final_server_id = none;
  model_transmission_rerouted = false;
  model_transmission_trust_boundary = none;
  model_transmission_external_policy = none;
  model_transmission_context_requirement = no_requirement;
  model_transmission_checked_chunk_ids = [];
  model_transmission_blocked_chunk_ids = [];
  trace = [];
}

abbrev pub state : ActionState (Unit {0})
state = record { context = context; world = tt }

-- The third-party functions, where any answer serves.
abbrev pub library : Library
library = record {
  lower = λ s. s;
  sha256 = λ s. s;
  json_loads = λ s. none;
  json_dumps = λ v. "";
  json_canonical = λ v. some "{}";
  format_score = λ x. "0.500000";
  format_number = λ n. "1";
  format_template = λ template value. ok template;
  divide = λ x n. x;
  to_int = λ v. ok v;
  to_tuple = λ v. ok [];
}
