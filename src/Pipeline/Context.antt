-- ===== src/Pipeline/Context.antt =====
-- `PipelineContext` of sovereignflow/application/pipeline.py, and the ports that it holds
-- (sovereignflow/application/ports.py). `W` is the outside world that a port reads and changes;
-- the context is changed in place, so it is a state beside the world and the audit calls made.
use sovereign_flow.Prelude.{ℕ, String, Bool, List, Option}
use sovereign_flow.Result.{ok}
use sovereign_flow.Value.{Value, Float}
use sovereign_flow.Effect.{Effect}
use sovereign_flow.Domain.Chunk.{SearchHit, Citation, AuthorizationContext}
use sovereign_flow.Domain.Server.{
  ModelServerDefinition, TrustBoundary, ExternalTransmissionPolicy, ContextSecurityRequirement,
}
use sovereign_flow.Domain.Profile.{
  DomainProfile, SearchRequest, GraphTraversalRequest, QueryCommand, ModelGeneration,
}
use sovereign_flow.Domain.Conversation.{Conversation, ConversationTurn, ConversationHistory}

-- `ModelGatewayPort`
pub record ModelGateway (W : Type 0) : Type 0 where
  pub name : String
  pub model_id : String
  pub generate :
      (system_prompt user_prompt : String) → List (String × Value) → Effect W ModelGeneration

pub record ModelServerRuntime (W : Type 0) : Type 0 where
  pub definition : ModelServerDefinition
  pub gateway : ModelGateway W

-- The methods of the conversation history service that the actions call.
pub record HistoryService (W : Type 0) : Type 0 where
  pub get : AuthorizationContext → (conversation_id : String) → ℕ → Effect W ConversationHistory
  pub create : AuthorizationContext → (session_id domain title : String) → Effect W Conversation
  pub start_turn :
      AuthorizationContext
      → (conversation_id request_id question : String) → Effect W ConversationTurn
  pub finalize_turn :
      AuthorizationContext
      → (conversation_id turn_id answer : String) → List (String × Value)
      → Effect W ConversationTurn
  pub fail_turn :
      AuthorizationContext
      → (conversation_id turn_id error_code : String) → List (String × Value)
      → Effect W ConversationTurn
  pub recent_finalized_turns :
      AuthorizationContext → (conversation_id : String) → ℕ → Effect W (List ConversationTurn)

pub record PipelineContext (W : Type 0) : Type 0 where
  pub command : QueryCommand
  pub domain : DomainProfile
  pub retrieval : SearchRequest → Effect W (List SearchHit)
  pub graph : GraphTraversalRequest → Effect W (List SearchHit)
  pub model : ModelGateway W
  pub prompts : String → Effect W String
  pub conversation_history : Option (HistoryService W)
  pub model_servers : List (String × ModelServerRuntime W)
  pub conversation_id : Option String
  pub conversation_turn_id : Option String
  pub conversation_turn_finalized : Bool
  pub conversation_history_text : String
  pub conversation_history_turns : List ConversationTurn
  pub normalized_query : String
  pub hits : List SearchHit
  pub seed_hits : List SearchHit
  pub graph_hits : List SearchHit
  pub omitted_chunk_ids : List String
  pub context_chunk_ids : List String
  pub evidence : String
  pub citations : List Citation
  pub answer : String
  pub last_model_response : String
  pub last_route : String
  pub last_prefix : String
  pub variables : List (String × Value)
  pub loop_counters : List (String × ℕ)
  pub retrieval_queries_asked_norm : List String
  pub prompt_tokens : ℕ
  pub completion_tokens : ℕ
  pub estimated_cost : Float
  pub model_duration_ms : ℕ
  pub prompt_key : String
  pub system_prompt_hash : String
  pub model_transmission_checked : Bool
  pub model_transmission_allowed : Bool
  pub model_transmission_reason_code : String
  pub model_transmission_selected_server_id : Option String
  pub model_transmission_final_server_id : Option String
  pub model_transmission_rerouted : Bool
  pub model_transmission_trust_boundary : Option TrustBoundary
  pub model_transmission_external_policy : Option ExternalTransmissionPolicy
  pub model_transmission_context_requirement : ContextSecurityRequirement
  pub model_transmission_checked_chunk_ids : List String
  pub model_transmission_blocked_chunk_ids : List String
  pub trace : List String

-- An action runs over the context and the world.
pub record ActionState (W : Type 0) : Type 0 where
  pub context : PipelineContext W
  pub world : W

abbrev pub Action : Type 0 → Type 0 → Type 0
Action W A = Effect (ActionState W) A

module _ {W A : Type 0} where
  -- A call of a port.
  abbrev pub call : Effect W A → Action W A
  call m s = let (r, w) = m s.world in (r, record s { world = w })

  -- What the context says.
  abbrev pub ask : (PipelineContext W → A) → Action W A
  ask f s = (ok (f s.context), s)

-- Assignments to fields of the context.
abbrev pub assign : {W : Type 0} → (PipelineContext W → PipelineContext W) → Action W (Unit {0})
assign f s = (ok tt, record s { context = f s.context })
