-- ===== src/Domain/Profile.antt =====
-- The domain profile, the requests to the retrieval providers and the query command of
-- sovereignflow/domain/models.py.
use sovereign_flow.Prelude.{ℕ, String, Bool, not, List, ◌∷◌, Option, leb, is_empty}
use sovereign_flow.Result.{Result, ok, validation, guard, ◌>>=◌, ◌>>◌}
use sovereign_flow.Text.Strip.{required}
use sovereign_flow.Text.Normal.{normalized_values}
use sovereign_flow.Value.{Value, Float}
use sovereign_flow.Domain.Security.{SecurityModel, SubjectSecurity, required_option}
use sovereign_flow.Domain.Chunk.{SearchHit, AuthorizationContext}

pub data SearchMode : Type 0 where
  semantic bm25 hybrid : SearchMode

pub data GraphDirection : Type 0 where
  outgoing incoming both : GraphDirection

pub record RetrievalProfile : Type 0 where
  pub mode : SearchMode
  pub top_k : ℕ
  pub max_context_characters : ℕ
  pub filters : List (String × Value)
  pub allowed_filter_fields : List String

unfoldable pub new_retrieval_profile : RetrievalProfile → Result RetrievalProfile
new_retrieval_profile r = do
  guard (leb 1 r.top_k) (validation "RetrievalProfile.top_k must be greater than zero")
  guard (leb 1 r.max_context_characters)
      (validation "RetrievalProfile.max_context_characters must be greater than zero")
  fields ← normalized_values r.allowed_filter_fields "RetrievalProfile.allowed_filter_fields"
  ok (record r { allowed_filter_fields = fields })

pub record DomainProfile : Type 0 where
  pub name : String
  pub description : String
  pub collection : String
  pub tenant_id : String
  pub prompt_name : String
  pub allow_external_model : Bool
  pub retrieval : RetrievalProfile
  pub pipeline_name : String
  pub allowed_pipeline_names : List String
  pub disclaimer : String
  pub allowed_acl_labels : List String
  pub security_model : SecurityModel
  pub require_travel_permission : Bool

-- `DomainProfile.__post_init__`, from the fields as they are given.
unfoldable pub new_domain_profile : DomainProfile → Result DomainProfile
new_domain_profile d = do
  name ← required d.name "DomainProfile.name"
  collection ← required d.collection "DomainProfile.collection"
  tenant_id ← required d.tenant_id "DomainProfile.tenant_id"
  prompt_name ← required d.prompt_name "DomainProfile.prompt_name"
  pipeline_name ← required d.pipeline_name "DomainProfile.pipeline_name"
  names ←
      normalized_values (pipeline_name ∷ d.allowed_pipeline_names)
        "DomainProfile.allowed_pipeline_names"
  labels ← normalized_values d.allowed_acl_labels "DomainProfile.allowed_acl_labels"
  ok (record d {
    name = name;
    collection = collection;
    tenant_id = tenant_id;
    prompt_name = prompt_name;
    pipeline_name = pipeline_name;
    allowed_pipeline_names = names;
    allowed_acl_labels = labels;
  })

pub record SearchRequest : Type 0 where
  pub query : String
  pub domain : String
  pub tenant_id : String
  pub top_k : ℕ
  pub mode : SearchMode
  pub filters : List (String × Value)
  pub allowed_acl_labels : List String
  pub security_model : SecurityModel
  pub subject_security : SubjectSecurity

unfoldable pub new_search_request : SearchRequest → Result SearchRequest
new_search_request r = do
  query ← required r.query "SearchRequest.query"
  domain ← required r.domain "SearchRequest.domain"
  tenant_id ← required r.tenant_id "SearchRequest.tenant_id"
  guard (leb 1 r.top_k) (validation "SearchRequest.top_k must be greater than zero")
  labels ← normalized_values r.allowed_acl_labels "SearchRequest.allowed_acl_labels"
  ok (record r {
    query = query;
    domain = domain;
    tenant_id = tenant_id;
    allowed_acl_labels = labels;
  })

pub record GraphTraversalRequest : Type 0 where
  pub seeds : List SearchHit
  pub domain : String
  pub tenant_id : String
  pub max_depth : ℕ
  pub max_nodes : ℕ
  pub direction : GraphDirection
  pub relationship_types : List String
  pub allowed_acl_labels : List String
  pub security_model : SecurityModel
  pub subject_security : SubjectSecurity

unfoldable pub new_graph_request : GraphTraversalRequest → Result GraphTraversalRequest
new_graph_request r = do
  domain ← required r.domain "GraphTraversalRequest.domain"
  tenant_id ← required r.tenant_id "GraphTraversalRequest.tenant_id"
  guard (not (is_empty r.seeds)) (validation "GraphTraversalRequest.seeds cannot be empty")
  guard (leb 1 r.max_depth) (validation "GraphTraversalRequest.max_depth must be greater than zero")
  guard (leb 1 r.max_nodes) (validation "GraphTraversalRequest.max_nodes must be greater than zero")
  types ← normalized_values r.relationship_types "GraphTraversalRequest.relationship_types"
  labels ← normalized_values r.allowed_acl_labels "GraphTraversalRequest.allowed_acl_labels"
  ok (record r {
    domain = domain;
    tenant_id = tenant_id;
    relationship_types = types;
    allowed_acl_labels = labels;
  })

pub record QueryCommand : Type 0 where
  pub request_id : String
  pub query : String
  pub domain : String
  pub session_id : String
  pub authorization : AuthorizationContext
  pub filters : List (String × Value)
  pub diagnostics_requested : Bool
  pub conversation_id : Option String

unfoldable pub new_query_command : QueryCommand → Result QueryCommand
new_query_command c = do
  request_id ← required c.request_id "QueryCommand.request_id"
  query ← required c.query "QueryCommand.query"
  domain ← required c.domain "QueryCommand.domain"
  session_id ← required c.session_id "QueryCommand.session_id"
  conversation_id ← required_option c.conversation_id "QueryCommand.conversation_id"
  ok (record c {
    request_id = request_id;
    query = query;
    domain = domain;
    session_id = session_id;
    conversation_id = conversation_id;
  })

pub record ModelGeneration : Type 0 where
  pub text : String
  pub prompt_tokens : ℕ
  pub completion_tokens : ℕ
  pub estimated_cost : Float
