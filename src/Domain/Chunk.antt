-- ===== src/Domain/Chunk.antt =====
-- The documents, search hits and graph nodes of sovereignflow/domain/models.py, and the
-- authorization of a caller.
use sovereign_flow.Prelude.{String, Bool, List, [], ◌∷◌, Option}
use sovereign_flow.Result.{Result, ok, ◌>>=◌}
use sovereign_flow.Text.Strip.{required}
use sovereign_flow.Text.Normal.{normalized_values}
use sovereign_flow.Value.{Value, Float}
use sovereign_flow.Domain.Security.{DocumentSecurity, SubjectSecurity}

pub record DocumentChunk : Type 0 where
  pub chunk_id : String
  pub domain : String
  pub tenant_id : String
  pub source_id : String
  pub text : String
  pub source_uri : Option String
  pub metadata : List (String × Value)
  pub acl_labels : List String
  pub security : DocumentSecurity

-- `DocumentChunk.__post_init__`, from the fields as they are given.
unfoldable pub new_document_chunk : DocumentChunk → Result DocumentChunk
new_document_chunk c = do
  chunk_id ← required c.chunk_id "DocumentChunk.chunk_id"
  domain ← required c.domain "DocumentChunk.domain"
  tenant_id ← required c.tenant_id "DocumentChunk.tenant_id"
  source_id ← required c.source_id "DocumentChunk.source_id"
  text ← required c.text "DocumentChunk.text"
  acl_labels ← normalized_values c.acl_labels "DocumentChunk.acl_labels"
  ok (record c {
    chunk_id = chunk_id;
    domain = domain;
    tenant_id = tenant_id;
    source_id = source_id;
    text = text;
    acl_labels = acl_labels;
  })

pub record SearchHit : Type 0 where
  pub chunk : DocumentChunk
  pub score : Float
  pub score_type : String

-- `tuple(hit.chunk.chunk_id for hit in hits)`
abbrev pub chunk_ids : List SearchHit → List String
chunk_ids [] = []
chunk_ids (hit ∷ hits) = hit.chunk.chunk_id ∷ chunk_ids hits

pub record Citation : Type 0 where
  pub source_id : String
  pub chunk_id : String
  pub source_uri : Option String
  pub score : Float
  pub score_type : String
  pub metadata : List (String × Value)

-- `Citation.__post_init__`, from the fields as they are given.
unfoldable pub new_citation : Citation → Result Citation
new_citation c = do
  source_id ← required c.source_id "Citation.source_id"
  chunk_id ← required c.chunk_id "Citation.chunk_id"
  score_type ← required c.score_type "Citation.score_type"
  ok (record c { source_id = source_id; chunk_id = chunk_id; score_type = score_type })

pub record AuthorizationContext : Type 0 where
  pub subject : String
  pub tenant_id : String
  pub roles : List String
  pub groups : List String
  pub acl_labels : List String
  pub security : SubjectSecurity
  pub allow_external_model : Bool
  pub diagnostic_access : Bool

-- `AuthorizationContext.__post_init__`, from the fields as they are given.
unfoldable pub new_authorization_context : AuthorizationContext → Result AuthorizationContext
new_authorization_context a = do
  subject ← required a.subject "AuthorizationContext.subject"
  tenant_id ← required a.tenant_id "AuthorizationContext.tenant_id"
  roles ← normalized_values a.roles "AuthorizationContext.roles"
  groups ← normalized_values a.groups "AuthorizationContext.groups"
  acl_labels ← normalized_values a.acl_labels "AuthorizationContext.acl_labels"
  ok (record a {
    subject = subject;
    tenant_id = tenant_id;
    roles = roles;
    groups = groups;
    acl_labels = acl_labels;
  })
