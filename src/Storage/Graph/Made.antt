-- ===== src/Storage/Graph/Made.antt =====
-- What the chunks of a graph traversal have of the rows that they are made from.
use sovereign_flow.Prelude.{ℕ, String, ◌≡◌, refl, sym, ap, ◌∙◌, List}
use sovereign_flow.Result.{ok, ok_injective, >>=-eq-ok}
use sovereign_flow.Text.Strip.{strip, strip-strip, required, required-eq-ok}
use sovereign_flow.Text.Normal.{normalized_values}
use sovereign_flow.Domain.Security.{new_document_security}
use mathlib.Core.Path.{subst}
use sovereign_flow.Domain.Chunk.{DocumentChunk, new_document_chunk}
use sovereign_flow.Domain.Profile.{GraphTraversalRequest}
use sovereign_flow.Domain.Ingestion.{GraphNodeRef, new_node}
use sovereign_flow.Storage.Tables.{ChunkRow}
use sovereign_flow.Storage.GraphRows.{row_node, graph_chunk}
use sovereign_flow.Storage.Graph.{deeper}

-- What the constructor of a chunk makes of its fields.
pub record IsMadeOf (c d : DocumentChunk) : Type 0 where
  pub chunk_id : d.chunk_id ≡ strip c.chunk_id
  pub domain : d.domain ≡ strip c.domain
  pub tenant_id : d.tenant_id ≡ strip c.tenant_id
  pub source_id : d.source_id ≡ strip c.source_id
  pub text : d.text ≡ strip c.text
  pub source_uri : d.source_uri ≡ c.source_uri
  pub security : d.security ≡ c.security

pub new_document_chunk-IsMadeOf : (c d : DocumentChunk) → new_document_chunk c ≡ ok d → IsMadeOf c d
unfolding new_document_chunk
new_document_chunk-IsMadeOf c d h =
    let (x₀, e₀, h₀) = >>=-eq-ok (required c.chunk_id _) _ h in
    let (x₁, e₁, h₁) = >>=-eq-ok (required c.domain _) _ h₀ in
    let (x₂, e₂, h₂) = >>=-eq-ok (required c.tenant_id _) _ h₁ in
    let (x₃, e₃, h₃) = >>=-eq-ok (required c.source_id _) _ h₂ in
    let (x₄, e₄, h₄) = >>=-eq-ok (required c.text _) _ h₃ in
    let (x₅, e₅, h₅) = >>=-eq-ok (normalized_values c.acl_labels _) _ h₄ in
    subst (IsMadeOf c) (ok_injective h₅) (record {
      chunk_id = (required-eq-ok c.chunk_id _ x₀ e₀).0;
      domain = (required-eq-ok c.domain _ x₁ e₁).0;
      tenant_id = (required-eq-ok c.tenant_id _ x₂ e₂).0;
      source_id = (required-eq-ok c.source_id _ x₃ e₃).0;
      text = (required-eq-ok c.text _ x₄ e₄).0;
      source_uri = refl;
      security = refl;
    })

-- The chunk is that of the row, in the domain and the tenant of the request.
pub record IsOfRow (request : GraphTraversalRequest) (row : ChunkRow) (chunk : DocumentChunk)
    : Type 0 where
  pub chunk_id : chunk.chunk_id ≡ strip row.chunk_id
  pub source_id : chunk.source_id ≡ strip row.key.source_id
  pub domain : chunk.domain ≡ strip request.domain
  pub tenant_id : chunk.tenant_id ≡ strip request.tenant_id
  pub text : chunk.text ≡ strip row.text_content
  pub source_uri : chunk.source_uri ≡ row.source_uri

stripped_again : (s : String) {t u : String} → u ≡ strip t → t ≡ strip s → u ≡ strip s
stripped_again s {t} {u} h k = h ∙ ap strip k ∙ strip-strip s

pub graph_chunk-IsOfRow :
    (request : GraphTraversalRequest) (row : ChunkRow) (node : GraphNodeRef) (chunk : DocumentChunk)
    → new_node (row_node row) ≡ ok node
    → graph_chunk request node row ≡ ok chunk
    → IsOfRow request row chunk
unfolding new_node graph_chunk
graph_chunk-IsOfRow request row node chunk n h =
    let (source, es, n₁) = >>=-eq-ok (required row.key.source_id _) _ n in
    let (id, ei, n₂) = >>=-eq-ok (required row.chunk_id _) _ n₁ in
    let same = ok_injective n₂ in
    let (s, e, made) =
      >>=-eq-ok (new_document_security row.clearance_label row.classification_labels) _ h in
    let k = new_document_chunk-IsMadeOf _ chunk made in
    record {
      chunk_id = stripped_again _ k.chunk_id (
          sym (ap (λ (x : GraphNodeRef). x.chunk_id) same)
          ∙ (required-eq-ok row.chunk_id _ id ei).0);
      source_id = stripped_again _ k.source_id (
          sym (ap (λ (x : GraphNodeRef). x.source_id) same)
          ∙ (required-eq-ok row.key.source_id _ source es).0);
      domain = k.domain;
      tenant_id = k.tenant_id;
      text = k.text;
      source_uri = k.source_uri;
    }

-- The chunk with another depth and path is still that of the row.
pub deeper-IsOfRow :
    (request : GraphTraversalRequest) (row : ChunkRow) (chunk new : DocumentChunk) (depth : ℕ)
    (path : List String)
    → IsOfRow request row chunk
    → new_document_chunk (deeper chunk depth path) ≡ ok new
    → IsOfRow request row new
deeper-IsOfRow request row chunk new depth path r h =
    let k = new_document_chunk-IsMadeOf (deeper chunk depth path) new h in
    record {
      chunk_id = stripped_again _ k.chunk_id r.chunk_id;
      source_id = stripped_again _ k.source_id r.source_id;
      domain = stripped_again _ k.domain r.domain;
      tenant_id = stripped_again _ k.tenant_id r.tenant_id;
      text = stripped_again _ k.text r.text;
      source_uri = k.source_uri ∙ r.source_uri;
    }
