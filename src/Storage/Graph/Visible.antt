-- ===== src/Storage/Graph/Visible.antt =====
-- The security filter of a graph traversal against the visibility of documents: what the query lets
-- through is what `document_visible_to_subject` allows.
use Prim.Native.Nat.{Ordering}
use mathlib.Core.Path.{subst}
use sovereign_flow.Prelude.{◌≤◌, String, ◌≡◌, sym, ap, ◌∙◌, Bool, true, List, Option, All, All-map}
use sovereign_flow.Result.{ok, ok_injective, >>=-eq-ok}
use sovereign_flow.Text.Normal.{normalized_values}
use sovereign_flow.Value.{Float}
use sovereign_flow.Library.{Library}
use sovereign_flow.Domain.Security.{
  SecurityModelKind, DocumentSecurity, new_document_security, required_option,
}
use sovereign_flow.Domain.Security.Visibility.{Visible, Permits, Visible-iff}
use sovereign_flow.Domain.Chunk.{DocumentChunk, SearchHit}
use sovereign_flow.Domain.Profile.{GraphTraversalRequest}
use sovereign_flow.Storage.Tables.{ChunkRow, Tables, Postgres}
use sovereign_flow.Storage.GraphRows.{security_filter, filter_by_kind, graph_chunk}
use sovereign_flow.Storage.Graph.{deeper, expand}
use sovereign_flow.Storage.Graph.Made.{new_document_chunk-IsMadeOf}
use sovereign_flow.Storage.Graph.Loaded.{FromRow}
use sovereign_flow.Storage.Graph.Served.{IsServedHit, expand-served}
use sovereign_flow.Storage.Graph.Filter.{IsModel, clearance_filter-Cleared, labels_filter-Labelled}

-- What a row's labels become in a chunk.
new_document_security-eq-ok :
    (label : Option String) (labels : List String) (s : DocumentSecurity)
    → new_document_security label labels ≡ ok s
    → (required_option label "DocumentSecurity.clearance_label" ≡ ok s.clearance_label)
      × (normalized_values labels "DocumentSecurity.classification_labels"
          ≡ ok s.classification_labels)
unfolding new_document_security
new_document_security-eq-ok label labels s h =
    let (x, e, h₁) = >>=-eq-ok (required_option label "DocumentSecurity.clearance_label") _ h in
    let (xs, es, h₂) =
      >>=-eq-ok (normalized_values labels "DocumentSecurity.classification_labels") _ h₁ in
    (
      e ∙ ap (λ (z : DocumentSecurity). ok z.clearance_label) (ok_injective h₂),
      es ∙ ap (λ (z : DocumentSecurity). ok z.classification_labels) (ok_injective h₂),
    )

module _ (t : Tables) (request : GraphTraversalRequest) where
  filter_by_kind-Permits :
      (kind : SecurityModelKind) (allowed : ChunkRow → Bool) (row : ChunkRow) (s : DocumentSecurity)
      → IsModel request.security_model.clearance_level
      → filter_by_kind kind request ≡ ok allowed
      → allowed row ≡ true
      → new_document_security row.clearance_label row.classification_labels ≡ ok s
      → Permits kind request.security_model s request.subject_security
  filter_by_kind-Permits SecurityModelKind.none_kind allowed row s wf h p e = tt
  filter_by_kind-Permits SecurityModelKind.clearance_kind allowed row s wf h p e =
      clearance_filter-Cleared request.security_model.clearance_level
        request.subject_security.clearance_label allowed row s.clearance_label wf h p
        (new_document_security-eq-ok row.clearance_label row.classification_labels s e).0
  filter_by_kind-Permits SecurityModelKind.labels_kind allowed row s wf h p e =
      labels_filter-Labelled request.security_model.classification_labels
        request.subject_security.classification_labels allowed row s.classification_labels h p
        (new_document_security-eq-ok row.clearance_label row.classification_labels s e).1

  abbrev IsVisible : DocumentSecurity → Type 0
  IsVisible s = Visible request.security_model s request.subject_security

  FromRow-IsVisible :
      (chunk : DocumentChunk)
      → IsModel request.security_model.clearance_level
      → FromRow t request chunk
      → IsVisible chunk.security
  unfolding security_filter graph_chunk
  FromRow-IsVisible chunk wf k =
      let (s, e, made) =
        >>=-eq-ok (new_document_security k.row.clearance_label k.row.classification_labels) _
          k.made in
      subst IsVisible (sym (new_document_chunk-IsMadeOf _ chunk made).security) (
        (Visible-iff request.security_model s request.subject_security).1 (
          filter_by_kind-Permits request.security_model.kind k.allowed k.row s wf k.filter k.passes
            e))

  IsServedHit-IsVisible :
      (hit : SearchHit)
      → IsModel request.security_model.clearance_level
      → IsServedHit t request hit
      → IsVisible hit.chunk.security
  IsServedHit-IsVisible hit wf k =
      subst IsVisible
        (sym (
          (new_document_chunk-IsMadeOf (deeper k.chunk k.depth k.path) hit.chunk
            k.made_deeper).security))
        (FromRow-IsVisible k.chunk wf k.from_row)

-- The subject of a request may see, under the domain's security model, every chunk that the
-- traversal returns: `document_visible_to_subject` comes to a decision and allows it. The labels of
-- a clearance model are distinct and stripped, and `max_nodes` is not zero.
pub expand-Visible :
    (lib : Library) (compare_scores : Float → Float → Ordering) (db : Postgres) (t : Tables)
    (request : GraphTraversalRequest) (hits : List SearchHit)
    → IsModel request.security_model.clearance_level
    → 1 ≤ request.max_nodes
    → expand lib compare_scores db t request ≡ ok hits
    → All (λ hit. Visible request.security_model hit.chunk.security request.subject_security) hits
expand-Visible lib compare_scores db t request hits wf some_nodes e =
    All-map (IsServedHit t request) _ hits (λ hit. IsServedHit-IsVisible t request hit wf)
      (expand-served lib compare_scores db t request hits some_nodes e).0
