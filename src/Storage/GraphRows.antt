-- ===== src/Storage/GraphRows.antt =====
-- `_proposals` and `_load_chunks` of sovereignflow/infrastructure/graph.py, over the tables: the
-- nodes next to those of a frontier, and the chunks of nodes.
use Prim.Native.Nat.{Ordering}
use Prim.Native.String.{◌++◌ as append_text}
use sovereign_flow.Prelude.{
  String, Bool, not, ◌&&◌, ◌||◌, List, [], ◌∷◌, Option, none, some, ◌==◌, keep, map, mem, subset,
  intersection, is_empty, if◌then◌else◌,
}
use sovereign_flow.Result.{Result, ok, ◌>>=◌}
use sovereign_flow.Text.Order.{text_compare}
use sovereign_flow.Value.{Float}
use sovereign_flow.Domain.Security.{
  SecurityModelKind, ClearanceLevelModel, ClassificationLabelsModel, allowed_document_labels,
  validate_labels, new_document_security,
}
use sovereign_flow.Domain.Chunk.{DocumentChunk, new_document_chunk}
use sovereign_flow.Domain.Profile.{GraphDirection, GraphTraversalRequest}
use sovereign_flow.Domain.Ingestion.{GraphNodeRef, new_node, same_node}
use sovereign_flow.Services.Payload.{sorted_by, then_by}
use sovereign_flow.Storage.Tables.{
  SourceKey, ChunkRow, RelationshipRow, SourceRow, Tables, Postgres, same_key, any_row,
}

-- A score, and the types of the relationships on the way from a seed.
pub record NodeState : Type 0 where
  pub score : Float
  pub path : List String

-- A dictionary of nodes.
module _ {V : Type 0} where
  abbrev pub find_node : GraphNodeRef → List (GraphNodeRef × V) → Option V
  find_node node [] = none
  find_node node ((n, v) ∷ rest) = if same_node node n then some v else find_node node rest

  abbrev pub put_node : GraphNodeRef → V → List (GraphNodeRef × V) → List (GraphNodeRef × V)
  put_node node v [] = (node, v) ∷ []
  put_node node v ((n, w) ∷ rest) =
      if same_node node n then (n, v) ∷ rest else (n, w) ∷ put_node node v rest

  abbrev pub nodes : List (GraphNodeRef × V) → List GraphNodeRef
  nodes [] = []
  nodes ((n, v) ∷ rest) = n ∷ nodes rest

abbrev pub has_node : GraphNodeRef → List GraphNodeRef → Bool
has_node node seen = any_row (same_node node) seen

-- `_node_key`
abbrev pub node_key : GraphNodeRef → String
node_key node = append_text node.source_id (append_text "\u{1f}" node.chunk_id)

-- The order of tuples of texts.
unfoldable pub path_compare : List String → List String → Ordering
path_compare [] [] = Ordering.eq
path_compare [] (y ∷ ys) = Ordering.lt
path_compare (x ∷ xs) [] = Ordering.gt
path_compare (x ∷ xs) (y ∷ ys) = elim (text_compare x y) [
  | Ordering.lt ↦ Ordering.lt
  | Ordering.eq ↦ path_compare xs ys
  | Ordering.gt ↦ Ordering.gt
]

-- `owner.current_version = relationship.owner_source_version`, with the keys of the JOIN.
abbrev pub is_current : SourceKey → String → List SourceRow → Bool
is_current key version sources =
    any_row (λ source. same_key source.key key && source.current_version == version) sources

abbrev pub in_scope : GraphTraversalRequest → SourceKey → Bool
in_scope request key = key.tenant_id == request.tenant_id && key.domain == request.domain

abbrev pub follows_outgoing : GraphDirection → Bool
follows_outgoing GraphDirection.outgoing = Bool.true
follows_outgoing GraphDirection.incoming = Bool.false
follows_outgoing GraphDirection.both = Bool.true

abbrev pub follows_incoming : GraphDirection → Bool
follows_incoming GraphDirection.outgoing = Bool.false
follows_incoming GraphDirection.incoming = Bool.true
follows_incoming GraphDirection.both = Bool.true

-- The WHERE of the query of `_proposals`.
unfoldable pub relationship_selected :
    GraphTraversalRequest → Tables → List String → RelationshipRow → Bool
relationship_selected request t keys r =
    is_current r.owner r.owner_source_version t.sources
    && (in_scope request r.owner
        && ((is_empty request.relationship_types
              || mem r.relationship_type request.relationship_types)
            && ((follows_outgoing request.direction && mem (node_key r.from_node) keys)
                || (follows_incoming request.direction && mem (node_key r.to_node) keys))))

-- The ORDER BY of that query.
unfoldable pub relationship_row_after : Postgres → RelationshipRow → RelationshipRow → Bool
relationship_row_after db r s = then_by (db.collate r.relationship_type s.relationship_type) (
    then_by (db.collate r.from_node.source_id s.from_node.source_id) (
      then_by (db.collate r.from_node.chunk_id s.from_node.chunk_id) (
        then_by (db.collate r.to_node.source_id s.to_node.source_id)
          (then_by (db.collate r.to_node.chunk_id s.to_node.chunk_id) Bool.false))))

-- `ANY` of a label that is absent is not true.
abbrev pub label_in : Option String → List String → Bool
label_in none labels = Bool.false
label_in (some label) labels = mem label labels

unfoldable pub clearance_filter :
    Option ClearanceLevelModel → Option String → Result (ChunkRow → Bool)
clearance_filter none subject = ok (λ row. Bool.false)
clearance_filter (some model) none = ok (λ row. Bool.false)
clearance_filter (some model) (some subject) = do
  labels ← allowed_document_labels model subject
  ok (λ row. label_in row.clearance_label labels)

unfoldable pub labels_filter :
    Option ClassificationLabelsModel → List String → Result (ChunkRow → Bool)
labels_filter none subject = ok (λ row. Bool.false)
labels_filter (some model) subject = do
  labels ←
      validate_labels model subject "GraphTraversalRequest.subject_security.classification_labels"
  ok (λ row. subset row.classification_labels labels)

abbrev pub filter_by_kind : SecurityModelKind → GraphTraversalRequest → Result (ChunkRow → Bool)
filter_by_kind SecurityModelKind.none_kind request = ok (λ row. Bool.true)
filter_by_kind SecurityModelKind.clearance_kind request =
    clearance_filter request.security_model.clearance_level request.subject_security.clearance_label
filter_by_kind SecurityModelKind.labels_kind request =
    labels_filter request.security_model.classification_labels
      request.subject_security.classification_labels

-- `_security_filter`: the clause, as a condition on the rows.
unfoldable pub security_filter : GraphTraversalRequest → Result (ChunkRow → Bool)
unfolding clearance_filter labels_filter
security_filter request = filter_by_kind request.security_model.kind request

-- The WHERE of the query of `_load_chunks`, but for its security clause.
unfoldable pub chunk_selected : GraphTraversalRequest → Tables → ChunkRow → Bool
chunk_selected request t row =
    is_current row.key row.source_version t.sources
    && (in_scope request row.key
        && (is_empty row.acl_labels
            || not (is_empty (intersection row.acl_labels request.allowed_acl_labels))))

abbrev pub row_node : ChunkRow → GraphNodeRef
row_node row = record { source_id = row.key.source_id; chunk_id = row.chunk_id }

abbrev pub chunk_row_after : Postgres → ChunkRow → ChunkRow → Bool
chunk_row_after db c d =
    then_by (db.collate c.key.source_id d.key.source_id)
      (then_by (db.collate c.chunk_id d.chunk_id) Bool.false)

-- The chunk of a row, for its node.
unfoldable pub graph_chunk : GraphTraversalRequest → GraphNodeRef → ChunkRow → Result DocumentChunk
graph_chunk request node row = do
  security ← new_document_security row.clearance_label row.classification_labels
  new_document_chunk (record {
    chunk_id = node.chunk_id;
    domain = request.domain;
    tenant_id = request.tenant_id;
    source_id = node.source_id;
    text = row.text_content;
    source_uri = row.source_uri;
    metadata = row.metadata;
    acl_labels = row.acl_labels;
    security = security;
  })

-- The loop on the rows.
unfoldable pub add_chunks :
    GraphTraversalRequest
    → List ChunkRow
    → List (GraphNodeRef × DocumentChunk)
    → Result (List (GraphNodeRef × DocumentChunk))
unfolding graph_chunk
add_chunks request [] found = ok found
add_chunks request (row ∷ rows) found = do
  node ← new_node (row_node row)
  chunk ← graph_chunk request node row
  add_chunks request rows (put_node node chunk found)

abbrev pub is_served :
    GraphTraversalRequest → Tables → List String → (ChunkRow → Bool) → ChunkRow → Bool
is_served request t keys allowed row =
    chunk_selected request t row && (mem (node_key (row_node row)) keys && allowed row)

-- `_load_chunks`
unfoldable pub load_chunks :
    Postgres
    → Tables
    → GraphTraversalRequest
    → List GraphNodeRef
    → Result (List (GraphNodeRef × DocumentChunk))
unfolding security_filter chunk_selected add_chunks sorted_by
load_chunks db t request wanted = do
  allowed ← security_filter request
  add_chunks request
      (sorted_by (chunk_row_after db)
        (keep (is_served request t (map node_key wanted) allowed) t.chunks))
      []
