-- ===== src/Tests/Graph.antt =====
-- The theorems on the graph traversal, at a concrete input.
use Prim.Native.Nat.{Ordering}
use sovereign_flow.Prelude.{
  ◌≡◌, ◌≤◌, refl, [], ◌∷◌, none, some, All, length, arith, String, true, keys, some_injective,
}
use sovereign_flow.Result.{ok}
use sovereign_flow.Value.{Value, Items, Float}
use sovereign_flow.Text.Order.{sorted_set, set_insert}
use sovereign_flow.Prelude.Int.{pos}
use sovereign_flow.Text.Normal.{normalized_values, required_all, IsLabel}
use sovereign_flow.Services.Payload.{sorted_by, insert_by}
use sovereign_flow.Domain.Security.{
  allowed_document_labels, labels_up_to, clearance_value, level_at, new_document_security,
  required_option, ClearanceLevelModel,
}
use sovereign_flow.Storage.GraphRows.{
  relationship_selected, relationship_row_after, path_compare, load_chunks, security_filter,
  clearance_filter, chunk_selected, add_chunks, graph_chunk,
}
use sovereign_flow.Text.Strip.{required, strip}
use sovereign_flow.Domain.Chunk.{SearchHit, new_document_chunk}
use sovereign_flow.Domain.Profile.{GraphTraversalRequest, GraphDirection}
use sovereign_flow.Domain.Ingestion.{GraphNodeRef, new_node}
use sovereign_flow.Storage.Tables.{SourceKey, ChunkRow, Tables, Postgres}
use sovereign_flow.Storage.Graph.{
  expand, seed_states, visit_depths, as_graph_error, find_proposals, visit_proposals, add_proposals,
  proposed, select_proposal, is_better, visit_nodes, add_hit,
}
use sovereign_flow.Storage.Graph.Served.{IsServedHit, expand-served}
use mathlib.Core.Path.{subst}
use sovereign_flow.Pipeline.Registry.{distinct}
use sovereign_flow.Domain.Security.Visibility.{Visible}
use sovereign_flow.Storage.Graph.Filter.{IsModel}
use sovereign_flow.Storage.Graph.Visible.{expand-Visible}
use sovereign_flow.Tests.Data.{clearance, chunk, domain, cleared, library}

abbrev key : SourceKey
key = record { tenant_id = "acme"; domain = "hr"; source_id = "handbook" }

abbrev node : String → GraphNodeRef
node chunk_id = record { source_id = "handbook"; chunk_id = chunk_id }

abbrev stored_chunk : String → String → ChunkRow
stored_chunk chunk_id label = record {
  key = key;
  source_version = "v1";
  chunk_id = chunk_id;
  position = 0;
  source_uri = none;
  text_content = "text";
  metadata = [];
  acl_labels = [];
  clearance_label = some label;
  classification_labels = [];
}

abbrev tables : Tables
tables = record {
  jobs = [];
  source_versions = [];
  chunks = stored_chunk "c1" "public" ∷ stored_chunk "c2" "secret" ∷ [];
  relationships =
      record {
        owner = key;
        owner_source_version = "v1";
        from_node = node "c1";
        to_node = node "c2";
        relationship_type = "next";
        metadata = [];
      }
      ∷ [];
  sources = record { key = key; current_version = "v1"; current_job_id = "job" } ∷ [];
}

abbrev db : Postgres
db = record {
  collate = λ s t. Ordering.eq;
  jsonb = λ metadata. ok metadata;
  job_id_factory = λ n. "job";
}

abbrev request : GraphTraversalRequest
request = record {
  seeds = record { chunk = chunk "c1" "public"; score = Float.nan; score_type = "hybrid" } ∷ [];
  domain = "hr";
  tenant_id = "acme";
  max_depth = 2;
  max_nodes = 3;
  direction = GraphDirection.both;
  relationship_types = [];
  allowed_acl_labels = [];
  security_model = domain.security_model;
  subject_security = cleared "secret";
}

abbrev no_order : Float → Float → Ordering
no_order x y = Ordering.eq

abbrev reached : SearchHit
reached = record {
  chunk = record (chunk "c2" "secret") {
    text = "text";
    metadata =
        ("graph_depth", Value.int (pos 1))
        ∷ ("graph_path", Value.sequence (Items.cons (Value.str "next") Items.nil))
        ∷ [];
  };
  score = library.divide Float.nan 2;
  score_type = "graph";
}

traversal : expand library no_order db tables request ≡ ok (reached ∷ [])
unfolding expand seed_states visit_depths as_graph_error find_proposals visit_proposals
    add_proposals relationship_selected relationship_row_after sorted_by insert_by proposed
    select_proposal is_better path_compare visit_nodes load_chunks add_hit security_filter
    clearance_filter chunk_selected add_chunks graph_chunk allowed_document_labels labels_up_to
    clearance_value level_at sorted_set set_insert normalized_values required_all
    new_document_security required_option new_document_chunk new_node required strip
traversal = refl

expand-served_example :
    All (IsServedHit tables request) (reached ∷ []) × (length (reached ∷ []) ≤ request.max_nodes)
expand-served_example =
    expand-served library no_order db tables request (reached ∷ []) (omega arith) traversal

labels_known : (distinct (keys clearance.levels) ≡ true) × All IsLabel (keys clearance.levels)
unfolding strip
labels_known = (refl, ((refl, λ h. cc), ((refl, λ h. cc), tt)))

clearance-IsModel : IsModel (some clearance)
clearance-IsModel c same =
    subst
      (λ (m : ClearanceLevelModel). (distinct (keys m.levels) ≡ true) × All IsLabel (keys m.levels))
      (some_injective clearance c same) labels_known

expand-Visible_example :
    All
      (λ hit. Visible request.security_model hit.chunk.security request.subject_security)
      (reached ∷ [])
expand-Visible_example =
    expand-Visible library no_order db tables request (reached ∷ []) clearance-IsModel (omega arith)
      traversal
