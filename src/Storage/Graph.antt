-- ===== src/Storage/Graph.antt =====
-- `PostgreSQLGraphTraversal` of sovereignflow/infrastructure/graph.py: the neighbours of the seeds,
-- by breadth. A connection that fails is not modelled. How Python compares two negated scores, which
-- are not NaN, is a parameter.
pub mod Members
pub mod Made
pub mod Loaded
pub mod Filter
pub mod Served
pub mod Visible
use Prim.Native.Nat.{Ordering}
use sovereign_flow.Prelude.{
  ℕ, zero, suc, String, Bool, not, ◌&&◌, ◌||◌, List, [], ◌∷◌, ◌++◌, Option, none, some, eqb, keep,
  map, insert, is_empty, length, if◌then◌else◌,
}
use sovereign_flow.Prelude.Int.{pos}
use sovereign_flow.Result.{Error, raised, ErrorClass, Result, ok, err, ◌>>=◌}
use sovereign_flow.Text.Order.{text_compare}
use sovereign_flow.Value.{Value, Float}
use sovereign_flow.Library.{Library}
use sovereign_flow.Domain.Chunk.{DocumentChunk, new_document_chunk, SearchHit}
use sovereign_flow.Domain.Profile.{GraphTraversalRequest}
use sovereign_flow.Domain.Ingestion.{GraphNodeRef, new_node}
use sovereign_flow.Services.Payload.{sorted_by, then_by, texts}
use sovereign_flow.Storage.Tables.{RelationshipRow, Tables, Postgres}
use sovereign_flow.Storage.GraphRows.{
  NodeState, find_node, put_node, nodes, has_node, node_key, path_compare, follows_outgoing,
  follows_incoming, relationship_selected, relationship_row_after, load_chunks,
}

-- A dictionary of nodes with their states.
abbrev pub Frontier : Type 0
Frontier = List (GraphNodeRef × NodeState)

-- What the loops of `expand` change.
pub record Progress : Type 0 where
  pub expanded : List SearchHit
  pub visited : List GraphNodeRef
  pub next_frontier : Frontier

-- `except (DependencyUnavailableError, IngestionError): raise`; any other exception is a
-- `DependencyUnavailableError`.
unfoldable pub graph_error : Error → Error
graph_error (raised ErrorClass.dependency_unavailable m) =
    raised ErrorClass.dependency_unavailable m
graph_error (raised ErrorClass.ingestion_error m) = raised ErrorClass.ingestion_error m
graph_error other = raised ErrorClass.dependency_unavailable "PostgreSQL graph traversal failed"

unfoldable pub as_graph_error : {A : Type 0} → Result A → Result A
unfolding graph_error
as_graph_error (ok a) = ok a
as_graph_error (err e) = err (graph_error e)

-- The states of the seeds, outside of the `try`.
unfoldable pub seed_states : List SearchHit → Frontier → Result Frontier
seed_states [] states = ok states
seed_states (hit ∷ hits) states = do
  node ← new_node (record { source_id = hit.chunk.source_id; chunk_id = hit.chunk.chunk_id })
  seed_states hits (put_node node (record { score = hit.score; path = [] }) states)

-- The chunk again, with its distance and its path in the metadata.
abbrev pub deeper : DocumentChunk → ℕ → List String → DocumentChunk
deeper chunk depth path = record chunk {
  metadata =
      insert "graph_path" (texts path)
        (insert "graph_depth" (Value.int (pos depth)) chunk.metadata);
}

module _ (lib : Library) (compare_scores : Float → Float → Ordering) (db : Postgres) where
  -- The tuple `(-score, path)` of the first is smaller.
  unfoldable pub is_better : NodeState → NodeState → Bool
  unfolding path_compare
  is_better candidate existing =
      then_by (compare_scores existing.score candidate.score)
        (then_by (path_compare existing.path candidate.path) Bool.false)

  abbrev pub replaces : NodeState → Option NodeState → Bool
  replaces candidate none = Bool.true
  replaces candidate (some existing) = is_better candidate existing

  -- `_select_proposal`
  unfoldable pub select_proposal :
      GraphNodeRef → NodeState → String → List GraphNodeRef → Frontier → Frontier
  unfolding is_better
  select_proposal node parent relationship_type visited proposals =
      let candidate : NodeState = record {
        score = parent.score;
        path = parent.path ++ relationship_type ∷ [];
      } in
      if has_node node visited
      then proposals
      else if replaces candidate (find_node node proposals)
      then put_node node candidate proposals
      else proposals

  -- One `if` of the loop on the rows; the parent is looked up in the frontier.
  unfoldable pub proposed :
      Bool → Option NodeState → GraphNodeRef → String → List GraphNodeRef → Frontier → Frontier
  unfolding select_proposal
  proposed follows none node relationship_type visited proposals = proposals
  proposed follows (some parent) node relationship_type visited proposals =
      if follows then select_proposal node parent relationship_type visited proposals else proposals

  unfoldable pub add_proposals :
      GraphTraversalRequest
      → Frontier
      → List GraphNodeRef
      → List RelationshipRow
      → Frontier
      → Result Frontier
  unfolding proposed
  add_proposals request frontier visited [] proposals = ok proposals
  add_proposals request frontier visited (row ∷ rows) proposals = do
    from_node ← new_node row.from_node
    to_node ← new_node row.to_node
    let outward =
        proposed (follows_outgoing request.direction) (find_node from_node frontier) to_node
          row.relationship_type visited proposals
    add_proposals request frontier visited rows (
        proposed (follows_incoming request.direction) (find_node to_node frontier) from_node
          row.relationship_type visited outward)

  -- `_proposals`
  unfoldable pub find_proposals :
      Tables → GraphTraversalRequest → Frontier → List GraphNodeRef → Result Frontier
  unfolding add_proposals relationship_selected relationship_row_after sorted_by
  find_proposals t request frontier visited =
      add_proposals request frontier visited
        (sorted_by (relationship_row_after db)
          (keep (relationship_selected request t (map node_key (nodes frontier))) t.relationships))
        []

  -- The key of `sorted` on the proposals.
  abbrev pub proposal_after : GraphNodeRef × NodeState → GraphNodeRef × NodeState → Bool
  proposal_after (m, x) (n, y) = then_by (compare_scores x.score y.score) (
      then_by (text_compare m.source_id n.source_id) (
        then_by (text_compare m.chunk_id n.chunk_id)
          (then_by (path_compare x.path y.path) Bool.false)))

  -- What the loop does with a node whose chunk was found.
  unfoldable pub add_hit : ℕ → GraphNodeRef → NodeState → DocumentChunk → Progress → Result Progress
  add_hit depth node state chunk p = do
    new ← new_document_chunk (deeper chunk depth state.path)
    ok (record {
      expanded =
          p.expanded
          ++ record {
            chunk = new;
            score = lib.divide state.score (suc depth);
            score_type = "graph";
          }
            ∷ [];
      visited = node ∷ p.visited;
      next_frontier = put_node node state p.next_frontier;
    })

  -- The loop on the proposals, and whether it came to `max_nodes`.
  unfoldable pub visit_nodes :
      ℕ → ℕ → List (GraphNodeRef × DocumentChunk) → Frontier → Progress → Result (Bool × Progress)
  unfolding add_hit
  visit_nodes max_nodes depth chunks [] p = ok (Bool.false, p)
  visit_nodes max_nodes depth chunks ((node, state) ∷ rest) p = elim (find_node node chunks) [
    | none ↦ visit_nodes max_nodes depth chunks rest p
    | some chunk ↦ add_hit depth node state chunk p >>= (λ q.
        elim (eqb (length q.expanded) max_nodes) [
          | Bool.true ↦ ok (Bool.true, q)
          | Bool.false ↦ visit_nodes max_nodes depth chunks rest q
        ])
  ]

  -- A turn of the loop on the depth, for its proposals.
  unfoldable pub visit_proposals :
      Tables → GraphTraversalRequest → ℕ → Frontier → Progress → Result (Bool × Progress)
  unfolding visit_nodes load_chunks sorted_by
  visit_proposals t request depth [] p = ok (Bool.true, p)
  visit_proposals t request depth (first ∷ others) p = do
    chunks ← load_chunks db t request (nodes (first ∷ others))
    visit_nodes request.max_nodes depth chunks (sorted_by proposal_after (first ∷ others))
        (record p { next_frontier = [] })

  -- The loop on the depth; the count is that of the turns left.
  unfoldable pub visit_depths :
      Tables → GraphTraversalRequest → ℕ → ℕ → Progress → Result (List SearchHit)
  unfolding find_proposals visit_proposals
  visit_depths t request zero depth p = ok p.expanded
  visit_depths t request (suc left) depth p = do
    proposals ← find_proposals t request p.next_frontier p.visited
    (is_over, q) ← visit_proposals t request depth proposals p
    elim (is_over || is_empty q.next_frontier) [
      | Bool.true ↦ ok q.expanded
      | Bool.false ↦ visit_depths t request left (suc depth) q
    ]

  -- `expand`
  unfoldable pub expand : Tables → GraphTraversalRequest → Result (List SearchHit)
  unfolding seed_states visit_depths as_graph_error
  expand t request = do
    seeds ← seed_states request.seeds []
    as_graph_error (
        visit_depths t request request.max_depth 1
          (record { expanded = []; visited = nodes seeds; next_frontier = seeds }))
