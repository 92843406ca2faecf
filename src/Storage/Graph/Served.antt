-- ===== src/Storage/Graph/Served.antt =====
-- Where the hits of a graph traversal come from, and how many there are.
use Prim.Native.Nat.{Ordering}
use mathlib.Core.Path.{subst}
use sovereign_flow.Prelude.{
  ℕ, zero, suc, ◌≤◌, ◌<◌, String, ◌≡◌, ap, Bool, false, ◌||◌, List, [], ◌∷◌, ◌++◌, inl, inr, eqb,
  length, length-append, All, All-append, is_empty, Bool-cases, arith, Option-cases,
}
use sovereign_flow.Result.{Result, ok, err, ok_injective, >>=-eq-ok}
use sovereign_flow.Value.{Float}
use sovereign_flow.Library.{Library}
use sovereign_flow.Domain.Chunk.{DocumentChunk, new_document_chunk, SearchHit}
use sovereign_flow.Domain.Profile.{GraphTraversalRequest}
use sovereign_flow.Domain.Ingestion.{GraphNodeRef}
use sovereign_flow.Services.Payload.{sorted_by}
use sovereign_flow.Storage.Graph.Made.{IsOfRow, deeper-IsOfRow}
use sovereign_flow.Storage.Graph.Members.{All-find_node}
use sovereign_flow.Storage.Tables.{Tables, Postgres}
use sovereign_flow.Storage.GraphRows.{NodeState, find_node, nodes, load_chunks}
use sovereign_flow.Storage.Graph.{
  Frontier, Progress, deeper, as_graph_error, seed_states, proposal_after, add_hit, visit_nodes,
  visit_proposals, find_proposals, visit_depths, expand,
}
use sovereign_flow.Storage.Graph.Loaded.{FromRow, load_chunks-FromRow}

-- The hit's chunk is one from a row, with its depth and path in the metadata.
pub record IsServedHit (t : Tables) (request : GraphTraversalRequest) (hit : SearchHit)
    : Type 0 where
  pub chunk : DocumentChunk
  pub depth : ℕ
  pub path : List String
  pub from_row : FromRow t request chunk
  pub made_deeper : new_document_chunk (deeper chunk depth path) ≡ ok hit.chunk
  pub of_row : IsOfRow request from_row.row hit.chunk

below_of_other : (m n : ℕ) → m ≤ n → eqb m n ≡ false → m < n
below_of_other m n h e = ground arith

below_le : {m n : ℕ} → m < n → m ≤ n
below_le h = omega arith

or_left_false : (a b : Bool) → (a || b) ≡ false → a ≡ false
or_left_false a b h = ground arith

as_graph_error-ok : {A : Type 0} (r : Result A) (a : A) → as_graph_error r ≡ ok a → r ≡ ok a
unfolding as_graph_error
as_graph_error-ok (ok b) a e = e
as_graph_error-ok (err x) a e = absurd (cc e)

module _ (lib : Library) (compare_scores : Float → Float → Ordering) (db : Postgres) (t : Tables)
    (request : GraphTraversalRequest) where
  -- Where the loops stand while there is room for another hit.
  record IsOpen (p : Progress) : Type 0 where
    served : All (IsServedHit t request) p.expanded
    room : length p.expanded < request.max_nodes

  record IsVisited (is_over : Bool) (p : Progress) : Type 0 where
    served : All (IsServedHit t request) p.expanded
    bounded : length p.expanded ≤ request.max_nodes
    room : is_over ≡ false → length p.expanded < request.max_nodes

  add_hit-IsVisited :
      (depth : ℕ) (node : GraphNodeRef) (state : NodeState) (chunk : DocumentChunk) (p q : Progress)
      → IsOpen p
      → FromRow t request chunk
      → add_hit lib compare_scores db depth node state chunk p ≡ ok q
      → IsVisited (eqb (length q.expanded) request.max_nodes) q
  unfolding add_hit
  add_hit-IsVisited depth node state chunk p q h k e =
      let (new, made, e₁) = >>=-eq-ok (new_document_chunk (deeper chunk depth state.path)) _ e in
      let hit : SearchHit = record {
        chunk = new;
        score = lib.divide state.score (suc depth);
        score_type = "graph";
      } in
      let grown : p.expanded ++ hit ∷ [] ≡ q.expanded =
        ap (λ (z : Progress). z.expanded) (ok_injective e₁) in
      let longer = length-append p.expanded (hit ∷ []) in
      let same = ap length grown in
      let room = h.room in
      let bounded : length q.expanded ≤ request.max_nodes = ground arith in
      record {
        served = subst (All (IsServedHit t request)) grown (
            All-append (IsServedHit t request) p.expanded (hit ∷ []) h.served (
              record {
                chunk = chunk;
                depth = depth;
                path = state.path;
                from_row = k;
                made_deeper = made;
                of_row = deeper-IsOfRow request k.row chunk new depth state.path k.of_row made;
              },
              tt,
            ));
        bounded = bounded;
        room = below_of_other (length q.expanded) request.max_nodes bounded;
      }

  visit_nodes-IsVisited :
      (depth : ℕ) (chunks : List (GraphNodeRef × DocumentChunk)) (states : Frontier)
      (p q : Progress) (is_over : Bool)
      → All (λ e. FromRow t request e.1) chunks
      → IsOpen p
      → visit_nodes lib compare_scores db request.max_nodes depth chunks states p ≡ ok (is_over, q)
      → IsVisited is_over q
  unfolding visit_nodes
  visit_nodes-IsVisited depth chunks [] p q is_over k h e =
      let same : p ≡ q = ap (λ (z : Bool × Progress). z.1) (ok_injective e) in
      subst (IsVisited is_over) same
        (record { served = h.served; bounded = below_le h.room; room = λ _. h.room })
  visit_nodes-IsVisited depth chunks ((node, state) ∷ rest) p q is_over k h e =
      elim (Option-cases (find_node node chunks)) [
        | inl missing ↦
            visit_nodes-IsVisited depth chunks rest p q is_over k h (rw (missing, visit_nodes) at e)
        | inr (chunk, found) ↦
            let (p', added, e₁) =
              >>=-eq-ok (add_hit lib compare_scores db depth node state chunk p) _
                (rw (found, visit_nodes) at e) in
            let v =
              add_hit-IsVisited depth node state chunk p p' h
                (All-find_node (FromRow t request) node chunks chunk k found) added in
            elim (Bool-cases (eqb (length p'.expanded) request.max_nodes)) [
              | inl full ↦
                  let same = ok_injective (rw full at e₁) in
                  subst (λ (z : Bool × Progress). IsVisited z.0 z.1) same
                    (subst (λ b. IsVisited b p') full v)
              | inr other ↦
                  visit_nodes-IsVisited depth chunks rest p' q is_over k
                    (record { served = v.served; room = v.room other }) (rw other at e₁)
            ]
      ]

  visit_proposals-IsVisited :
      (depth : ℕ) (proposals : Frontier) (p q : Progress) (is_over : Bool)
      → IsOpen p
      → visit_proposals lib compare_scores db t request depth proposals p ≡ ok (is_over, q)
      → IsVisited is_over q
  unfolding visit_proposals
  visit_proposals-IsVisited depth [] p q is_over h e =
      let same = ok_injective e in
      subst (λ (z : Bool × Progress). IsVisited z.0 z.1) same
        (record { served = h.served; bounded = below_le h.room; room = λ _. h.room })
  visit_proposals-IsVisited depth (first ∷ others) p q is_over h e =
      let (chunks, loaded, e₁) =
        >>=-eq-ok (load_chunks db t request (nodes (first ∷ others))) _ e in
      visit_nodes-IsVisited depth chunks
        (sorted_by (proposal_after lib compare_scores db) (first ∷ others))
        (record p { next_frontier = [] }) q is_over
        (load_chunks-FromRow t request db (nodes (first ∷ others)) chunks loaded)
        (record { served = h.served; room = h.room }) e₁

  -- What the traversal returned.
  abbrev pub IsBoundedAndServed : List SearchHit → Type 0
  IsBoundedAndServed hits = All (IsServedHit t request) hits × (length hits ≤ request.max_nodes)

  visit_depths-served :
      (left depth : ℕ) (p : Progress) (hits : List SearchHit)
      → IsOpen p
      → visit_depths lib compare_scores db t request left depth p ≡ ok hits
      → IsBoundedAndServed hits
  unfolding visit_depths
  visit_depths-served zero depth p hits h e =
      subst IsBoundedAndServed (ok_injective e) (h.served, below_le h.room)
  visit_depths-served (suc left) depth p hits h e =
      let (proposals, e₀, e₁) =
        >>=-eq-ok (find_proposals lib compare_scores db t request p.next_frontier p.visited) _ e in
      let ((is_over, q), visited, e₂) =
        >>=-eq-ok (visit_proposals lib compare_scores db t request depth proposals p) _ e₁ in
      let v = visit_proposals-IsVisited depth proposals p q is_over h visited in
      elim (Bool-cases (is_over || is_empty q.next_frontier)) [
        | inl ends ↦ subst IsBoundedAndServed (ok_injective (rw ends at e₂)) (v.served, v.bounded)
        | inr goes ↦
            visit_depths-served left (suc depth) q hits
              (record {
                served = v.served;
                room = v.room (or_left_false is_over (is_empty q.next_frontier) goes);
              })
              (rw goes at e₂)
      ]

  -- Whatever a graph traversal returns comes from the tables: each hit has the identifiers, the text
  -- and the URI of a row whose tenant and domain are those of the request, whose version is the
  -- current one of its source, which has no ACL label or one of the request's, and which the security
  -- filter of the request passes. There are at most `max_nodes` of them, where `max_nodes` is not
  -- zero.
  pub expand-served :
      (hits : List SearchHit)
      → 1 ≤ request.max_nodes
      → expand lib compare_scores db t request ≡ ok hits
      → All (IsServedHit t request) hits × (length hits ≤ request.max_nodes)
  unfolding expand as_graph_error
  expand-served hits some_nodes e =
      let (seeds, e₀, e₁) = >>=-eq-ok (seed_states request.seeds []) _ e in
      visit_depths-served request.max_depth 1
        (record { expanded = []; visited = nodes seeds; next_frontier = seeds }) hits
        (record { served = tt; room = some_nodes }) (as_graph_error-ok _ hits e₁)
