-- ===== src/Storage/Graph/Loaded.antt =====
-- The chunks that `_load_chunks` of sovereignflow/infrastructure/graph.py finds come from rows of the
-- tables.
use mathlib.Core.Path.{subst}
use sovereign_flow.Prelude.{
  ◌≡◌, Bool, true, List, [], ◌∷◌, keep, map, All, Any, String, ◌⊎◌, inl, inr, mem, eq_iff, ◌==◌,
  ◌&&◌, ◌||◌, false, refl, not, is_empty, intersection, mem-cons_self, mem-cons_of_mem, Bool-cases,
  arith, and_parts,
}
use mathlib.Core.Bool.{false≢true}
use sovereign_flow.Result.{ok, ok_injective, >>=-eq-ok}
use sovereign_flow.Domain.Chunk.{DocumentChunk}
use sovereign_flow.Domain.Profile.{GraphTraversalRequest}
use sovereign_flow.Domain.Ingestion.{GraphNodeRef, new_node}
use sovereign_flow.Services.Payload.{sorted_by}
use sovereign_flow.Storage.Graph.Made.{IsOfRow, graph_chunk-IsOfRow}
use sovereign_flow.Storage.Graph.Members.{All-keep_of, All-sorted_by, All-put_node}
use sovereign_flow.Storage.Tables.{SourceKey, SourceRow, same_key, ChunkRow, Tables, Postgres}
use sovereign_flow.Storage.GraphRows.{
  put_node, node_key, security_filter, chunk_selected, is_current, in_scope, row_node,
  chunk_row_after, graph_chunk, add_chunks, is_served, load_chunks,
}

-- The row is in the version that is the current one of its source.
abbrev pub InCurrent : Tables → ChunkRow → Type 0
InCurrent t row =
    Any (λ source. (source.key ≡ row.key) × (source.current_version ≡ row.source_version)) t.sources

-- The labels are none, or one of them is among the allowed ones.
abbrev pub SharesLabel : List String → List String → Type 0
SharesLabel labels allowed =
    (labels ≡ []) ⊎ ((x : String) × (mem x labels ≡ true) × (mem x allowed ≡ true))

-- What the query of `_load_chunks` asks of a row, beside its node and the security clause.
pub record InScope (t : Tables) (request : GraphTraversalRequest) (row : ChunkRow) : Type 0 where
  pub same_tenant : row.key.tenant_id ≡ request.tenant_id
  pub same_domain : row.key.domain ≡ request.domain
  pub current : InCurrent t row
  pub acl : SharesLabel row.acl_labels request.allowed_acl_labels

same_key-eq : (k l : SourceKey) → same_key k l ≡ true → k ≡ l
same_key-eq k l h =
    let (tenant, rest) = and_parts (k.tenant_id == l.tenant_id) _ h in
    let (domain, source) = and_parts (k.domain == l.domain) _ rest in
    λ i. record {
      tenant_id = (eq_iff k.tenant_id l.tenant_id).0 tenant i;
      domain = (eq_iff k.domain l.domain).0 domain i;
      source_id = (eq_iff k.source_id l.source_id).0 source i;
    }

is_current-InCurrent :
    (key : SourceKey) (version : String) (sources : List SourceRow)
    → is_current key version sources ≡ true
    → Any (λ source. (source.key ≡ key) × (source.current_version ≡ version)) sources
is_current-InCurrent key version [] h = absurd (false≢true h)
is_current-InCurrent key version (source ∷ sources) h =
    elim (Bool-cases (same_key source.key key && source.current_version == version)) [
      | inl here ↦
          let (same, active) = and_parts (same_key source.key key) _ here in
          inl (same_key-eq source.key key same, (eq_iff source.current_version version).0 active)
      | inr other ↦ inr (is_current-InCurrent key version sources (rw other at h))
    ]

common_label :
    (xs ys : List String)
    → is_empty (intersection xs ys) ≡ false
    → (x : String) × (mem x xs ≡ true) × (mem x ys ≡ true)
common_label [] ys h = cc
common_label (x ∷ xs) ys h = elim (Bool-cases (mem x ys)) [
  | inl shared ↦ (x, mem-cons_self x xs, shared)
  | inr other ↦
      let (y, m, k) = common_label xs ys (rw other at h) in (y, mem-cons_of_mem y x xs m, k)
]

acl-SharesLabel :
    (labels allowed : List String)
    → (is_empty labels || not (is_empty (intersection labels allowed))) ≡ true
    → SharesLabel labels allowed
acl-SharesLabel [] allowed h = inl refl
acl-SharesLabel (x ∷ xs) allowed h = inr (common_label (x ∷ xs) allowed (ground arith))

chunk_selected-InScope :
    (t : Tables) (request : GraphTraversalRequest) (row : ChunkRow)
    → chunk_selected request t row ≡ true
    → InScope t request row
unfolding chunk_selected
chunk_selected-InScope t request row h =
    let (current, rest) = and_parts (is_current row.key row.source_version t.sources) _ h in
    let (scope, acl) = and_parts (in_scope request row.key) _ rest in
    let (tenant, domain) = and_parts (row.key.tenant_id == request.tenant_id) _ scope in
    record {
      same_tenant = (eq_iff row.key.tenant_id request.tenant_id).0 tenant;
      same_domain = (eq_iff row.key.domain request.domain).0 domain;
      current = is_current-InCurrent row.key row.source_version t.sources current;
      acl = acl-SharesLabel row.acl_labels request.allowed_acl_labels acl;
    }

-- The chunk is made from a row of the tables: of the request's tenant and domain, of the current
-- version of its source, open by its ACL labels, and passed by the security filter.
pub record FromRow (t : Tables) (request : GraphTraversalRequest) (chunk : DocumentChunk)
    : Type 0 where
  pub row : ChunkRow
  pub allowed : ChunkRow → Bool
  pub node : GraphNodeRef
  pub stored : Any (λ r. r ≡ row) t.chunks
  pub selected : InScope t request row
  pub filter : security_filter request ≡ ok allowed
  pub passes : allowed row ≡ true
  pub named : new_node (row_node row) ≡ ok node
  pub made : graph_chunk request node row ≡ ok chunk
  pub of_row : IsOfRow request row chunk

-- A row that the query of `_load_chunks` returns.
record IsSelected (t : Tables) (request : GraphTraversalRequest) (allowed : ChunkRow → Bool)
    (row : ChunkRow) : Type 0 where
  stored : Any (λ r. r ≡ row) t.chunks
  selected : InScope t request row
  passes : allowed row ≡ true

module _ (t : Tables) (request : GraphTraversalRequest) where
  add_chunks-FromRow :
      (allowed : ChunkRow → Bool)
      → security_filter request ≡ ok allowed
      → (rows : List ChunkRow) (found loaded : List (GraphNodeRef × DocumentChunk))
      → All (IsSelected t request allowed) rows
      → All (λ e. FromRow t request e.1) found
      → add_chunks request rows found ≡ ok loaded
      → All (λ e. FromRow t request e.1) loaded
  unfolding add_chunks
  add_chunks-FromRow allowed f [] found loaded h k e =
      subst (All (λ e. FromRow t request e.1)) (ok_injective e) k
  add_chunks-FromRow allowed f (row ∷ rows) found loaded h k e =
      let (node, named, e₁) = >>=-eq-ok (new_node (row_node row)) _ e in
      let (chunk, made, e₂) = >>=-eq-ok (graph_chunk request node row) _ e₁ in
      add_chunks-FromRow allowed f rows (put_node node chunk found) loaded h.1
        (All-put_node (FromRow t request) node chunk found
          (record {
            row = row;
            allowed = allowed;
            node = node;
            stored = h.0.stored;
            selected = h.0.selected;
            filter = f;
            passes = h.0.passes;
            named = named;
            made = made;
            of_row = graph_chunk-IsOfRow request row node chunk named made;
          })
          k)
        e₂

  pub load_chunks-FromRow :
      (db : Postgres) (wanted : List GraphNodeRef) (loaded : List (GraphNodeRef × DocumentChunk))
      → load_chunks db t request wanted ≡ ok loaded
      → All (λ e. FromRow t request e.1) loaded
  unfolding load_chunks
  load_chunks-FromRow db wanted loaded e =
      let (allowed, f, e₁) = >>=-eq-ok (security_filter request) _ e in
      let served = is_served request t (map node_key wanted) allowed in
      add_chunks-FromRow allowed f (sorted_by (chunk_row_after db) (keep served t.chunks)) [] loaded
        (All-sorted_by (IsSelected t request allowed) (chunk_row_after db) (keep served t.chunks) (
          All-keep_of (IsSelected t request allowed) served t.chunks (λ row stored holds.
            let (selected, rest) = and_parts (chunk_selected request t row) _ holds in
            let (wanted', passes) = and_parts _ (allowed row) rest in
            record {
              stored = stored;
              selected = chunk_selected-InScope t request row selected;
              passes = passes;
            })))
        tt e₁
