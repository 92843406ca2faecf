-- ===== src/Pipeline/Actions/Retrieve.antt =====
-- The actions of sovereignflow/application/actions that collect evidence: normalize_query.py,
-- retrieve.py, expand_graph.py, manage_context_budget.py, require_evidence.py, and finalize.py.
pub mod Readable
use sovereign_flow.Prelude.{
  String, Bool, not, ◌||◌, List, [], ◌∷◌, Option, none, some, ◌==◌, if◌then◌else◌, lookup, insert,
  keys, values, mem, is_empty,
}
use sovereign_flow.Result.{Result, ok, err, bad_execution}
use sovereign_flow.Effect.{Effect, return, lift, require, ◌>>=◌, ◌>>◌}
use sovereign_flow.Text.Strip.{strip}
use sovereign_flow.Text.Words.{split, join, collapse_spaces}
use sovereign_flow.Library.{Library}
use sovereign_flow.Domain.Chunk.{SearchHit}
use sovereign_flow.Domain.Profile.{
  SearchRequest, new_search_request, GraphTraversalRequest, new_graph_request,
}
use sovereign_flow.Pipeline.Definition.{PipelineStepDefinition}
use sovereign_flow.Pipeline.Context.{PipelineContext, Action, call, ask, assign}
use sovereign_flow.Pipeline.Actions.Boundary.{verify_retrieval_boundary}
use sovereign_flow.Pipeline.Actions.Budget.{build_context, concat_all}
use sovereign_flow.Pipeline.Actions.RetrieveConfig.{
  RetrieveConfig, retrieve_config, merged, ExpandGraphConfig, expand_graph_config,
  context_budget_config,
}

-- A set of texts keeps each once.
abbrev pub with_member : String → List String → List String
with_member x xs = if mem x xs then xs else x ∷ xs

-- `_normalize_guard_query`
unfoldable pub guard_query : Library → String → String
guard_query lib query = collapse_spaces (lib.lower (strip query))

-- `{hit.chunk.chunk_id: hit for hit in hits}`
unfoldable pub by_chunk_id : List SearchHit → List (String × SearchHit) → List (String × SearchHit)
by_chunk_id [] unique = unique
by_chunk_id (hit ∷ hits) unique = by_chunk_id hits (insert hit.chunk.chunk_id hit unique)

-- `unique.setdefault(hit.chunk.chunk_id, hit)` for each hit.
unfoldable pub with_defaults :
    List SearchHit → List (String × SearchHit) → List (String × SearchHit)
with_defaults [] unique = unique
with_defaults (hit ∷ hits) unique =
    with_defaults hits (
      if mem hit.chunk.chunk_id (keys unique) then unique else insert hit.chunk.chunk_id hit unique)

-- The hits of a context after an expansion.
unfoldable pub united : List SearchHit → List SearchHit → List SearchHit
unfolding by_chunk_id with_defaults
united seed_hits expanded = values (with_defaults expanded (by_chunk_id seed_hits []))

module _ {W : Type 0} where
  unfoldable pub normalize_query : PipelineStepDefinition → Action W (Option String)
  normalize_query step = do
    assign (λ c. record c { normalized_query = join " " (split c.command.query) })
    return none

  -- `_retrieval_query`
  unfoldable pub retrieval_query : String → PipelineContext W → Result String
  retrieval_query source c =
      if source == "normalized_query"
      then ok c.normalized_query
      else if source == "command_query"
      then ok c.command.query
      else err (bad_execution "Unsupported retrieve query source")

  unfoldable pub search_request : RetrieveConfig → PipelineContext W → String → SearchRequest
  search_request config c query = record {
    query = query;
    domain = c.domain.name;
    tenant_id = c.command.authorization.tenant_id;
    top_k = config.top_k;
    mode = config.search_mode;
    filters = merged (merged c.command.filters c.domain.retrieval.filters) config.filters;
    allowed_acl_labels = c.command.authorization.acl_labels;
    security_model = c.domain.security_model;
    subject_security = c.command.authorization.security;
  }

  -- What the provider found is kept as seeds before it is checked, and as hits after.
  unfoldable pub retrieve : Library → PipelineStepDefinition → Action W (Option String)
  unfolding retrieval_query search_request guard_query
  retrieve lib step = do
    config ← lift (retrieve_config step)
    c ← ask (λ c. c)
    query ← lift (retrieval_query config.query_source c)
    request ← lift (new_search_request (search_request config c query))
    found ← call (c.retrieval request)
    assign (λ c. record c { seed_hits = found })
    assign (λ c. record c {
      retrieval_queries_asked_norm =
          with_member (guard_query lib query) c.retrieval_queries_asked_norm;
    })
    lift (verify_retrieval_boundary c.domain c.command.authorization found)
    assign (λ c. record c { hits = c.seed_hits })
    return none

  unfoldable pub graph_request : ExpandGraphConfig → PipelineContext W → GraphTraversalRequest
  graph_request config c = record {
    seeds = c.hits;
    domain = c.domain.name;
    tenant_id = c.command.authorization.tenant_id;
    max_depth = config.max_depth;
    max_nodes = config.max_nodes;
    direction = config.direction;
    relationship_types = config.relationship_types;
    allowed_acl_labels = c.command.authorization.acl_labels;
    security_model = c.domain.security_model;
    subject_security = c.command.authorization.security;
  }

  unfoldable pub expanded : ExpandGraphConfig → PipelineContext W → Action W (Option String)
  unfolding graph_request united
  expanded config c = do
    request ← lift (new_graph_request (graph_request config c))
    found ← call (c.graph request)
    lift (verify_retrieval_boundary c.domain c.command.authorization found)
    assign (λ c. record c { graph_hits = found })
    assign (λ c. record c { hits = united c.seed_hits found })
    return none

  unfoldable pub expand_unless :
      Bool → ExpandGraphConfig → PipelineContext W → Action W (Option String)
  unfolding expanded
  expand_unless Bool.true config c = return none
  expand_unless Bool.false config c = expanded config c

  unfoldable pub expand_graph : PipelineStepDefinition → Action W (Option String)
  unfolding expand_unless
  expand_graph step = do
    config ← lift (expand_graph_config step)
    c ← ask (λ c. c)
    expand_unless (not config.enabled || is_empty c.hits) config c

  unfoldable pub manage_context_budget : Library → PipelineStepDefinition → Action W (Option String)
  manage_context_budget lib step = do
    maximum ← lift (context_budget_config step)
    c ← ask (λ c. c)
    built ← lift (build_context lib c.hits maximum)
    assign (λ c. record c {
      evidence = built.0;
      citations = built.1;
      context_chunk_ids = built.2;
      omitted_chunk_ids = built.3;
    })
    return none

  unfoldable pub require_evidence : PipelineStepDefinition → Action W (Option String)
  require_evidence step = do
    c ← ask (λ c. c)
    require (not (c.evidence == "" || is_empty c.citations))
        (bad_execution "The pipeline requires retrieved evidence")
    return none

  unfoldable pub with_disclaimer : PipelineContext W → PipelineContext W
  with_disclaimer c = if c.domain.disclaimer == "" then c else record c {
    answer = strip (concat_all (c.answer ∷ "\n\n---\n\n" ∷ c.domain.disclaimer ∷ []));
  }

  unfoldable pub finalize : PipelineStepDefinition → Action W (Option String)
  unfolding with_disclaimer
  finalize step = do assign with_disclaimer; return none
