-- ===== src/Tests/Retrieval.antt =====
-- The theorems on the retrieving actions, at concrete inputs.
use sovereign_flow.Prelude.{◌≡◌, refl, true, false, [], ◌∷◌, none, some}
use sovereign_flow.Prelude.Int.{pos}
use sovereign_flow.Result.{ok}
use sovereign_flow.Value.{Value, Items}
use sovereign_flow.Text.Strip.{strip, required}
use sovereign_flow.Text.Order.{sorted_set, set_insert}
use sovereign_flow.Text.Normal.{required_all, normalized_values}
use sovereign_flow.Text.Words.{collapse_spaces}
use sovereign_flow.Domain.Security.{
  document_visible_to_subject, visible_by_kind, clearance_decision, clearance_value, level_at,
}
use sovereign_flow.Domain.Profile.{new_search_request, new_graph_request}
use sovereign_flow.Pipeline.Definition.{PipelineStepDefinition}
use sovereign_flow.Pipeline.Context.{ActionState}
use sovereign_flow.Pipeline.Actions.Config.{
  reject_unknown_config_keys, required_config_string, non_empty_string, config_get, or_null,
  positive_config_integer, positive_integer, as_boolean,
}
use sovereign_flow.Pipeline.Actions.Boundary.{
  verify_chunk, verify_retrieval_boundary, verify-IsReadable,
}
use sovereign_flow.Pipeline.Actions.RetrieveConfig.{
  retrieve_config, search_mode_of, filters_of, expand_graph_config, graph_direction_of,
  relationship_types_of, stripped_items,
}
use sovereign_flow.Pipeline.Actions.Retrieve.{
  guard_query, retrieval_query, search_request, retrieve, by_chunk_id, with_defaults, united,
  graph_request, expanded, expand_unless, expand_graph,
}
use sovereign_flow.Pipeline.Actions.Retrieve.Readable.{
  Readable, retrieve-Readable, expand_graph-Readable,
}
use sovereign_flow.Tests.Data.{context, state, library, hits, hit, domain, caller}

abbrev retrieve_step : PipelineStepDefinition
retrieve_step = record {
  step_id = "search";
  action = "retrieve";
  action_version = "1";
  next_step_id = some "expand";
  routes = [];
  terminal = false;
  config =
      ("query_source", Value.str "command_query")
      ∷ ("search_mode", Value.str "hybrid")
      ∷ ("top_k", Value.int (pos 4))
      ∷ [];
}

abbrev retrieved : ActionState (Unit {0})
retrieved = record {
  context = record context {
    seed_hits = hits;
    hits = hits;
    retrieval_queries_asked_norm = "How much leave is there?" ∷ [];
  };
  world = tt;
}

searched : retrieve library retrieve_step state ≡ (ok none, retrieved)
unfolding retrieve retrieve_config search_mode_of filters_of reject_unknown_config_keys
    required_config_string non_empty_string config_get or_null positive_config_integer
    positive_integer retrieval_query search_request guard_query collapse_spaces new_search_request
    required strip normalized_values required_all sorted_set set_insert verify_retrieval_boundary
    verify_chunk document_visible_to_subject visible_by_kind clearance_decision clearance_value
    level_at
searched = refl

retrieve-Readable_example :
    Readable retrieved.context retrieved.context.seed_hits
    × Readable retrieved.context retrieved.context.hits
retrieve-Readable_example = retrieve-Readable library retrieve_step state retrieved none searched

abbrev expand_step : PipelineStepDefinition
expand_step = record {
  step_id = "expand";
  action = "expand_graph";
  action_version = "1";
  next_step_id = some "finish";
  routes = [];
  terminal = false;
  config =
      ("enabled", Value.bool true)
      ∷ ("max_depth", Value.int (pos 2))
      ∷ ("max_nodes", Value.int (pos 9))
      ∷ ("direction", Value.str "both")
      ∷ ("relationship_types", Value.sequence (Items.cons (Value.str "cites") Items.nil))
      ∷ [];
}

-- The graph knows one more chunk.
abbrev seeded : ActionState (Unit {0})
seeded = record {
  context = record context {
    graph = λ request w. (ok (hit "c3" "public" ∷ []), w);
    seed_hits = hits;
  };
  world = tt;
}

abbrev grown : ActionState (Unit {0})
grown = record {
  context = record context {
    graph = λ request w. (ok (hit "c3" "public" ∷ []), w);
    seed_hits = hits;
    graph_hits = hit "c3" "public" ∷ [];
    hits = hit "c1" "public" ∷ hit "c2" "secret" ∷ hit "c3" "public" ∷ [];
  };
  world = tt;
}

hits_pass : verify_retrieval_boundary domain caller hits ≡ ok tt
unfolding verify_retrieval_boundary verify_chunk document_visible_to_subject visible_by_kind
    clearance_decision clearance_value level_at required strip
hits_pass = refl

grew : expand_graph expand_step seeded ≡ (ok none, grown)
unfolding expand_graph expand_unless expanded graph_request united by_chunk_id with_defaults
    expand_graph_config graph_direction_of relationship_types_of stripped_items
    reject_unknown_config_keys required_config_string non_empty_string config_get or_null
    positive_config_integer positive_integer as_boolean new_graph_request required strip
    normalized_values required_all sorted_set set_insert verify_retrieval_boundary verify_chunk
    document_visible_to_subject visible_by_kind clearance_decision clearance_value level_at
grew = refl

expand_graph-Readable_example : Readable grown.context grown.context.hits
expand_graph-Readable_example =
    expand_graph-Readable expand_step seeded grown none grew
      (verify-IsReadable domain caller hits hits_pass)
      (verify-IsReadable domain caller hits hits_pass)
