-- ===== src/Pipeline/Actions/RetrieveConfig.antt =====
-- The configurations of sovereignflow/application/actions/retrieve.py, expand_graph.py and
-- manage_context_budget.py.
use sovereign_flow.Prelude.{
  ℕ, String, Bool, List, [], ◌∷◌, Option, none, some, ◌==◌, if◌then◌else◌, lookup, insert, mem,
}
use sovereign_flow.Result.{Result, ok, err, bad_definition, guard, ◌>>=◌, ◌>>◌}
use sovereign_flow.Value.{Value, entries, elements}
use sovereign_flow.Domain.Profile.{SearchMode, GraphDirection}
use sovereign_flow.Pipeline.Definition.{PipelineStepDefinition}
use sovereign_flow.Pipeline.Actions.Config.{
  config_get, reject_unknown_config_keys, non_empty_string, required_config_string,
  positive_config_integer, as_boolean,
}

pub record RetrieveConfig : Type 0 where
  pub query_source : String
  pub search_mode : SearchMode
  pub top_k : ℕ
  pub filters : List (String × Value)

-- `SearchMode(raw)`
unfoldable pub search_mode_of : String → Result SearchMode
search_mode_of raw =
    if raw == "semantic"
    then ok SearchMode.semantic
    else if raw == "bm25"
    then ok SearchMode.bm25
    else if raw == "hybrid"
    then ok SearchMode.hybrid
    else err (bad_definition "retrieve.search_mode is invalid")

unfoldable pub filters_of : Option Value → Result (List (String × Value))
filters_of none = ok []
filters_of (some (Value.mapping fields)) = ok (entries fields)
filters_of (some other) = err (bad_definition "retrieve.filters must be a mapping")

-- `_retrieve_config`
unfoldable pub retrieve_config : PipelineStepDefinition → Result RetrieveConfig
unfolding search_mode_of filters_of
retrieve_config step = do
  reject_unknown_config_keys step.config ("query_source" ∷ "search_mode" ∷ "top_k" ∷ "filters" ∷ [])
  source ← required_config_string step.config "query_source"
  guard (mem source ("normalized_query" ∷ "command_query" ∷ []))
      (bad_definition "retrieve.query_source is not allowed")
  raw ← required_config_string step.config "search_mode"
  mode ← search_mode_of raw
  filters ← filters_of (lookup "filters" step.config)
  top_k ← positive_config_integer step.config "top_k"
  ok (record { query_source = source; search_mode = mode; top_k = top_k; filters = filters })

-- `{**base, **over}`
abbrev pub merged : List (String × Value) → List (String × Value) → List (String × Value)
merged base [] = base
merged base ((key, value) ∷ over) = merged (insert key value base) over

pub record ExpandGraphConfig : Type 0 where
  pub enabled : Bool
  pub max_depth : ℕ
  pub max_nodes : ℕ
  pub direction : GraphDirection
  pub relationship_types : List String

-- `GraphDirection(raw)`
unfoldable pub graph_direction_of : String → Result GraphDirection
graph_direction_of raw =
    if raw == "outgoing"
    then ok GraphDirection.outgoing
    else if raw == "incoming"
    then ok GraphDirection.incoming
    else if raw == "both"
    then ok GraphDirection.both
    else err (bad_definition "expand_graph.direction is invalid")

unfoldable pub stripped_items : List Value → Result (List String)
stripped_items [] = ok []
stripped_items (item ∷ items) = do
  first ← non_empty_string item "expand_graph.relationship_types must be a list of strings"
  rest ← stripped_items items
  ok (first ∷ rest)

-- `_relationship_types`; a list is a tuple once it is frozen.
unfoldable pub relationship_types_of : Value → Result (List String)
unfolding stripped_items
relationship_types_of (Value.sequence items) = stripped_items (elements items)
relationship_types_of other =
    err (bad_definition "expand_graph.relationship_types must be a list of strings")

-- `_expand_graph_config`
unfoldable pub expand_graph_config : PipelineStepDefinition → Result ExpandGraphConfig
unfolding graph_direction_of relationship_types_of
expand_graph_config step = do
  reject_unknown_config_keys step.config
      ("enabled" ∷ "max_depth" ∷ "max_nodes" ∷ "direction" ∷ "relationship_types" ∷ [])
  enabled ← as_boolean (config_get step.config "enabled")
  raw ← required_config_string step.config "direction"
  direction ← graph_direction_of raw
  max_depth ← positive_config_integer step.config "max_depth"
  max_nodes ← positive_config_integer step.config "max_nodes"
  types ← relationship_types_of (config_get step.config "relationship_types")
  ok (record {
    enabled = enabled;
    max_depth = max_depth;
    max_nodes = max_nodes;
    direction = direction;
    relationship_types = types;
  })

-- `_context_budget_config`: the budget is all that it keeps.
unfoldable pub context_budget_config : PipelineStepDefinition → Result ℕ
context_budget_config step = do
  reject_unknown_config_keys step.config ("source" ∷ "target" ∷ "max_context_characters" ∷ [])
  source ← required_config_string step.config "source"
  target ← required_config_string step.config "target"
  guard (source == "hits") (bad_definition "manage_context_budget.source must be 'hits'")
  guard (target == "evidence") (bad_definition "manage_context_budget.target must be 'evidence'")
  positive_config_integer step.config "max_context_characters"
