-- ===== src/Pipeline/Actions/CallModelConfig.antt =====
-- The configuration of sovereignflow/application/actions/call_model.py.
use sovereign_flow.Prelude.{
  ℕ, String, Bool, true, false, not, ◌&&◌, ◌*◌, ◌^◌, List, [], ◌∷◌, ◌++◌, Option, none, some, ◌==◌,
  ltb, if◌then◌else◌, lookup, keys, mem, difference, is_empty, is_some,
}
use sovereign_flow.Prelude.Int.{pos, negsuc}
use sovereign_flow.Result.{Result, ok, err, bad_definition, guard, ◌>>=◌, ◌>>◌}
use sovereign_flow.Text.Strip.{strip}
use sovereign_flow.Text.Words.{contains_text}
use sovereign_flow.Value.{Value, Float, finite, infinity, nan, entries}
use sovereign_flow.Pipeline.Definition.{PipelineStepDefinition}
use sovereign_flow.Pipeline.Actions.Config.{
  config_get, reject_unknown_config_keys, required_config_string, non_empty_string,
  positive_integer, optional_boolean,
}

pub record UserPromptPart : Type 0 where
  pub name : String
  pub source : String
  pub template : String

pub record CallModelConfig : Type 0 where
  pub prompt_key : String
  pub user_parts : List UserPromptPart
  pub generation_parameters : List (String × Value)
  pub use_history : Bool
  pub history_source : Option String

abbrev pub user_part_sources : List String
user_part_sources =
    "normalized_query" ∷ "evidence" ∷ "context_chunk_ids" ∷ "citations_text"
    ∷ "retrieval_trace_summary" ∷ "conversation_history" ∷ []

-- A template is not stripped.
unfoldable pub user_part_template : Value → Result String
user_part_template (Value.str s) =
    if s == "" then err (bad_definition "must be a non-empty string") else ok s
user_part_template other = err (bad_definition "must be a non-empty string")

-- `normalized < minimum or normalized > maximum`, with `minimum` zero; a NaN is neither.
unfoldable pub outside : Float → ℕ → Bool
outside (finite (pos n) e) maximum = ltb (maximum * 2 ^ e) n
outside (finite (negsuc n) e) maximum = true
outside (infinity negative) maximum = true
outside nan maximum = false

unfoldable pub as_number : Value → Result Float
as_number (Value.int n) = ok (finite n 0)
as_number (Value.float x) = ok x
as_number other = err (bad_definition "must be a number")

-- `_bounded_number` with `minimum` zero.
unfoldable pub bounded_number : Value → ℕ → Result Value
unfolding as_number outside
bounded_number value maximum = do
  number ← as_number value
  guard (not (outside number maximum)) (bad_definition "must be between the bounds")
  ok (Value.float number)

-- A parameter that is set only where the step has its key.
unfoldable pub optional_parameter :
    Option Value → String → (Value → Result Value) → Result (List (String × Value))
optional_parameter none name check = ok []
optional_parameter (some v) name check = do v' ← check v; ok ((name, v') ∷ [])

unfoldable pub token_limit : Value → Result Value
token_limit v = do n ← positive_integer v; ok (Value.int (pos n))

unfoldable pub generation_parameters : List (String × Value) → Result (List (String × Value))
unfolding optional_parameter token_limit bounded_number
generation_parameters config = do
  guard (not (is_some (lookup "max_tokens" config) && is_some (lookup "max_output_tokens" config)))
      (bad_definition "cannot define both max_tokens and max_output_tokens")
  temperature ←
      optional_parameter (lookup "temperature" config) "temperature" (λ v. bounded_number v 2)
  top_p ← optional_parameter (lookup "top_p" config) "top_p" (λ v. bounded_number v 1)
  max_tokens ← optional_parameter (lookup "max_tokens" config) "max_tokens" token_limit
  max_output ← optional_parameter (lookup "max_output_tokens" config) "max_tokens" token_limit
  ok (temperature ++ (top_p ++ (max_tokens ++ max_output)))

unfoldable pub user_part : Bool → String → List (String × Value) → Result UserPromptPart
unfolding user_part_template
user_part use_history name part = do
  guard (is_empty (difference (keys part) ("source" ∷ "template" ∷ [])))
      (bad_definition "has unsupported fields")
  source ← non_empty_string (config_get part "source") "must be a non-empty string"
  guard (mem source user_part_sources) (bad_definition "source is not allowed")
  guard (not (source == "conversation_history" && not use_history))
      (bad_definition "requires use_history=true")
  template ← user_part_template (config_get part "template")
  guard (contains_text "{}" template) (bad_definition "template must contain {}")
  ok (record { name = strip name; source = source; template = template })

unfoldable pub user_part_fields : Value → Result (List (String × Value))
user_part_fields (Value.mapping fs) = ok (entries fs)
user_part_fields other = err (bad_definition "must be a mapping")

unfoldable pub user_parts : Bool → List (String × Value) → Result (List UserPromptPart)
unfolding user_part user_part_fields
user_parts use_history [] = ok []
user_parts use_history ((name, raw) ∷ rest) = do
  fields ← user_part_fields raw
  part ← user_part use_history name fields
  parts ← user_parts use_history rest
  ok (part ∷ parts)

-- The history source is read only where the key has a value.
unfoldable pub history_source_of : List (String × Value) → Value → Result (Option String)
history_source_of config Value.null = ok none
history_source_of config other = do
  source ← required_config_string config "history_source"
  ok (some source)

-- `history_source == "conversation_history"`
unfoldable pub is_history : Option String → Bool
is_history none = false
is_history (some source) = source == "conversation_history"

unfoldable pub call_model_config : PipelineStepDefinition → Result CallModelConfig
unfolding user_parts generation_parameters history_source_of is_history
call_model_config step = do
  let config = step.config
  reject_unknown_config_keys config (
      "prompt_key" ∷ "user_parts" ∷ "temperature" ∷ "top_p" ∷ "max_tokens" ∷ "max_output_tokens"
      ∷ "use_history" ∷ "history_source" ∷ [])
  prompt_key ← required_config_string config "prompt_key"
  use_history ← optional_boolean config "use_history" false
  history_source ← history_source_of config (config_get config "history_source")
  guard (not (use_history && not (is_history history_source)))
      (bad_definition "history_source must be conversation_history")
  guard (not (not use_history && is_some history_source))
      (bad_definition "history_source requires use_history=true")
  raw_parts ← user_part_fields (config_get config "user_parts")
  guard (not (is_empty raw_parts)) (bad_definition "user_parts must be a non-empty mapping")
  parts ← user_parts use_history raw_parts
  parameters ← generation_parameters config
  ok (record {
    prompt_key = prompt_key;
    user_parts = parts;
    generation_parameters = parameters;
    use_history = use_history;
    history_source = history_source;
  })
