-- ===== src/Pipeline/Actions/ConversationConfig.antt =====
-- The configurations of sovereignflow/application/actions/resolve_conversation.py and
-- load_conversation_history.py.
use sovereign_flow.Prelude.{ℕ, String, Bool, not, [], ◌∷◌, ◌==◌}
use sovereign_flow.Result.{Result, ok, bad_definition, guard, ◌>>=◌, ◌>>◌}
use sovereign_flow.Pipeline.Definition.{PipelineStepDefinition}
use sovereign_flow.Pipeline.Actions.Config.{
  config_get, as_boolean, optional_boolean, reject_unknown_config_keys, required_config_string,
  positive_config_integer,
}

pub record ResolveConversationConfig : Type 0 where
  pub conversation_id_source : String
  pub create_if_missing : Bool
  pub title_source : String

-- `_resolve_conversation_config`
unfoldable pub resolve_conversation_config :
    PipelineStepDefinition → Result ResolveConversationConfig
resolve_conversation_config step = do
  reject_unknown_config_keys step.config
      ("conversation_id_source" ∷ "create_if_missing" ∷ "title_source" ∷ [])
  source ← required_config_string step.config "conversation_id_source"
  guard (source == "request")
      (bad_definition "resolve_conversation.conversation_id_source is not allowed")
  create_if_missing ← as_boolean (config_get step.config "create_if_missing")
  title_source ← required_config_string step.config "title_source"
  guard (title_source == "query")
      (bad_definition "resolve_conversation.title_source is not allowed")
  ok (record {
    conversation_id_source = source;
    create_if_missing = create_if_missing;
    title_source = title_source;
  })

pub record LoadConversationHistoryConfig : Type 0 where
  pub limit : ℕ
  pub max_characters : ℕ
  pub include_failed : Bool
  pub history_format : String

-- `_load_conversation_history_config`
unfoldable pub load_conversation_history_config :
    PipelineStepDefinition → Result LoadConversationHistoryConfig
load_conversation_history_config step = do
  reject_unknown_config_keys step.config
      ("limit" ∷ "max_characters" ∷ "include_failed" ∷ "format" ∷ [])
  include_failed ← optional_boolean step.config "include_failed" Bool.false
  guard (not include_failed)
      (bad_definition "load_conversation_history.include_failed cannot be true")
  history_format ← required_config_string step.config "format"
  guard (history_format == "dialog")
      (bad_definition "load_conversation_history.format is not allowed")
  limit ← positive_config_integer step.config "limit"
  max_characters ← positive_config_integer step.config "max_characters"
  ok (record {
    limit = limit;
    max_characters = max_characters;
    include_failed = include_failed;
    history_format = history_format;
  })
