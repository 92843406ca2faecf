-- ===== src/Pipeline/Actions/Conversation.antt =====
-- sovereignflow/application/actions/resolve_conversation.py, start_conversation_turn.py,
-- load_conversation_history.py, finalize_conversation_turn.py and fail_conversation_turn.py.
pub mod Recalled
use sovereign_flow.Prelude.{
  ℕ, String, Bool, not, List, [], ◌∷◌, Option, none, some, ◌==◌, length, map,
}
use sovereign_flow.Prelude.Int.{pos}
use sovereign_flow.Result.{bad_execution}
use sovereign_flow.Effect.{return, throw, lift, require, ◌>>=◌, ◌>>◌}
use sovereign_flow.Value.{Value, from_list}
use sovereign_flow.Pipeline.Definition.{PipelineStepDefinition}
use sovereign_flow.Pipeline.Context.{
  PipelineContext, ActionState, Action, HistoryService, call, ask, assign,
}
use sovereign_flow.Pipeline.Actions.Config.{reject_unknown_config_keys}
use sovereign_flow.Pipeline.Actions.ConversationConfig.{
  ResolveConversationConfig, resolve_conversation_config, LoadConversationHistoryConfig,
  load_conversation_history_config,
}
use sovereign_flow.Pipeline.Actions.Dialog.{conversation_title, format_conversation_history}
use sovereign_flow.Services.Payload.{text_or_null}
use sovereign_flow.Pipeline.Engine.{fail_conversation_turn}

module _ {W : Type 0} where
  -- `_conversation_history_service`
  unfoldable pub history_service_of : Option (HistoryService W) → Action W (HistoryService W)
  history_service_of none = throw (bad_execution "Conversation history service is not configured")
  history_service_of (some service) = return service

  -- A value that a step before must have set.
  unfoldable pub present : {A : Type 0} → String → Option A → Action W A
  present message none = throw (bad_execution message)
  present message (some a) = return a

  abbrev pub set_conversation : String → Action W (Unit {0})
  set_conversation conversation_id =
      assign (λ c. record c { conversation_id = some conversation_id })

  -- The conversation that the command names, or a new one.
  unfoldable pub resolved :
      HistoryService W → ResolveConversationConfig → Option String → Action W (Option String)
  resolved service config (some conversation_id) = do
    c ← ask (λ c. c)
    history ← call (service.get c.command.authorization conversation_id 1)
    set_conversation history.conversation.conversation_id
    return none
  resolved service config none = do
    require config.create_if_missing (bad_execution "Conversation id is required by the pipeline")
    c ← ask (λ c. c)
    title ← lift (conversation_title config.title_source c.command.query)
    conversation ←
        call (service.create c.command.authorization c.command.session_id c.domain.name title)
    set_conversation conversation.conversation_id
    return none

  -- `ResolveConversationAction.execute`
  unfoldable pub resolve_conversation : PipelineStepDefinition → Action W (Option String)
  unfolding history_service_of resolved
  resolve_conversation step = do
    c ← ask (λ c. c)
    service ← history_service_of c.conversation_history
    config ← lift (resolve_conversation_config step)
    resolved service config c.command.conversation_id

  -- `validate_config` of the actions on turns.
  unfoldable pub no_config : PipelineStepDefinition → Action W (Unit {0})
  no_config step = lift (reject_unknown_config_keys step.config [])

  -- `StartConversationTurnAction.execute`
  unfoldable pub start_conversation_turn : PipelineStepDefinition → Action W (Option String)
  unfolding history_service_of present
  start_conversation_turn step = do
    c ← ask (λ c. c)
    conversation_id ←
        present "Conversation must be resolved before starting a turn" c.conversation_id
    service ← history_service_of c.conversation_history
    turn ← call (
        service.start_turn c.command.authorization conversation_id c.command.request_id
          c.command.query)
    assign (λ c. record c { conversation_turn_id = some turn.turn_id })
    return none

  -- `LoadConversationHistoryAction.execute`
  unfoldable pub load_conversation_history : PipelineStepDefinition → Action W (Option String)
  unfolding history_service_of present
  load_conversation_history step = do
    c ← ask (λ c. c)
    conversation_id ←
        present "Conversation must be resolved before loading history" c.conversation_id
    config ← lift (load_conversation_history_config step)
    service ← history_service_of c.conversation_history
    turns ←
        call (service.recent_finalized_turns c.command.authorization conversation_id config.limit)
    assign (λ c. record c {
      conversation_history_turns = turns;
      conversation_history_text = format_conversation_history config.max_characters turns;
    })
    return none

  -- `FinalizeConversationTurnAction.execute`
  unfoldable pub finalize_conversation_turn : PipelineStepDefinition → Action W (Option String)
  unfolding history_service_of present
  finalize_conversation_turn step = do
    c ← ask (λ c. c)
    conversation_id ←
        present "Conversation turn must be started before finalization" c.conversation_id
    turn_id ← present "Conversation turn must be started before finalization" c.conversation_turn_id
    require (not (c.answer == "")) (bad_execution "Conversation turn finalization requires answer")
    service ← history_service_of c.conversation_history
    turn ← call (
        service.finalize_turn c.command.authorization conversation_id turn_id c.answer (
          ("request_id", Value.str c.command.request_id)
          ∷ ("pipeline_trace", Value.sequence (from_list (map Value.str c.trace)))
          ∷ ("model_server_id", text_or_null c.model_transmission_final_server_id)
          ∷ ("citation_count", Value.int (pos (length c.citations)))
          ∷ []))
    assign (λ c. record c {
      conversation_turn_id = some turn.turn_id;
      conversation_turn_finalized = Bool.true;
    })
    return none

  -- `FailConversationTurnAction.execute`
  unfoldable pub mark_turn_failed : PipelineStepDefinition → Action W (Option String)
  unfolding fail_conversation_turn
  mark_turn_failed step = do fail_conversation_turn "pipeline_marked_failed"; return none
