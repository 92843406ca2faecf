-- ===== src/Tests/Conversations.antt =====
-- The theorems on conversations, at a conversation of another subject and at a history of one turn.
use sovereign_flow.Prelude.{String, ◌≡◌, refl, false, [], ◌∷◌, none, some, All, keep}
use sovereign_flow.Prelude.Int.{pos}
use sovereign_flow.Result.{ok}
use sovereign_flow.Effect.{Effect}
use sovereign_flow.Value.{Value}
use sovereign_flow.Text.Strip.{strip}
use sovereign_flow.Text.Words.{join, text_length}
use sovereign_flow.Domain.Conversation.{
  Conversation, ConversationStatus, ConversationTurn, ConversationTurnStatus,
}
use sovereign_flow.Pipeline.Definition.{PipelineStepDefinition}
use sovereign_flow.Pipeline.Context.{ActionState, HistoryService}
use sovereign_flow.Pipeline.Actions.Config.{
  reject_unknown_config_keys, required_config_string, non_empty_string, config_get, or_null,
  positive_config_integer, positive_integer, optional_boolean, boolean_or,
}
use sovereign_flow.Pipeline.Actions.ConversationConfig.{load_conversation_history_config}
use sovereign_flow.Pipeline.Actions.Dialog.{
  rendered, selected, reversed, format_conversation_history,
}
use sovereign_flow.Pipeline.Actions.Conversation.{
  history_service_of, present, load_conversation_history,
}
use sovereign_flow.Pipeline.Actions.Conversation.Recalled.{IsRecalled, load-IsRecalled}
use sovereign_flow.Storage.Conversations.{HistoryStore, HistoryDatabase, of_id, of_conversation}
use sovereign_flow.Storage.Conversations.Left.{IsStripped}
use sovereign_flow.Services.Conversations.{subject_hash}
use sovereign_flow.Services.Conversations.Kept.{LeavesTables}
use sovereign_flow.Services.Conversations.Isolated.{Request, after_request, request-isolated}
use sovereign_flow.Tests.Data.{caller, context, library}

abbrev conversation : Conversation
conversation = record {
  conversation_id = "c1";
  tenant_id = "acme";
  subject_hash = "bob";
  session_id = "s1";
  domain = "hr";
  title = "Leave";
  status = ConversationStatus.active;
  created_at = "2026";
  updated_at = "2026";
  deleted_at = none;
}

abbrev turn : ConversationTurn
turn = record {
  turn_id = "t1";
  conversation_id = "c1";
  request_id = "r1";
  sequence_number = 1;
  question_text = "How much?";
  status = ConversationTurnStatus.finalized;
  created_at = "2026";
  answer_text = some "Thirty days";
  finalized_at = some "2026";
  error_code = none;
  metadata = [];
}

abbrev store : HistoryStore
store = record { conversations = conversation ∷ []; turns = turn ∷ []; ticks = 0 }

abbrev db : HistoryDatabase
db = record { clock = λ n. "2026"; earlier = λ s t. false; jsonb = λ metadata. ok metadata }

abbrev made : Effect HistoryStore String
made s = (ok "new", s)

made-LeavesTables : LeavesTables made
made-LeavesTables = record { conversations = λ s. refl; turns = λ s. refl }

stripped : All IsStripped store.conversations
unfolding strip
stripped = (refl, tt)

request-isolated_example :
    (keep
        (of_id "c1")
        (after_request library db made made caller (Request.deleting "c1") store).conversations
      ≡ conversation ∷ [])
    × (keep
          (of_conversation "c1")
          (after_request library db made made caller (Request.deleting "c1") store).turns
        ≡ turn ∷ [])
unfolding subject_hash
request-isolated_example =
    request-isolated library db made made caller (Request.deleting "c1") "c1" store
      made-LeavesTables made-LeavesTables stripped refl refl

abbrev history : HistoryService (Unit {0})
history = record {
  get = λ a i n w. (ok (record { conversation = conversation; turns = [] }), w);
  create = λ a s d t w. (ok conversation, w);
  start_turn = λ a i r q w. (ok turn, w);
  finalize_turn = λ a i t answer metadata w. (ok turn, w);
  fail_turn = λ a i t code metadata w. (ok turn, w);
  recent_finalized_turns = λ a i n w. (ok (turn ∷ []), w);
}

abbrev recall_step : PipelineStepDefinition
recall_step = record {
  step_id = "recall";
  action = "load_conversation_history";
  action_version = "1";
  next_step_id = some "search";
  routes = [];
  terminal = false;
  config =
      ("limit", Value.int (pos 3))
      ∷ ("max_characters", Value.int (pos 100))
      ∷ ("format", Value.str "dialog")
      ∷ [];
}

abbrev begun : ActionState (Unit {0})
begun = record {
  context = record context { conversation_history = some history; conversation_id = some "c1" };
  world = tt;
}

abbrev recalled : ActionState (Unit {0})
recalled = record begun {
  context = record begun.context {
    conversation_history_turns = turn ∷ [];
    conversation_history_text = "User: How much?\nAssistant: Thirty days";
  };
}

history_loaded : load_conversation_history recall_step begun ≡ (ok none, recalled)
unfolding load_conversation_history history_service_of present load_conversation_history_config
    reject_unknown_config_keys required_config_string non_empty_string config_get or_null
    positive_config_integer positive_integer optional_boolean boolean_or format_conversation_history
    selected rendered reversed join strip text_length
history_loaded = refl

load-IsRecalled_example : IsRecalled recall_step begun recalled
load-IsRecalled_example = load-IsRecalled recall_step begun recalled none history_loaded
