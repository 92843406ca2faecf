-- ===== src/Domain/Conversation.antt =====
-- Conversations and their turns: sovereignflow/domain/models.py.
use sovereign_flow.Prelude.{ℕ, String, not, ◌||◌, List, Option, leb, is_some, is_none}
use sovereign_flow.Result.{Result, ok, validation, guard, ◌>>=◌, ◌>>◌}
use sovereign_flow.Text.Strip.{required}
use sovereign_flow.Value.{Value}
use sovereign_flow.Domain.Security.{required_option}

pub data ConversationStatus : Type 0 where
  active deleted : ConversationStatus

pub data ConversationTurnStatus : Type 0 where
  started finalized failed discarded : ConversationTurnStatus

pub record Conversation : Type 0 where
  pub conversation_id : String
  pub tenant_id : String
  pub subject_hash : String
  pub session_id : String
  pub domain : String
  pub title : String
  pub status : ConversationStatus
  pub created_at : String
  pub updated_at : String
  pub deleted_at : Option String

unfoldable pub check_conversation_status : ConversationStatus → Option String → Result (Unit {0})
check_conversation_status active deleted_at =
    guard (is_none deleted_at) (validation "Active conversation cannot define deleted_at")
check_conversation_status deleted deleted_at =
    guard (is_some deleted_at) (validation "Deleted conversation requires deleted_at")

unfoldable pub new_conversation : Conversation → Result Conversation
unfolding check_conversation_status
new_conversation c = do
  conversation_id ← required c.conversation_id "Conversation.conversation_id"
  tenant_id ← required c.tenant_id "Conversation.tenant_id"
  subject_hash ← required c.subject_hash "Conversation.subject_hash"
  session_id ← required c.session_id "Conversation.session_id"
  domain ← required c.domain "Conversation.domain"
  title ← required c.title "Conversation.title"
  created_at ← required c.created_at "Conversation.created_at"
  updated_at ← required c.updated_at "Conversation.updated_at"
  deleted_at ← required_option c.deleted_at "Conversation.deleted_at"
  check_conversation_status c.status deleted_at
  ok (record c {
    conversation_id = conversation_id;
    tenant_id = tenant_id;
    subject_hash = subject_hash;
    session_id = session_id;
    domain = domain;
    title = title;
    created_at = created_at;
    updated_at = updated_at;
    deleted_at = deleted_at;
  })

pub record ConversationTurn : Type 0 where
  pub turn_id : String
  pub conversation_id : String
  pub request_id : String
  pub sequence_number : ℕ
  pub question_text : String
  pub status : ConversationTurnStatus
  pub created_at : String
  pub answer_text : Option String
  pub finalized_at : Option String
  pub error_code : Option String
  pub metadata : List (String × Value)

-- What each status asks of the answer, the time of finalization and the error code.
unfoldable pub check_turn_status :
    ConversationTurnStatus → Option String → Option String → Option String → Result (Unit {0})
check_turn_status started answer finalized_at error_code = do
  guard (not (is_some answer || is_some finalized_at))
      (validation "Started conversation turn cannot be finalized")
  guard (is_none error_code) (validation "Started conversation turn cannot define error_code")
check_turn_status finalized answer finalized_at error_code = do
  guard (not (is_none answer || is_none finalized_at))
      (validation "Finalized conversation turn requires answer and finalized_at")
  guard (is_none error_code) (validation "Finalized conversation turn cannot define error_code")
check_turn_status failed answer finalized_at error_code = do
  guard (is_none answer) (validation "Unsuccessful conversation turn cannot define answer")
  guard (is_some finalized_at) (validation "Unsuccessful conversation turn requires finalized_at")
  guard (is_some error_code) (validation "Failed conversation turn requires error_code")
check_turn_status discarded answer finalized_at error_code = do
  guard (is_none answer) (validation "Unsuccessful conversation turn cannot define answer")
  guard (is_some finalized_at) (validation "Unsuccessful conversation turn requires finalized_at")

unfoldable pub new_turn : ConversationTurn → Result ConversationTurn
unfolding check_turn_status
new_turn t = do
  turn_id ← required t.turn_id "ConversationTurn.turn_id"
  conversation_id ← required t.conversation_id "ConversationTurn.conversation_id"
  request_id ← required t.request_id "ConversationTurn.request_id"
  question_text ← required t.question_text "ConversationTurn.question_text"
  created_at ← required t.created_at "ConversationTurn.created_at"
  guard (leb 1 t.sequence_number) (validation "ConversationTurn.sequence_number must be positive")
  answer_text ← required_option t.answer_text "ConversationTurn.answer_text"
  finalized_at ← required_option t.finalized_at "ConversationTurn.finalized_at"
  error_code ← required_option t.error_code "ConversationTurn.error_code"
  check_turn_status t.status answer_text finalized_at error_code
  ok (record t {
    turn_id = turn_id;
    conversation_id = conversation_id;
    request_id = request_id;
    question_text = question_text;
    created_at = created_at;
    answer_text = answer_text;
    finalized_at = finalized_at;
    error_code = error_code;
  })

pub record ConversationHistory : Type 0 where
  pub conversation : Conversation
  pub turns : List ConversationTurn
