-- ===== src/Services/Conversations.antt =====
-- `ConversationHistoryService` of sovereignflow/application/conversations.py. The repository is a
-- parameter; the hash of the subject names the rows that a caller may use.
pub mod Stored
pub mod Known
pub mod Kept
pub mod Isolated
use sovereign_flow.Prelude.{ℕ, String, Bool, List, [], Option, none, some, leb}
use sovereign_flow.Result.{Result, ok, err, validation, not_found}
use sovereign_flow.Effect.{Effect, return, throw, lift, ◌>>=◌, ◌>>◌, require}
use sovereign_flow.Library.{Library}
use sovereign_flow.Value.{Value}
use sovereign_flow.Domain.Chunk.{AuthorizationContext}
use sovereign_flow.Domain.Conversation.{
  Conversation, ConversationStatus, new_conversation, ConversationTurn, ConversationTurnStatus,
  new_turn, ConversationHistory,
}
use sovereign_flow.Pipeline.Context.{HistoryService}
use sovereign_flow.Storage.Conversations.{Owner}

-- `ConversationHistoryPort`; the tenant and the hash of the subject are the owner.
pub record ConversationRepository (W : Type 0) : Type 0 where
  pub create_conversation : Conversation → Effect W Conversation
  pub list_conversations : Owner → ℕ → Effect W (List Conversation)
  pub get_conversation : (conversation_id : String) → Owner → Effect W (Option Conversation)
  pub rename_conversation :
      (conversation_id : String) → Owner → (title : String) → Effect W (Option Conversation)
  pub delete_conversation : (conversation_id : String) → Owner → Effect W Bool
  pub start_turn : ConversationTurn → Effect W ConversationTurn
  pub finalize_turn :
      (conversation_id turn_id : String)
      → Owner
      → (answer_text : String) → List (String × Value)
      → Effect W (Option ConversationTurn)
  pub fail_turn :
      (conversation_id turn_id : String)
      → Owner
      → (error_code : String) → List (String × Value)
      → Effect W (Option ConversationTurn)
  pub list_turns : (conversation_id : String) → Owner → ℕ → Effect W (List ConversationTurn)
  pub recent_finalized_turns :
      (conversation_id : String) → Owner → ℕ → Effect W (List ConversationTurn)

unfoldable pub subject_hash : Library → AuthorizationContext → String
subject_hash lib authorization = lib.sha256 authorization.subject

abbrev pub owner_of : Library → AuthorizationContext → Owner
owner_of lib authorization = record {
  tenant_id = authorization.tenant_id;
  subject_hash = subject_hash lib authorization;
}

module _ {W : Type 0} where
  -- `_positive_limit`
  abbrev pub positive_limit : ℕ → Effect W (Unit {0})
  positive_limit limit = require (leb 1 limit) (validation "must be a positive integer")

  -- `if found is None: raise DomainNotFoundError(message)`
  unfoldable pub found : {A : Type 0} → String → Option A → Effect W A
  found message none = throw (not_found message)
  found message (some a) = return a

-- The service's fields: the repository, `id_factory`, and `_now`.
module _ {W : Type 0} (lib : Library) (repository : ConversationRepository W)
    (id_factory : Effect W String) (now : Effect W String) where
  unfoldable pub create :
      AuthorizationContext → (session_id domain title : String) → Effect W Conversation
  unfolding subject_hash
  create authorization session_id domain title = do
    conversation_id ← id_factory
    created_at ← now
    updated_at ← now
    let asked : Conversation = record {
      conversation_id = conversation_id;
      tenant_id = authorization.tenant_id;
      subject_hash = subject_hash lib authorization;
      session_id = session_id;
      domain = domain;
      title = title;
      status = ConversationStatus.active;
      created_at = created_at;
      updated_at = updated_at;
      deleted_at = none;
    }
    conversation ← lift (new_conversation asked)
    repository.create_conversation conversation

  -- The method `list`.
  unfoldable pub list_own : AuthorizationContext → (limit : ℕ) → Effect W (List Conversation)
  unfolding subject_hash
  list_own authorization limit = do
    positive_limit limit
    repository.list_conversations (owner_of lib authorization) limit

  -- `_require_conversation`
  unfoldable pub require_conversation : AuthorizationContext → String → Effect W Conversation
  unfolding subject_hash found
  require_conversation authorization conversation_id = do
    conversation ← repository.get_conversation conversation_id (owner_of lib authorization)
    found "Conversation was not found" conversation

  unfoldable pub get :
      AuthorizationContext
      → (conversation_id : String) → (turn_limit : ℕ) → Effect W ConversationHistory
  unfolding require_conversation
  get authorization conversation_id turn_limit = do
    positive_limit turn_limit
    conversation ← require_conversation authorization conversation_id
    turns ←
        repository.list_turns conversation.conversation_id (owner_of lib authorization) turn_limit
    return (record { conversation = conversation; turns = turns })

  unfoldable pub rename :
      AuthorizationContext → (conversation_id title : String) → Effect W Conversation
  unfolding subject_hash found
  rename authorization conversation_id title = do
    renamed ← repository.rename_conversation conversation_id (owner_of lib authorization) title
    found "Conversation was not found" renamed

  -- The method `delete`.
  unfoldable pub delete_own :
      AuthorizationContext → (conversation_id : String) → Effect W (Unit {0})
  unfolding subject_hash
  delete_own authorization conversation_id = do
    deleted ← repository.delete_conversation conversation_id (owner_of lib authorization)
    require deleted (not_found "Conversation was not found")

  unfoldable pub start_turn :
      AuthorizationContext
      → (conversation_id request_id question_text : String) → Effect W ConversationTurn
  unfolding require_conversation
  start_turn authorization conversation_id request_id question_text = do
    conversation ← require_conversation authorization conversation_id
    turn_id ← id_factory
    created_at ← now
    let asked : ConversationTurn = record {
      turn_id = turn_id;
      conversation_id = conversation_id;
      request_id = request_id;
      sequence_number = 1;
      question_text = question_text;
      status = ConversationTurnStatus.started;
      created_at = created_at;
      answer_text = none;
      finalized_at = none;
      error_code = none;
      metadata = [];
    }
    turn ← lift (new_turn asked)
    repository.start_turn turn

  unfoldable pub finalize_turn :
      AuthorizationContext
      → (conversation_id turn_id answer_text : String) → List (String × Value)
      → Effect W ConversationTurn
  unfolding subject_hash found
  finalize_turn authorization conversation_id turn_id answer_text metadata = do
    finalized ←
        repository.finalize_turn conversation_id turn_id (owner_of lib authorization) answer_text
          metadata
    found "Conversation turn was not found" finalized

  unfoldable pub fail_turn :
      AuthorizationContext
      → (conversation_id turn_id error_code : String) → List (String × Value)
      → Effect W ConversationTurn
  unfolding subject_hash found
  fail_turn authorization conversation_id turn_id error_code metadata = do
    failed ←
        repository.fail_turn conversation_id turn_id (owner_of lib authorization) error_code
          metadata
    found "Conversation turn was not found" failed

  unfoldable pub recent_finalized_turns :
      AuthorizationContext
      → (conversation_id : String) → (limit : ℕ) → Effect W (List ConversationTurn)
  unfolding subject_hash
  recent_finalized_turns authorization conversation_id limit = do
    positive_limit limit
    repository.recent_finalized_turns conversation_id (owner_of lib authorization) limit

  -- The service as the actions use it.
  abbrev pub history_service : HistoryService W
  history_service = record {
    get = get;
    create = create;
    start_turn = start_turn;
    finalize_turn = finalize_turn;
    fail_turn = fail_turn;
    recent_finalized_turns = recent_finalized_turns;
  }
