-- ===== src/Services/Conversations/Isolated.antt =====
-- What a caller cannot reach: conversations of others, and deleted ones.
use sovereign_flow.Prelude.{
  ℕ, String, ◌≡◌, refl, sym, ◌∙◌, Bool, true, false, List, arith, keep, All, is_empty, not,
}
use sovereign_flow.Effect.{Effect}
use sovereign_flow.Effect.Keeps.{>>-Keeps}
use sovereign_flow.Library.{Library}
use sovereign_flow.Value.{Value}
use sovereign_flow.Domain.Chunk.{AuthorizationContext}
use sovereign_flow.Domain.Conversation.{Conversation, ConversationTurn}
use sovereign_flow.Storage.Tables.{any_row}
use sovereign_flow.Storage.Conversations.{
  HistoryStore, HistoryDatabase, Owner, of_id, of_owner, of_conversation,
}
use sovereign_flow.Storage.Conversations.Foreign.{owned-keep, held-keep}
use sovereign_flow.Storage.Conversations.Left.{IsForeign, IsStripped, list-Keeps, rows-Keeps}
use sovereign_flow.Services.Conversations.{
  owner_of, create, list_own, get, rename, delete_own, start_turn, finalize_turn, fail_turn,
  recent_finalized_turns,
}
use sovereign_flow.Services.Conversations.Stored.{postgres_history}
use sovereign_flow.Services.Conversations.Kept.{
  LeavesTables, limit-Keeps, create_own-Keeps, start_own-Keeps, get_own-Keeps, rename_own-Keeps,
  delete_own-Keeps, finalize_own-Keeps, fail_own-Keeps,
}

-- A method of the service, with its arguments.
pub data Request : Type 0 where
  creating : (session_id domain title : String) → Request
  listing : (limit : ℕ) → Request
  getting : (conversation_id : String) → (turn_limit : ℕ) → Request
  renaming : (conversation_id title : String) → Request
  deleting : (conversation_id : String) → Request
  starting : (conversation_id request_id question_text : String) → Request
  finalizing : (conversation_id turn_id answer_text : String) → List (String × Value) → Request
  failing : (conversation_id turn_id error_code : String) → List (String × Value) → Request
  recalling : (conversation_id : String) → (limit : ℕ) → Request

module _ (lib : Library) (db : HistoryDatabase) (id_factory now : Effect HistoryStore String)
    (authorization : AuthorizationContext) where
  -- The store after a call of the service, whether it returned or raised.
  unfoldable pub after_request : Request → HistoryStore → HistoryStore
  unfolding create list_own get rename delete_own start_turn finalize_turn fail_turn
      recent_finalized_turns
  after_request (Request.creating session_id domain title) s =
      (create lib (postgres_history db) id_factory now authorization session_id domain title s).1
  after_request (Request.listing limit) s =
      (list_own lib (postgres_history db) id_factory now authorization limit s).1
  after_request (Request.getting conversation_id turn_limit) s =
      (get lib (postgres_history db) id_factory now authorization conversation_id turn_limit s).1
  after_request (Request.renaming conversation_id title) s =
      (rename lib (postgres_history db) id_factory now authorization conversation_id title s).1
  after_request (Request.deleting conversation_id) s =
      (delete_own lib (postgres_history db) id_factory now authorization conversation_id s).1
  after_request (Request.starting conversation_id request_id question_text) s =
      (start_turn lib (postgres_history db) id_factory now authorization conversation_id request_id
        question_text s).1
  after_request (Request.finalizing conversation_id turn_id answer_text metadata) s =
      (finalize_turn lib (postgres_history db) id_factory now authorization conversation_id turn_id
        answer_text metadata s).1
  after_request (Request.failing conversation_id turn_id error_code metadata) s =
      (fail_turn lib (postgres_history db) id_factory now authorization conversation_id turn_id
        error_code metadata s).1
  after_request (Request.recalling conversation_id limit) s =
      (recent_finalized_turns lib (postgres_history db) id_factory now authorization conversation_id
        limit s).1

  module _ (c : String) (rows : List Conversation) (turns : List ConversationTurn) where
    abbrev o : Owner
    o = owner_of lib authorization

    abbrev I : HistoryStore → Type 0
    I = IsForeign c o rows turns

    request-Keeps :
        (request : Request) (s : HistoryStore)
        → LeavesTables id_factory
        → LeavesTables now
        → I s
        → I (after_request request s)
    unfolding after_request list_own recent_finalized_turns
    request-Keeps (Request.creating session_id domain title) s ids times h =
        (create_own-Keeps lib db id_factory now authorization c rows turns session_id domain title
            ids times).after
          s h
    request-Keeps (Request.listing limit) s ids times h =
        (>>-Keeps I _ _ (limit-Keeps lib db id_factory now authorization c rows turns limit)
            (list-Keeps c o rows turns db limit)).after
          s h
    request-Keeps (Request.getting d limit) s ids times h =
        (get_own-Keeps lib db id_factory now authorization c rows turns d limit).after s h
    request-Keeps (Request.renaming d title) s ids times h =
        (rename_own-Keeps lib db id_factory now authorization c rows turns d title).after s h
    request-Keeps (Request.deleting d) s ids times h =
        (delete_own-Keeps lib db id_factory now authorization c rows turns d).after s h
    request-Keeps (Request.starting d request_id question_text) s ids times h =
        (start_own-Keeps lib db id_factory now authorization c rows turns d request_id question_text
            ids times).after
          s h
    request-Keeps (Request.finalizing d turn_id answer metadata) s ids times h =
        (finalize_own-Keeps lib db id_factory now authorization c rows turns d turn_id answer
            metadata).after
          s h
    request-Keeps (Request.failing d turn_id code metadata) s ids times h =
        (fail_own-Keeps lib db id_factory now authorization c rows turns d turn_id code
            metadata).after
          s h
    request-Keeps (Request.recalling d limit) s ids times h =
        (>>-Keeps I _ _ (limit-Keeps lib db id_factory now authorization c rows turns limit)
            (rows-Keeps c o rows turns true d limit)).after
          s h

  -- Whatever a caller asks the service for, and whether it returns or raises: a conversation in the
  -- table that is not an active one of the caller keeps its row and its turns as they are, provided
  -- that identifiers are stored without spaces around them and that making identifiers and times
  -- leaves the tables.
  pub request-isolated :
      (request : Request) (c : String) (s : HistoryStore)
      → LeavesTables id_factory
      → LeavesTables now
      → All IsStripped s.conversations
      → any_row (of_id c) s.conversations ≡ true
      → any_row (of_owner c (owner_of lib authorization)) s.conversations ≡ false
      → (keep (of_id c) (after_request request s).conversations ≡ keep (of_id c) s.conversations)
        × (keep (of_conversation c) (after_request request s).turns
            ≡ keep (of_conversation c) s.turns)
  request-isolated request c s ids times bare held other =
      let rows = keep (of_id c) s.conversations in
      let turns = keep (of_conversation c) s.turns in
      let h = request-Keeps c rows turns request s ids times (record {
        rows_are = refl;
        turns_are = refl;
        held =
            not_true (is_empty rows)
              (sym (held-keep c (owner_of lib authorization) s.conversations) ∙ held);
        foreign = sym (owned-keep c (owner_of lib authorization) s.conversations) ∙ other;
        stripped = bare;
      }) in
      (h.rows_are, h.turns_are)
    where
      not_true : (b : Bool) → not b ≡ true → b ≡ false
      not_true b e = ground arith
