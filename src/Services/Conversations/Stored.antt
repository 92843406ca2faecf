-- ===== src/Services/Conversations/Stored.antt =====
-- The conversation service over the PostgreSQL repository; the identifiers and the times that it
-- makes come from the state beside the store.
use sovereign_flow.Prelude.{true, false}
use sovereign_flow.Storage.Conversations.{
  HistoryStore, HistoryDatabase, create_conversation, list_conversations, get_conversation,
  rename_conversation, delete_conversation, start_turn, finalize_turn, fail_turn, turn_rows,
}
use sovereign_flow.Services.Conversations.{ConversationRepository}

-- `PostgreSQLConversationHistory` as the repository of the service.
abbrev pub postgres_history : HistoryDatabase → ConversationRepository HistoryStore
postgres_history db = record {
  create_conversation = create_conversation;
  list_conversations = list_conversations db;
  get_conversation = get_conversation;
  rename_conversation = rename_conversation db;
  delete_conversation = delete_conversation db;
  start_turn = start_turn;
  finalize_turn = finalize_turn db;
  fail_turn = fail_turn db;
  list_turns = turn_rows false;
  recent_finalized_turns = turn_rows true;
}
