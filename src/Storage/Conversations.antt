-- ===== src/Storage/Conversations.antt =====
-- `PostgreSQLConversationHistory` of sovereignflow/infrastructure/conversations.py, over the rows of
-- its tables. A connection that fails is not modelled; of the constraints, the primary keys are.
pub mod Foreign
pub mod Left
use mathlib.Core.Option
use sovereign_flow.Prelude.{
  ℕ, zero, suc, ◌+◌, String, Bool, not, ◌&&◌, ◌||◌, List, [], ◌∷◌, ◌++◌, Option, none, some, ◌==◌,
  leb, ltb, if◌then◌else◌, keep, map, is_some,
}
use sovereign_flow.Result.{Error, raised, ErrorClass, Result, ok, err}
use sovereign_flow.Effect.{Effect, return, throw, lift, gets, modify, ◌>>=◌, ◌>>◌, require}
use sovereign_flow.Text.Words.{text_take}
use sovereign_flow.Value.{Value}
use sovereign_flow.Domain.Conversation.{
  Conversation, ConversationStatus, new_conversation, ConversationTurn, ConversationTurnStatus,
  new_turn,
}
use sovereign_flow.Services.Payload.{sorted_by}
use sovereign_flow.Storage.Tables.{first_row, any_row, update_rows}

-- `sf.conversations` and `sf.conversation_turns`, and how often `NOW()` was read.
pub record HistoryStore : Type 0 where
  pub conversations : List Conversation
  pub turns : List ConversationTurn
  pub ticks : ℕ

-- What the database decides: the n-th `NOW()`, whether one time is before another, and what a
-- `jsonb` column holds of the metadata that `json.dumps` serializes, if it does.
pub record HistoryDatabase : Type 0 where
  pub clock : ℕ → String
  pub earlier : String → String → Bool
  pub jsonb : List (String × Value) → Result (List (String × Value))

-- The tenant and the hash of the subject, by which the rows are selected.
pub record Owner : Type 0 where
  pub tenant_id : String
  pub subject_hash : String

abbrev pub unavailable : String → Error
unavailable m = raised ErrorClass.dependency_unavailable m

abbrev pub is_active : ConversationStatus → Bool
is_active ConversationStatus.active = Bool.true
is_active ConversationStatus.deleted = Bool.false

abbrev pub of_id : String → Conversation → Bool
of_id conversation_id c = c.conversation_id == conversation_id

-- `tenant_id = %s AND subject_hash = %s AND status = 'active'`
abbrev pub is_owned : Owner → Conversation → Bool
is_owned o c =
    c.tenant_id == o.tenant_id && (c.subject_hash == o.subject_hash && is_active c.status)

abbrev pub of_owner : String → Owner → Conversation → Bool
of_owner conversation_id o c = of_id conversation_id c && is_owned o c

-- `SELECT ... LIMIT n`
unfoldable pub limited : {A : Type 0} → ℕ → List A → List A
limited zero xs = []
limited (suc n) [] = []
limited (suc n) (x ∷ xs) = x ∷ limited n xs

-- `_conversation_from_row` and `_turn_from_row` make what the row says.
unfoldable pub conversation_of : Option Conversation → Effect HistoryStore (Option Conversation)
conversation_of none = return none
conversation_of (some row) = do
  conversation ← lift (new_conversation row)
  return (some conversation)

unfoldable pub turn_of : Option ConversationTurn → Effect HistoryStore (Option ConversationTurn)
turn_of none = return none
turn_of (some row) = do turn ← lift (new_turn row); return (some turn)

unfoldable pub conversations_of : List Conversation → Effect HistoryStore (List Conversation)
conversations_of [] = return []
conversations_of (row ∷ rows) = do
  conversation ← lift (new_conversation row)
  conversations ← conversations_of rows
  return (conversation ∷ conversations)

unfoldable pub turns_of : List ConversationTurn → Effect HistoryStore (List ConversationTurn)
turns_of [] = return []
turns_of (row ∷ rows) = do turn ← lift (new_turn row); turns ← turns_of rows; return (turn ∷ turns)

unfoldable pub create_conversation : Conversation → Effect HistoryStore Conversation
create_conversation c = do
  taken ← gets (λ s. any_row (of_id c.conversation_id) s.conversations)
  require (not taken) (unavailable "PostgreSQL conversation create failed")
  modify (λ s. record s { conversations = s.conversations ++ c ∷ [] })
  lift (new_conversation c)

unfoldable pub get_conversation : String → Owner → Effect HistoryStore (Option Conversation)
unfolding conversation_of
get_conversation conversation_id o = do
  row ← gets (λ s. first_row (of_owner conversation_id o) s.conversations)
  conversation_of row

-- `COALESCE(MAX(sequence_number), 0) + 1`
unfoldable pub next_sequence : List ConversationTurn → ℕ
next_sequence [] = 1
next_sequence (t ∷ turns) =
    let rest = next_sequence turns in
    if leb rest t.sequence_number then suc t.sequence_number else rest

abbrev pub of_conversation : String → ConversationTurn → Bool
of_conversation conversation_id t = t.conversation_id == conversation_id

abbrev pub of_request : ConversationTurn → ConversationTurn → Bool
of_request new t = t.conversation_id == new.conversation_id && t.request_id == new.request_id

-- The INSERT of `start_turn`, unless its request has a turn already.
unfoldable pub insert_turn :
    Option ConversationTurn → ConversationTurn → Effect HistoryStore ConversationTurn
insert_turn (some row) turn = lift (new_turn row)
insert_turn none turn = do
  taken ← gets (λ s. any_row (λ t. t.turn_id == turn.turn_id) s.turns)
  require (not taken) (unavailable "PostgreSQL conversation turn start failed")
  modify (λ s. record s { turns = s.turns ++ turn ∷ [] })
  lift (new_turn turn)

abbrev pub started_row : ConversationTurn → ℕ → ConversationTurn
started_row turn sequence_number = record turn {
  sequence_number = sequence_number;
  answer_text = none;
  status = ConversationTurnStatus.started;
  error_code = none;
  finalized_at = none;
  metadata = [];
}

unfoldable pub start_turn : ConversationTurn → Effect HistoryStore ConversationTurn
unfolding next_sequence insert_turn
start_turn turn = do
  sequence_number ← gets (λ s. next_sequence (keep (of_conversation turn.conversation_id) s.turns))
  row ← gets (λ s. first_row (of_request turn) s.turns)
  insert_turn row (started_row turn sequence_number)

abbrev pub is_started : ConversationTurnStatus → Bool
is_started ConversationTurnStatus.started = Bool.true
is_started other = Bool.false

abbrev pub is_finalized : ConversationTurnStatus → Bool
is_finalized ConversationTurnStatus.finalized = Bool.true
is_finalized other = Bool.false

-- `FROM sf.conversations`: the turn is that of a conversation of the owner.
abbrev pub of_open_turn : List Conversation → String → String → Owner → ConversationTurn → Bool
of_open_turn conversations conversation_id turn_id o t =
    of_conversation conversation_id t
    && (t.turn_id == turn_id
        && (is_started t.status && any_row (of_owner conversation_id o) conversations))

module _ (db : HistoryDatabase) where
  -- `ORDER BY updated_at DESC, created_at DESC`
  abbrev pub listed_after : Conversation → Conversation → Bool
  listed_after c d =
      db.earlier c.updated_at d.updated_at
      || (not (db.earlier d.updated_at c.updated_at) && db.earlier c.created_at d.created_at)

  unfoldable pub listed_rows : Owner → (limit : ℕ) → HistoryStore → List Conversation
  unfolding sorted_by limited
  listed_rows o limit s = limited limit (sorted_by listed_after (keep (is_owned o) s.conversations))

  unfoldable pub list_conversations : Owner → (limit : ℕ) → Effect HistoryStore (List Conversation)
  unfolding listed_rows conversations_of
  list_conversations o limit = do rows ← gets (listed_rows o limit); conversations_of rows

  -- An UPDATE of an owner's active conversation, at a time, and the row that it returns.
  unfoldable pub update_conversation :
      String
      → Owner
      → (String → Conversation → Conversation)
      → Effect HistoryStore (Option Conversation)
  update_conversation conversation_id o f = do
    row ← gets (λ s. first_row (of_owner conversation_id o) s.conversations)
    now ← gets (λ s. db.clock s.ticks)
    modify (λ s. record s {
      conversations = update_rows (of_owner conversation_id o) (f now) s.conversations;
      ticks = suc s.ticks;
    })
    return (Option.map (f now) row)

  unfoldable pub rename_conversation :
      String → Owner → (title : String) → Effect HistoryStore (Option Conversation)
  unfolding update_conversation conversation_of
  rename_conversation conversation_id o title = do
    row ←
        update_conversation conversation_id o
          (λ now c. record c { title = title; updated_at = now })
    conversation_of row

  unfoldable pub delete_conversation : String → Owner → Effect HistoryStore Bool
  unfolding update_conversation
  delete_conversation conversation_id o = do
    row ← update_conversation conversation_id o (λ now c. record c {
      status = ConversationStatus.deleted;
      deleted_at = some now;
      updated_at = now;
    })
    return (is_some row)

  -- An UPDATE of an owner's started turn, at a time, and the row that it returns.
  unfoldable pub update_turn :
      String
      → String
      → Owner
      → (String → ConversationTurn → ConversationTurn)
      → Effect HistoryStore (Option ConversationTurn)
  unfolding turn_of
  update_turn conversation_id turn_id o f = do
    row ← gets (λ s. first_row (of_open_turn s.conversations conversation_id turn_id o) s.turns)
    now ← gets (λ s. db.clock s.ticks)
    modify (λ s. record s {
      turns = update_rows (of_open_turn s.conversations conversation_id turn_id o) (f now) s.turns;
      ticks = suc s.ticks;
    })
    turn_of (Option.map (f now) row)

  unfoldable pub finalize_turn :
      String
      → String
      → Owner
      → (answer_text : String) → List (String × Value)
      → Effect HistoryStore (Option ConversationTurn)
  unfolding update_turn
  finalize_turn conversation_id turn_id o answer_text metadata = do
    stored ← lift (db.jsonb metadata)
    update_turn conversation_id turn_id o (λ now t. record t {
      status = ConversationTurnStatus.finalized;
      answer_text = some answer_text;
      finalized_at = some now;
      metadata = stored;
    })

  unfoldable pub fail_turn :
      String
      → String
      → Owner
      → (error_code : String) → List (String × Value)
      → Effect HistoryStore (Option ConversationTurn)
  unfolding update_turn
  fail_turn conversation_id turn_id o error_code metadata = do
    stored ← lift (db.jsonb metadata)
    update_turn conversation_id turn_id o (λ now t. record t {
      status = ConversationTurnStatus.failed;
      error_code = some (text_take 100 error_code);
      finalized_at = some now;
      metadata = stored;
    })

-- The turns of an owner's conversation, of which the last `limit` are taken, in their order.
unfoldable pub recent_rows :
    (finalized_only : Bool) → String → Owner → ℕ → HistoryStore → List ConversationTurn
unfolding sorted_by limited
recent_rows finalized_only conversation_id o limit s =
    sorted_by (λ t u. ltb u.sequence_number t.sequence_number)
      (limited limit (
        sorted_by (λ t u. ltb t.sequence_number u.sequence_number)
          (keep
            (λ t.
              of_conversation conversation_id t
              && (any_row (of_owner conversation_id o) s.conversations
                  && (not finalized_only || is_finalized t.status)))
            s.turns)))

unfoldable pub turn_rows :
    (finalized_only : Bool) → String → Owner → ℕ → Effect HistoryStore (List ConversationTurn)
unfolding recent_rows turns_of
turn_rows finalized_only conversation_id o limit = do
  rows ← gets (recent_rows finalized_only conversation_id o limit)
  turns_of rows
