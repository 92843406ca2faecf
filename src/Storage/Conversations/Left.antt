-- ===== src/Storage/Conversations/Left.antt =====
-- A conversation that is not an active one of the owner: the repository's methods leave its row and
-- its turns.
use mathlib.Core.Path.{subst}
use sovereign_flow.Prelude.{
  ℕ, suc, String, ◌≡◌, refl, sym, ap, ◌∙◌, Bool, true, false, not, List, [], ◌∷◌, ◌++◌, Option,
  none, some, ◌==◌, eq_iff, keep, is_empty, Bool-cases, inl, inr, is_some, All, All-append,
}
use sovereign_flow.Effect.Keeps.{
  Keeps, >>=-Keeps, >>-Keeps, require-Keeps, gets-Keeps, lift-Keeps, return-Keeps, modify-Keeps,
}
use sovereign_flow.Value.{Value}
use sovereign_flow.Domain.Conversation.{
  Conversation, ConversationStatus, new_conversation, ConversationTurn, new_turn,
  ConversationTurnStatus,
}
use sovereign_flow.Storage.Tables.{first_row, any_row, update_rows}
use sovereign_flow.Storage.Conversations.{
  HistoryStore, HistoryDatabase, Owner, unavailable, of_id, is_owned, of_owner, of_conversation,
  of_open_turn, of_request, conversation_of, turn_of, conversations_of, turns_of,
  create_conversation, get_conversation, list_conversations, update_conversation,
  rename_conversation, delete_conversation, insert_turn, start_turn, started_row, update_turn,
  finalize_turn, fail_turn, recent_rows, turn_rows, listed_rows, next_sequence,
}
use mathlib.Core.Option
use mathlib.Core.Bool.{false≢true}
use sovereign_flow.Text.Strip.{strip}
use sovereign_flow.Text.Words.{text_take}
use sovereign_flow.Storage.Conversations.Foreign.{
  owned-keep, held-keep, keep-update, keep-append, turns-append, turns-update,
}

abbrev pub IsStripped : Conversation → Type 0
IsStripped x = strip x.conversation_id ≡ x.conversation_id

-- The rows `rows` and `turns` are those of the conversation, and it is in the table, but no active
-- one of the owner; and identifiers are stored without spaces around them.
pub record IsForeign (c : String) (o : Owner) (rows : List Conversation)
    (turns : List ConversationTurn) (s : HistoryStore) : Type 0 where
  pub rows_are : keep (of_id c) s.conversations ≡ rows
  pub turns_are : keep (of_conversation c) s.turns ≡ turns
  pub held : is_empty rows ≡ false
  pub foreign : any_row (is_owned o) rows ≡ false
  pub stripped : All IsStripped s.conversations

module _ (c : String) (o : Owner) (rows : List Conversation) (turns : List ConversationTurn) where
  abbrev I : HistoryStore → Type 0
  I = IsForeign c o rows turns

  pub not_owned : (s : HistoryStore) → I s → any_row (of_owner c o) s.conversations ≡ false
  not_owned s h = owned-keep c o s.conversations ∙ ap (any_row (is_owned o)) h.rows_are ∙ h.foreign

  in_table : (s : HistoryStore) → I s → any_row (of_id c) s.conversations ≡ true
  in_table s h =
      held-keep c o s.conversations ∙ ap (λ xs. not (is_empty xs)) h.rows_are ∙ ap not h.held

  conversation_of-Keeps : (row : Option Conversation) → Keeps I (conversation_of row)
  unfolding conversation_of
  conversation_of-Keeps none = return-Keeps I none
  conversation_of-Keeps (some row) =
      >>=-Keeps I _ _ (lift-Keeps I (new_conversation row)) (λ x. return-Keeps I (some x))

  turn_of-Keeps : (row : Option ConversationTurn) → Keeps I (turn_of row)
  unfolding turn_of
  turn_of-Keeps none = return-Keeps I none
  turn_of-Keeps (some row) =
      >>=-Keeps I _ _ (lift-Keeps I (new_turn row)) (λ x. return-Keeps I (some x))

  conversations_of-Keeps : (found : List Conversation) → Keeps I (conversations_of found)
  unfolding conversations_of
  conversations_of-Keeps [] = return-Keeps I []
  conversations_of-Keeps (x ∷ xs) =
      >>=-Keeps I _ _ (lift-Keeps I (new_conversation x))
        (λ y. >>=-Keeps I _ _ (conversations_of-Keeps xs) (λ ys. return-Keeps I (y ∷ ys)))

  turns_of-Keeps : (found : List ConversationTurn) → Keeps I (turns_of found)
  unfolding turns_of
  turns_of-Keeps [] = return-Keeps I []
  turns_of-Keeps (x ∷ xs) =
      >>=-Keeps I _ _ (lift-Keeps I (new_turn x))
        (λ y. >>=-Keeps I _ _ (turns_of-Keeps xs) (λ ys. return-Keeps I (y ∷ ys)))

  -- A new row has an identifier that no other row has.
  pub create-Keeps : (x : Conversation) → IsStripped x → Keeps I (create_conversation x)
  unfolding create_conversation
  create-Keeps x bare = record {
    after = λ s h. elim (Bool-cases (any_row (of_id x.conversation_id) s.conversations)) [
      | inl taken ↦ rw taken h
      | inr free ↦ rw free (record {
        rows_are = keep-append c o s.conversations x (apart s h free) ∙ h.rows_are;
        turns_are = h.turns_are;
        held = h.held;
        foreign = h.foreign;
        stripped = All-append IsStripped s.conversations (x ∷ []) h.stripped (bare, tt);
      })
    ];
  }
    where
      apart :
          (s : HistoryStore)
          → I s
          → any_row (of_id x.conversation_id) s.conversations ≡ false
          → of_id c x ≡ false
      apart s h free = elim (Bool-cases (of_id c x)) [
        | inl same ↦
            let named : x.conversation_id ≡ c = (eq_iff x.conversation_id c).0 same in
            let empty = subst (λ i. any_row (of_id i) s.conversations ≡ false) named free in
            absurd (false≢true (sym empty ∙ in_table s h))
        | inr other ↦ other
      ]

  pub get-Keeps : (d : String) → Keeps I (get_conversation d o)
  unfolding get_conversation
  get-Keeps d =
      >>=-Keeps I _ _ (gets-Keeps I (λ s. first_row (of_owner d o) s.conversations))
        (λ row. conversation_of-Keeps row)

  pub list-Keeps : (db : HistoryDatabase) (limit : ℕ) → Keeps I (list_conversations db o limit)
  unfolding list_conversations
  list-Keeps db limit =
      >>=-Keeps I _ _ (gets-Keeps I (listed_rows db o limit))
        (λ found. conversations_of-Keeps found)

  update_rows-IsStripped :
      (d : String) (f : Conversation → Conversation) (found : List Conversation)
      → ((x : Conversation) → (f x).conversation_id ≡ x.conversation_id)
      → All IsStripped found
      → All IsStripped (update_rows (of_owner d o) f found)
  update_rows-IsStripped d f [] same h = tt
  update_rows-IsStripped d f (x ∷ found) same h = elim (Bool-cases (of_owner d o x)) [
    | inl holds ↦
        rw holds (ap strip (same x) ∙ h.0 ∙ sym (same x), update_rows-IsStripped d f found same h.1)
    | inr fails ↦ rw fails (h.0, update_rows-IsStripped d f found same h.1)
  ]

  update_conversation-Keeps :
      (db : HistoryDatabase) (d : String) (f : String → Conversation → Conversation)
      → ((now : String) (x : Conversation) → (f now x).conversation_id ≡ x.conversation_id)
      → Keeps I (update_conversation db d o f)
  unfolding update_conversation
  update_conversation-Keeps db d f same = record {
    after = λ s h. record {
      rows_are =
          keep-update c o d (f (db.clock s.ticks)) s.conversations (same (db.clock s.ticks))
            (not_owned s h)
          ∙ h.rows_are;
      turns_are = h.turns_are;
      held = h.held;
      foreign = h.foreign;
      stripped =
          update_rows-IsStripped d (f (db.clock s.ticks)) s.conversations (same (db.clock s.ticks))
            h.stripped;
    };
  }

  pub rename-Keeps :
      (db : HistoryDatabase) (d title : String) → Keeps I (rename_conversation db d o title)
  unfolding rename_conversation
  rename-Keeps db d title =
      >>=-Keeps I _ _
        (update_conversation-Keeps db d (λ now x. record x { title = title; updated_at = now })
          (λ now x. refl))
        (λ row. conversation_of-Keeps row)

  pub delete-Keeps : (db : HistoryDatabase) (d : String) → Keeps I (delete_conversation db d o)
  unfolding delete_conversation
  delete-Keeps db d =
      >>=-Keeps I _ _
        (update_conversation-Keeps db d
          (λ now x. record x {
            status = ConversationStatus.deleted;
            deleted_at = some now;
            updated_at = now;
          })
          (λ now x. refl))
        (λ row. return-Keeps I (is_some row))

  update_turn-Keeps :
      (db : HistoryDatabase) (d turn_id : String) (f : String → ConversationTurn → ConversationTurn)
      → ((now : String) (t : ConversationTurn) → (f now t).conversation_id ≡ t.conversation_id)
      → Keeps I (update_turn db d turn_id o f)
  unfolding update_turn
  update_turn-Keeps db d turn_id f same = record {
    after = λ s h.
        (turn_of-Keeps (
            Option.map (f (db.clock s.ticks))
              (first_row (of_open_turn s.conversations d turn_id o) s.turns))).after
          (record s {
            turns =
                update_rows (of_open_turn s.conversations d turn_id o) (f (db.clock s.ticks))
                  s.turns;
            ticks = suc s.ticks;
          })
          (record {
            rows_are = h.rows_are;
            turns_are =
                turns-update c o s.conversations d turn_id (f (db.clock s.ticks)) s.turns
                  (same (db.clock s.ticks)) (not_owned s h)
                ∙ h.turns_are;
            held = h.held;
            foreign = h.foreign;
            stripped = h.stripped;
          });
  }

  pub finalize-Keeps :
      (db : HistoryDatabase) (d turn_id answer : String) (metadata : List (String × Value))
      → Keeps I (finalize_turn db d turn_id o answer metadata)
  unfolding finalize_turn
  finalize-Keeps db d turn_id answer metadata =
      >>=-Keeps I _ _ (lift-Keeps I (db.jsonb metadata)) (λ stored.
        update_turn-Keeps db d turn_id
          (λ now t. record t {
            status = ConversationTurnStatus.finalized;
            answer_text = some answer;
            finalized_at = some now;
            metadata = stored;
          })
          (λ now t. refl))

  pub fail-Keeps :
      (db : HistoryDatabase) (d turn_id code : String) (metadata : List (String × Value))
      → Keeps I (fail_turn db d turn_id o code metadata)
  unfolding fail_turn
  fail-Keeps db d turn_id code metadata =
      >>=-Keeps I _ _ (lift-Keeps I (db.jsonb metadata)) (λ stored.
        update_turn-Keeps db d turn_id
          (λ now t. record t {
            status = ConversationTurnStatus.failed;
            error_code = some (text_take 100 code);
            finalized_at = some now;
            metadata = stored;
          })
          (λ now t. refl))

  pub rows-Keeps :
      (finalized_only : Bool) (d : String) (limit : ℕ)
      → Keeps I (turn_rows finalized_only d o limit)
  unfolding turn_rows
  rows-Keeps finalized_only d limit =
      >>=-Keeps I _ _ (gets-Keeps I (recent_rows finalized_only d o limit))
        (λ found. turns_of-Keeps found)

  insert_turn-Keeps :
      (row : Option ConversationTurn) (t : ConversationTurn)
      → of_conversation c t ≡ false
      → Keeps I (insert_turn row t)
  unfolding insert_turn
  insert_turn-Keeps (some row) t apart = lift-Keeps I (new_turn row)
  insert_turn-Keeps none t apart =
      >>=-Keeps I _ _ (gets-Keeps I (λ s. any_row (λ u. u.turn_id == t.turn_id) s.turns)) (λ taken.
        >>-Keeps I _ _
          (require-Keeps I (not taken) (unavailable "PostgreSQL conversation turn start failed"))
          (>>-Keeps I _ _
            (modify-Keeps I (λ s. record s { turns = s.turns ++ t ∷ [] })
              (λ s h. record {
                rows_are = h.rows_are;
                turns_are = turns-append c o s.turns t apart ∙ h.turns_are;
                held = h.held;
                foreign = h.foreign;
                stripped = h.stripped;
              }))
            (lift-Keeps I (new_turn t))))

  pub start-Keeps : (t : ConversationTurn) → of_conversation c t ≡ false → Keeps I (start_turn t)
  unfolding start_turn
  start-Keeps t apart =
      >>=-Keeps I _ _
        (gets-Keeps I (λ s. next_sequence (keep (of_conversation t.conversation_id) s.turns)))
        (λ n.
          >>=-Keeps I _ _ (gets-Keeps I (λ s. first_row (of_request t) s.turns))
            (λ row. insert_turn-Keeps row (started_row t n) apart))
