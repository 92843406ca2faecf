-- ===== src/Services/Conversations/Kept.antt =====
-- Each method of the service keeps a conversation that the caller cannot reach.
use mathlib.Core.Bool.{false≢true}
use mathlib.Core.Path.{subst}
use sovereign_flow.Prelude.{
  ℕ, String, ◌≡◌, refl, sym, ap, ◌∙◌, false, List, [], Option, none, some, ◌==◌, eq_iff, leb, keep,
  All, Bool-cases, inl, inr,
}
use sovereign_flow.Result.{Result, ok, validation, not_found}
use sovereign_flow.Text.Strip.{strip}
use sovereign_flow.Effect.{Effect, lift, ◌>>=◌}
use sovereign_flow.Effect.Keeps.{
  Keeps, >>=-Keeps, >>=-Keeps_when, >>-Keeps, require-Keeps, lift-Keeps, return-Keeps, throw-Keeps,
}
use sovereign_flow.Library.{Library}
use sovereign_flow.Value.{Value}
use sovereign_flow.Domain.Chunk.{AuthorizationContext}
use sovereign_flow.Domain.Conversation.{
  Conversation, ConversationStatus, new_conversation, ConversationTurn, ConversationTurnStatus,
  new_turn,
}
use sovereign_flow.Storage.Tables.{any_row, first_row}
use sovereign_flow.Storage.Conversations.{
  HistoryStore, HistoryDatabase, Owner, of_id, is_owned, of_owner, of_conversation,
  get_conversation, conversation_of, create_conversation,
}
use sovereign_flow.Storage.Conversations as Rows
use sovereign_flow.Storage.Conversations.Left.{
  IsForeign, IsStripped, not_owned, create-Keeps, get-Keeps, rename-Keeps, delete-Keeps,
  finalize-Keeps, fail-Keeps, rows-Keeps, start-Keeps,
}
use sovereign_flow.Services.Conversations.{
  subject_hash, owner_of, positive_limit, found, create, require_conversation, get, rename,
  delete_own, start_turn, finalize_turn, fail_turn,
}
use sovereign_flow.Services.Conversations.Stored.{postgres_history}
use sovereign_flow.Services.Conversations.Known.{
  new_conversation-IsStripped, new_turn-conversation, first_row-known, found-row,
}

-- What a call makes beside the tables, such as an identifier or a time, leaves them.
pub record LeavesTables {A : Type 0} (m : Effect HistoryStore A) : Type 0 where
  pub conversations : (s : HistoryStore) → ((m s).1).conversations ≡ s.conversations
  pub turns : (s : HistoryStore) → ((m s).1).turns ≡ s.turns

module _ (lib : Library) (db : HistoryDatabase) (id_factory now : Effect HistoryStore String)
    (authorization : AuthorizationContext) where
  module _ (c : String) (rows : List Conversation) (turns : List ConversationTurn) where
    abbrev o : Owner
    o = owner_of lib authorization

    abbrev I : HistoryStore → Type 0
    I = IsForeign c o rows turns

    aside-Keeps : {A : Type 0} (m : Effect HistoryStore A) → LeavesTables m → Keeps I m
    aside-Keeps m k = record {
      after = λ s h. record {
        rows_are = ap (keep (of_id c)) (k.conversations s) ∙ h.rows_are;
        turns_are = ap (keep (of_conversation c)) (k.turns s) ∙ h.turns_are;
        held = h.held;
        foreign = h.foreign;
        stripped = subst (All IsStripped) (sym (k.conversations s)) h.stripped;
      };
    }

    found-Keeps : {A : Type 0} (message : String) (a : Option A) → Keeps I (found message a)
    unfolding found
    found-Keeps message none = throw-Keeps I (not_found message)
    found-Keeps message (some a) = return-Keeps I a

    pub limit-Keeps : (limit : ℕ) → Keeps I (positive_limit limit)
    limit-Keeps limit = require-Keeps I (leb 1 limit) (validation "must be a positive integer")

    made-Keeps :
        (asked : Conversation)
        → Keeps I (lift (new_conversation asked) >>= λ x. create_conversation x)
    made-Keeps asked = >>=-Keeps_when I _ _ (lift-Keeps I (new_conversation asked)) (λ x s s' h e.
        create-Keeps c o rows turns x (new_conversation-IsStripped asked x (lifted asked x s s' e)))
      where
        lifted :
            (asked x : Conversation) (s s' : HistoryStore)
            → lift (new_conversation asked) s ≡ (ok x, s')
            → new_conversation asked ≡ ok x
        lifted asked x s s' e = ap (λ (t : Result Conversation × HistoryStore). t.0) e

    pub create_own-Keeps :
        (session_id domain title : String)
        → LeavesTables id_factory
        → LeavesTables now
        → Keeps I
            (create lib (postgres_history db) id_factory now authorization session_id domain title)
    unfolding create
    create_own-Keeps session_id domain title ids times =
        >>=-Keeps I _ _ (aside-Keeps id_factory ids) (λ conversation_id.
          >>=-Keeps I _ _ (aside-Keeps now times) (λ created_at.
            >>=-Keeps I _ _ (aside-Keeps now times) (λ updated_at. made-Keeps (record {
              conversation_id = conversation_id;
              tenant_id = authorization.tenant_id;
              subject_hash = subject_hash lib authorization;
              session_id = session_id;
              domain = domain;
              title = title;
              status = ConversationStatus.active;
              created_at = created_at;
              updated_at = updated_at;
              deleted_at = none;
            }))))

    require_own-Keeps :
        (d : String)
        → Keeps I (require_conversation lib (postgres_history db) id_factory now authorization d)
    unfolding require_conversation
    require_own-Keeps d =
        >>=-Keeps I _ _ (get-Keeps c o rows turns d)
          (λ x. found-Keeps "Conversation was not found" x)

    -- A conversation that the caller was found to own is another one.
    required-apart :
        (d : String) (x : Conversation) (s s' : HistoryStore)
        → I s
        → require_conversation lib (postgres_history db) id_factory now authorization d s
          ≡ (ok x, s')
        → (strip d ≡ d) × (d == c ≡ false)
    unfolding require_conversation get_conversation
    required-apart d x s s' h e =
        let (row, is_row) =
          found-row (first_row (of_owner d o) s.conversations) "Conversation was not found" s s' x
            e in
        let (owned, named, bare) = first_row-known d o s.conversations row h.stripped is_row in
        let same : row.conversation_id ≡ d = (eq_iff row.conversation_id d).0 named in
        (
          subst (λ z. strip z ≡ z) same bare,
          elim (Bool-cases (d == c)) [
            | inl here ↦
                let empty =
                  subst (λ z. any_row (of_owner z o) s.conversations ≡ false)
                    (sym ((eq_iff d c).0 here)) (not_owned c o rows turns s h) in
                absurd (false≢true (sym empty ∙ owned))
            | inr other ↦ other
          ],
        )

    turn-Keeps :
        (d : String) (asked : ConversationTurn)
        → asked.conversation_id ≡ d
        → strip d ≡ d
        → (d == c) ≡ false
        → Keeps I (lift (new_turn asked) >>= λ t. Rows.start_turn t)
    turn-Keeps d asked named bare apart =
        >>=-Keeps_when I _ _ (lift-Keeps I (new_turn asked)) (λ t s s' h e.
          start-Keeps c o rows turns t (
            ap (λ i. i == c)
              (new_turn-conversation asked t (lifted t s s' e) ∙ ap strip named ∙ bare)
            ∙ apart))
      where
        lifted :
            (t : ConversationTurn) (s s' : HistoryStore)
            → lift (new_turn asked) s ≡ (ok t, s')
            → new_turn asked ≡ ok t
        lifted t s s' e = ap (λ (z : Result ConversationTurn × HistoryStore). z.0) e

    pub start_own-Keeps :
        (d request_id question_text : String)
        → LeavesTables id_factory
        → LeavesTables now
        → Keeps I (
            start_turn lib
              (postgres_history db)
              id_factory
              now
              authorization
              d
              request_id
              question_text)
    unfolding start_turn
    start_own-Keeps d request_id question_text ids times =
        >>=-Keeps_when I _ _ (require_own-Keeps d) (λ x s s' h e.
          let (bare, apart) = required-apart d x s s' h e in
          >>=-Keeps I _ _ (aside-Keeps id_factory ids) (λ turn_id.
            >>=-Keeps I _ _ (aside-Keeps now times) (λ created_at.
              turn-Keeps d
                (record {
                  turn_id = turn_id;
                  conversation_id = d;
                  request_id = request_id;
                  sequence_number = 1;
                  question_text = question_text;
                  status = ConversationTurnStatus.started;
                  created_at = created_at;
                  answer_text = none;
                  finalized_at = none;
                  error_code = none;
                  metadata = [];
                })
                refl bare apart)))

    pub get_own-Keeps :
        (d : String) (limit : ℕ)
        → Keeps I (get lib (postgres_history db) id_factory now authorization d limit)
    unfolding get
    get_own-Keeps d limit = >>-Keeps I _ _ (limit-Keeps limit) (
        >>=-Keeps I _ _ (require_own-Keeps d) (λ x.
          >>=-Keeps I _ _ (rows-Keeps c o rows turns false x.conversation_id limit)
            (λ found. return-Keeps I (record { conversation = x; turns = found }))))

    pub rename_own-Keeps :
        (d title : String)
        → Keeps I (rename lib (postgres_history db) id_factory now authorization d title)
    unfolding rename
    rename_own-Keeps d title =
        >>=-Keeps I _ _ (rename-Keeps c o rows turns db d title)
          (λ x. found-Keeps "Conversation was not found" x)

    pub delete_own-Keeps :
        (d : String) → Keeps I (delete_own lib (postgres_history db) id_factory now authorization d)
    unfolding delete_own
    delete_own-Keeps d =
        >>=-Keeps I _ _ (delete-Keeps c o rows turns db d)
          (λ deleted. require-Keeps I deleted (not_found "Conversation was not found"))

    pub finalize_own-Keeps :
        (d turn_id answer : String) (metadata : List (String × Value))
        → Keeps I (
            finalize_turn lib
              (postgres_history db)
              id_factory
              now
              authorization
              d
              turn_id
              answer
              metadata)
    unfolding finalize_turn
    finalize_own-Keeps d turn_id answer metadata =
        >>=-Keeps I _ _ (finalize-Keeps c o rows turns db d turn_id answer metadata)
          (λ x. found-Keeps "Conversation turn was not found" x)

    pub fail_own-Keeps :
        (d turn_id code : String) (metadata : List (String × Value))
        → Keeps I (
            fail_turn lib
              (postgres_history db)
              id_factory
              now
              authorization
              d
              turn_id
              code
              metadata)
    unfolding fail_turn
    fail_own-Keeps d turn_id code metadata =
        >>=-Keeps I _ _ (fail-Keeps c o rows turns db d turn_id code metadata)
          (λ x. found-Keeps "Conversation turn was not found" x)
