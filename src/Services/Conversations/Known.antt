-- ===== src/Services/Conversations/Known.antt =====
-- What the rows and the constructors of conversations and turns say of identifiers.
use mathlib.Core.Path.{subst}
use sovereign_flow.Prelude.{
  ◌∷◌, String, ◌≡◌, refl, sym, ap, ◌∙◌, true, List, [], Option, none, some, ◌==◌, leb,
  some_injective, arith, All, Bool-cases, inl, inr,
}
use sovereign_flow.Result.{Result, ok, >>=-eq-ok, ok_injective, guard-eq-ok}
use sovereign_flow.Text.Strip.{strip, required, required-eq-ok, strip-strip}
use sovereign_flow.Domain.Security.{required_option}
use sovereign_flow.Effect.{◌>>=◌}
use sovereign_flow.Domain.Conversation.{
  Conversation, new_conversation, check_conversation_status, check_turn_status, ConversationTurn,
  new_turn,
}
use sovereign_flow.Storage.Tables.{any_row, first_row}
use sovereign_flow.Storage.Conversations.{HistoryStore, Owner, of_owner, conversation_of}
use sovereign_flow.Storage.Conversations.Left.{IsStripped}
use sovereign_flow.Services.Conversations.{found}

pub new_conversation-IsStripped : (x y : Conversation) → new_conversation x ≡ ok y → IsStripped y
unfolding new_conversation
new_conversation-IsStripped x y h =
    let (i, e, h₁) = >>=-eq-ok (required x.conversation_id _) _ h in
    let (_, _, h₂) = >>=-eq-ok (required x.tenant_id _) _ h₁ in
    let (_, _, h₃) = >>=-eq-ok (required x.subject_hash _) _ h₂ in
    let (_, _, h₄) = >>=-eq-ok (required x.session_id _) _ h₃ in
    let (_, _, h₅) = >>=-eq-ok (required x.domain _) _ h₄ in
    let (_, _, h₆) = >>=-eq-ok (required x.title _) _ h₅ in
    let (_, _, h₇) = >>=-eq-ok (required x.created_at _) _ h₆ in
    let (_, _, h₈) = >>=-eq-ok (required x.updated_at _) _ h₇ in
    let (at, _, h₉) = >>=-eq-ok (required_option x.deleted_at _) _ h₈ in
    let (_, _, h₁₀) = >>=-eq-ok (check_conversation_status x.status at) _ h₉ in
    let named : i ≡ y.conversation_id =
      ap (λ (z : Conversation). z.conversation_id) (ok_injective h₁₀) in
    let bare : i ≡ strip x.conversation_id = (required-eq-ok x.conversation_id _ i e).0 in
    subst (λ z. strip z ≡ z) (sym bare ∙ named) (strip-strip x.conversation_id)

pub new_turn-conversation :
    (t u : ConversationTurn) → new_turn t ≡ ok u → u.conversation_id ≡ strip t.conversation_id
unfolding new_turn
new_turn-conversation t u h =
    let (_, _, h₁) = >>=-eq-ok (required t.turn_id _) _ h in
    let (i, e, h₂) = >>=-eq-ok (required t.conversation_id _) _ h₁ in
    let (_, _, h₃) = >>=-eq-ok (required t.request_id _) _ h₂ in
    let (_, _, h₄) = >>=-eq-ok (required t.question_text _) _ h₃ in
    let (_, _, h₅) = >>=-eq-ok (required t.created_at _) _ h₄ in
    let (_, h₆) = guard-eq-ok (leb 1 t.sequence_number) _ _ h₅ in
    let (answer, _, h₇) = >>=-eq-ok (required_option t.answer_text _) _ h₆ in
    let (at, _, h₈) = >>=-eq-ok (required_option t.finalized_at _) _ h₇ in
    let (code, _, h₉) = >>=-eq-ok (required_option t.error_code _) _ h₈ in
    let (_, _, h₁₀) = >>=-eq-ok (check_turn_status t.status answer at code) _ h₉ in
    sym (ap (λ (z : ConversationTurn). z.conversation_id) (ok_injective h₁₀))
    ∙ (required-eq-ok t.conversation_id _ i e).0

-- The row that is found is the owner's, and stands in the table.
pub first_row-known :
    (d : String) (o : Owner) (rows : List Conversation) (row : Conversation)
    → All IsStripped rows
    → first_row (of_owner d o) rows ≡ some row
    → (any_row (of_owner d o) rows ≡ true) × (row.conversation_id == d ≡ true) × IsStripped row
first_row-known d o [] row k h = cc
first_row-known d o (x ∷ rows) row k h = elim (Bool-cases (of_owner d o x)) [
  | inl holds ↦
      let same : x ≡ row = some_injective x row (rw holds at h) in
      (
        ground arith,
        subst (λ (z : Conversation). z.conversation_id == d ≡ true) same (ground arith),
        subst IsStripped same k.0,
      )
  | inr fails ↦
      let (owned, named, bare) = first_row-known d o rows row k.1 (rw fails at h) in
      (ground arith, named, bare)
]

pub found-row :
    (row : Option Conversation) (message : String) (s s' : HistoryStore) (x : Conversation)
    → (conversation_of row >>= λ y. found message y) s ≡ (ok x, s')
    → (z : Conversation) × (row ≡ some z)
unfolding conversation_of found
found-row none message s s' x h =
    absurd (cc (ap (λ (t : Result Conversation × HistoryStore). t.0) h))
found-row (some z) message s s' x h = (z, refl)
