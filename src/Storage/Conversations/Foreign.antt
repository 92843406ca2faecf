-- ===== src/Storage/Conversations/Foreign.antt =====
-- Which rows the statements of the conversation repository leave.
use mathlib.Core.Path.{subst}
use sovereign_flow.Prelude.{
  String, ◌≡◌, refl, sym, ap, Bool, true, false, not, List, [], ◌∷◌, ◌++◌, none, ◌==◌, eq_iff,
  arith, keep, is_empty, Bool-cases, ◌⊎◌, inl, inr,
}
use sovereign_flow.Domain.Conversation.{Conversation, ConversationTurn}
use sovereign_flow.Storage.Tables.{first_row, any_row, update_rows}
use sovereign_flow.Storage.Conversations.{
  Owner, of_id, is_owned, of_owner, of_conversation, of_open_turn,
}

module _ {A : Type 0} (q p : A → Bool) (f : A → A) where
  -- An UPDATE of other rows.
  keep-disjoint :
      (xs : List A)
      → ((x : A) → q (f x) ≡ q x)
      → ((x : A) → p x ≡ true → q x ≡ false)
      → keep q (update_rows p f xs) ≡ keep q xs
  keep-disjoint [] same apart = refl
  keep-disjoint (x ∷ xs) same apart = elim (Bool-cases (p x)) [
    | inl holds ↦ rw holds (rw (same x) (rw (apart x holds) (keep-disjoint xs same apart)))
    | inr fails ↦ rw fails (rw (keep-disjoint xs same apart) refl)
  ]

module _ {A : Type 0} (p : A → Bool) (f : A → A) where
  -- An UPDATE of no row.
  update-none : (xs : List A) → any_row p xs ≡ false → update_rows p f xs ≡ xs
  update-none [] h = refl
  update-none (x ∷ xs) h = elim (Bool-cases (p x)) [
    | inl holds ↦ absurd (ground arith)
    | inr fails ↦ rw fails (ap (λ ys. x ∷ ys) (update-none xs (ground arith)))
  ]

module _ (c : String) (o : Owner) where
  -- No row of the identifier is an active one of the owner, on the rows of the identifier alone.
  pub owned-keep :
      (rows : List Conversation)
      → any_row (of_owner c o) rows ≡ any_row (is_owned o) (keep (of_id c) rows)
  owned-keep [] = refl
  owned-keep (x ∷ rows) = ground (arith, owned-keep rows)

  pub held-keep :
      (rows : List Conversation) → any_row (of_id c) rows ≡ not (is_empty (keep (of_id c) rows))
  held-keep [] = refl
  held-keep (x ∷ rows) = ground (arith, held-keep rows)

  -- An UPDATE of the owner's rows leaves those of the identifier.
  pub keep-update :
      (d : String) (f : Conversation → Conversation) (rows : List Conversation)
      → ((x : Conversation) → (f x).conversation_id ≡ x.conversation_id)
      → any_row (of_owner c o) rows ≡ false
      → keep (of_id c) (update_rows (of_owner d o) f rows) ≡ keep (of_id c) rows
  keep-update d f rows same h = elim (Bool-cases (d == c)) [
    | inl here ↦
        let named : d ≡ c = (eq_iff d c).0 here in
        ap (keep (of_id c)) (
          update-none (of_owner d o) f rows
            (subst (λ x. any_row (of_owner x o) rows ≡ false) (sym named) h))
    | inr other ↦
        keep-disjoint (of_id c) (of_owner d o) f rows (λ x. ap (λ i. i == c) (same x))
          (λ x p.
            ground (arith, eq_iff x.conversation_id d, eq_iff x.conversation_id c, eq_iff d c))
  ]

  pub keep-append :
      (rows : List Conversation) (x : Conversation)
      → of_id c x ≡ false
      → keep (of_id c) (rows ++ x ∷ []) ≡ keep (of_id c) rows
  keep-append [] x h = rw h refl
  keep-append (y ∷ rows) x h = ground (arith, keep-append rows x h)

  pub turns-append :
      (turns : List ConversationTurn) (t : ConversationTurn)
      → of_conversation c t ≡ false
      → keep (of_conversation c) (turns ++ t ∷ []) ≡ keep (of_conversation c) turns
  turns-append [] t h = rw h refl
  turns-append (u ∷ turns) t h = ground (arith, turns-append turns t h)

  pub turns-update :
      (rows : List Conversation) (d turn_id : String) (f : ConversationTurn → ConversationTurn)
      (turns : List ConversationTurn)
      → ((t : ConversationTurn) → (f t).conversation_id ≡ t.conversation_id)
      → any_row (of_owner c o) rows ≡ false
      → keep (of_conversation c) (update_rows (of_open_turn rows d turn_id o) f turns)
        ≡ keep (of_conversation c) turns
  turns-update rows d turn_id f turns same h =
      keep-disjoint (of_conversation c) (of_open_turn rows d turn_id o) f turns
        (λ t. ap (λ i. i == c) (same t)) (λ t p. apart t p (Bool-cases (d == c)))
    where
      apart :
          (t : ConversationTurn)
          → of_open_turn rows d turn_id o t ≡ true
          → (d == c ≡ true) ⊎ (d == c ≡ false)
          → of_conversation c t ≡ false
      apart t p (inl here) =
          let named : d ≡ c = (eq_iff d c).0 here in
          let empty = subst (λ x. any_row (of_owner x o) rows ≡ false) (sym named) h in
          absurd (ground arith)
      apart t p (inr other) =
          ground (arith, eq_iff t.conversation_id d, eq_iff t.conversation_id c, eq_iff d c)

  pub first_row-none :
      (rows : List Conversation)
      → any_row (of_owner c o) rows ≡ false
      → first_row (of_owner c o) rows ≡ none
  first_row-none [] h = refl
  first_row-none (x ∷ rows) h = ground (arith, first_row-none rows)
