-- ===== src/Pipeline/Actions/Dialog.antt =====
-- `_conversation_title` and `_format_conversation_history` of
-- sovereignflow/application/actions/_conversation.py, and how long the latter's text is.
use Prim.Native.String.{◌++◌ as append_text}
use text.Mathlib.TextLemmas.{nil-append}
use sovereign_flow.Prelude.{
  ℕ, ◌+◌, ◌≤◌, String, ◌≡◌, refl, List, [], ◌∷◌, ◌++◌, Option, none, some, ◌==◌, leb, true, false,
  map, ◌⊎◌, leb→le, arith, if◌then◌else◌, Bool-cases, inl, inr,
}
use sovereign_flow.Result.{Result, ok, err, bad_execution}
use sovereign_flow.Text.Strip.{strip}
use sovereign_flow.Text.Strip.Length.{text_length-strip}
use sovereign_flow.Text.Words.{split, join, text_take, text_length, text_length-append}
use sovereign_flow.Domain.Conversation.{ConversationTurn}

unfoldable pub titled : String → String
titled title = if title == "" then "Untitled conversation" else title

-- `_conversation_title`
unfoldable pub conversation_title : (source query : String) → Result String
unfolding titled
conversation_title source query =
    if source == "query"
    then ok (titled (text_take 80 (join " " (split query))))
    else err (bad_execution "Unsupported conversation title source")

unfoldable pub rendered : (question answer : String) → String
rendered question answer =
    append_text "User: "
      (append_text question (append_text "\nAssistant: " (append_text answer "\n\n")))

-- The loop, from the last turn on; `used` characters were taken. A turn without an answer, or
-- longer than the limit, is passed over; at the first that does not fit, the loop ends.
unfoldable pub selected : ℕ → ℕ → List (String × Option String) → List String
unfolding rendered
selected limit used [] = []
selected limit used ((question, none) ∷ turns) = selected limit used turns
selected limit used ((question, some answer) ∷ turns) =
    let text = rendered question answer in
    let without = selected limit used turns in
    let with_it = selected limit (used + text_length text) turns in
    if leb (text_length text) limit
    then (if leb (used + text_length text) limit then text ∷ with_it else [])
    else without

-- `reversed(items)`
unfoldable pub reversed : {A : Type 0} → List A → List A
reversed [] = []
reversed (x ∷ xs) = reversed xs ++ x ∷ []

abbrev pub dialog : ConversationTurn → String × Option String
dialog turn = (turn.question_text, turn.answer_text)

-- `_format_conversation_history`
unfoldable pub format_conversation_history : (max_characters : ℕ) → List ConversationTurn → String
unfolding selected reversed
format_conversation_history max_characters turns =
    strip (join "" (reversed (selected max_characters 0 (map dialog (reversed turns)))))

abbrev total : List String → ℕ
total [] = 0
total (s ∷ texts) = text_length s + total texts

total-append : (xs ys : List String) → total (xs ++ ys) ≡ total xs + total ys
total-append [] ys = omega arith
total-append (x ∷ xs) ys = omega (arith, total-append xs ys)

total-reversed : (xs : List String) → total (reversed xs) ≡ total xs
unfolding reversed
total-reversed [] = refl
total-reversed (x ∷ xs) = omega (arith, total-reversed xs, total-append (reversed xs) (x ∷ []))

text_length-join : (xs : List String) → text_length (join "" xs) ≡ total xs
unfolding join text_length
text_length-join [] = refl
text_length-join (x ∷ []) = omega arith
text_length-join (x ∷ y ∷ xs) =
    rw (text_length-append x (append_text "" (join "" (y ∷ xs))))
      (rw nil-append (omega (arith, text_length-join (y ∷ xs))))

selected-fits :
    (limit used : ℕ) (turns : List (String × Option String))
    → used ≤ limit
    → used + total (selected limit used turns) ≤ limit
unfolding selected
selected-fits limit used [] h = omega (arith, h)
selected-fits limit used ((question, none) ∷ turns) h = selected-fits limit used turns h
selected-fits limit used ((question, some answer) ∷ turns) h =
    fits (rendered question answer)
      (Bool-cases (leb (text_length (rendered question answer)) limit))
      (Bool-cases (leb (used + text_length (rendered question answer)) limit))
      (selected-fits limit used turns h)
      (selected-fits limit (used + text_length (rendered question answer)) turns)
  where
    fits :
        (text : String)
        → (leb (text_length text) limit ≡ true) ⊎ (leb (text_length text) limit ≡ false)
        → (leb (used + text_length text) limit ≡ true)
          ⊎ (leb (used + text_length text) limit ≡ false)
        → used + total (selected limit used turns) ≤ limit
        → (used + text_length text ≤ limit
            → used + text_length text + total (selected limit (used + text_length text) turns)
              ≤ limit)
        → used
            + total (
                if leb (text_length text) limit
                then (if leb (used + text_length text) limit
                    then text ∷ selected limit (used + text_length text) turns
                    else [])
                else selected limit used turns)
          ≤ limit
    fits text (inl a) (inl b) without with_it =
        let whole = with_it (leb→le _ _ b) in rw a (rw b (omega arith))
    fits text (inl a) (inr b) without with_it = rw a (rw b (omega arith))
    fits text (inr a) other without with_it = rw a without

-- The history that a prompt is given has at most `max_characters` characters.
pub format_conversation_history-fits :
    (max_characters : ℕ) (turns : List ConversationTurn)
    → text_length (format_conversation_history max_characters turns) ≤ max_characters
unfolding format_conversation_history
format_conversation_history-fits limit turns =
    let texts = selected limit 0 (map dialog (reversed turns)) in
    omega (
      arith,
      text_length-strip (join "" (reversed texts)),
      text_length-join (reversed texts),
      total-reversed texts,
      selected-fits limit 0 (map dialog (reversed turns)),
    )
