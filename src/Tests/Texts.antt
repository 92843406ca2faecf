-- ===== src/Tests/Texts.antt =====
-- The theorems on texts, at concrete inputs.
use sovereign_flow.Prelude.{String, ◌≡◌, refl, List, [], ◌∷◌, mem, map}
use sovereign_flow.Result.{ok}
use sovereign_flow.Text.Strip.{strip, required}
use sovereign_flow.Text.Order.{sorted_set, set_insert}
use sovereign_flow.Text.Normal.{
  required_all, normalized_values, IsNormalized, normalized_values-IsNormalized,
  mem-normalized_values,
}

abbrev given : List String
given = " b " ∷ "a" ∷ "b" ∷ []

abbrev stored : List String
stored = "a" ∷ "b" ∷ []

given_normalized : normalized_values given "labels" ≡ ok stored
unfolding normalized_values required_all required strip sorted_set set_insert
given_normalized = refl

normalized_values-IsNormalized_example : IsNormalized stored
normalized_values-IsNormalized_example =
    normalized_values-IsNormalized given "labels" stored given_normalized

mem-normalized_values_example : mem "b" stored ≡ mem "b" (map strip given)
mem-normalized_values_example = mem-normalized_values "b" given "labels" stored given_normalized
