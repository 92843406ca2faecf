-- ===== src/Text/Normal.antt =====
-- `_normalized_values` of sovereignflow/domain/models.py: the sorted set of the stripped values,
-- none of them empty.
use sovereign_flow.Prelude.{String, ◌≡◌, ◌≢◌, refl, ap, ◌∙◌, List, [], ◌∷◌, arith, mem, All, map}
use sovereign_flow.Result.{Result, ok, ◌>>=◌, >>=-eq-ok}
use sovereign_flow.Text.Strip.{
  strip, required, required-eq-ok, required-strip, required_any_field, strip-strip,
}
use sovereign_flow.Text.Order.{
  sorted_set, All-sorted_set, mem-sorted_set, IsIncreasing, sorted_set-IsIncreasing,
  sorted_set_of_IsIncreasing,
}

-- `_required` of each value, the first failure winning.
unfoldable pub required_all : List String → String → Result (List String)
required_all [] field_name = ok []
required_all (value ∷ values) field_name = do
  normalized ← required value field_name
  rest ← required_all values field_name
  ok (normalized ∷ rest)

unfoldable pub normalized_values : List String → String → Result (List String)
unfolding required_all
normalized_values values field_name = do
  stripped ← required_all values field_name
  ok (sorted_set stripped)

-- A label as the models store it: stripped, and not empty.
abbrev pub IsLabel : String → Type 0
IsLabel x = (strip x ≡ x) × (x ≢ "")

-- A tuple of labels as the models store it.
abbrev pub IsNormalized : List String → Type 0
IsNormalized xs = IsIncreasing xs × All IsLabel xs

pub required-IsLabel :
    (value field_name result : String) → required value field_name ≡ ok result → IsLabel result
required-IsLabel value field_name result h =
    let (e, ne) = required-eq-ok value field_name result h in
    (ground (arith, strip-strip value), ne)

pub required_all-eq-ok :
    (values : List String) (field_name : String) (result : List String)
    → required_all values field_name ≡ ok result
    → result ≡ map strip values
unfolding required_all
required_all-eq-ok [] field_name result h = ground arith
required_all-eq-ok (value ∷ values) field_name result h =
    let (x, e, h') = >>=-eq-ok (required value field_name) _ h in
    let (xs, es, h'') = >>=-eq-ok (required_all values field_name) _ h' in
    cc ((required-eq-ok value field_name x e).0, required_all-eq-ok values field_name xs es)

required_all-IsLabel :
    (values : List String) (field_name : String) (result : List String)
    → required_all values field_name ≡ ok result
    → All IsLabel (map strip values)
unfolding required_all
required_all-IsLabel [] field_name result h = tt
required_all-IsLabel (value ∷ values) field_name result h =
    let (x, e, h') = >>=-eq-ok (required value field_name) _ h in
    let (xs, es, h'') = >>=-eq-ok (required_all values field_name) _ h' in
    let (named, full) = required-eq-ok value field_name x e in
    ((strip-strip value, rw named at full), required_all-IsLabel values field_name xs es)

pub normalized_values-eq-ok :
    (values : List String) (field_name : String) (result : List String)
    → normalized_values values field_name ≡ ok result
    → result ≡ sorted_set (map strip values)
unfolding normalized_values
normalized_values-eq-ok values field_name result h =
    let (xs, es, h') = >>=-eq-ok (required_all values field_name) _ h in
    cc (ap sorted_set (required_all-eq-ok values field_name xs es))

-- What the models store is sorted, without repetition, stripped and without empty texts.
pub normalized_values-IsNormalized :
    (values : List String) (field_name : String) (result : List String)
    → normalized_values values field_name ≡ ok result
    → IsNormalized result
unfolding normalized_values
normalized_values-IsNormalized values field_name result h =
    let (xs, es, h') = >>=-eq-ok (required_all values field_name) _ h in
    rw (normalized_values-eq-ok values field_name result h) (
      (
        sorted_set-IsIncreasing (map strip values),
        All-sorted_set IsLabel (map strip values) (required_all-IsLabel values field_name xs es),
      ))

required_all_of_IsLabel :
    (xs : List String) (field_name : String) → All IsLabel xs → required_all xs field_name ≡ ok xs
unfolding required_all
required_all_of_IsLabel [] field_name h = refl
required_all_of_IsLabel (x ∷ xs) field_name h = ground (
  arith,
  required-strip x field_name (rw h.0.0 h.0.1),
  h.0.0,
  required_all_of_IsLabel xs field_name h.1,
)

-- A stored tuple passes unchanged when it is normalized again, as `validate_labels` does.
pub normalized_values_of_IsNormalized :
    (xs : List String) (field_name : String)
    → IsNormalized xs
    → normalized_values xs field_name ≡ ok xs
unfolding normalized_values
normalized_values_of_IsNormalized xs field_name h =
    rw (required_all_of_IsLabel xs field_name h.1) (ap ok (sorted_set_of_IsIncreasing xs h.0))

pub normalized_values_fixed :
    (xs : List String) (field_name : String) (result : List String)
    → IsNormalized xs
    → normalized_values xs field_name ≡ ok result
    → result ≡ xs
normalized_values_fixed xs field_name result n h =
    cc (normalized_values_of_IsNormalized xs field_name n)

-- A text is among the stored values exactly when it is one of the given ones, stripped.
pub mem-normalized_values :
    (x : String) (values : List String) (field_name : String) (result : List String)
    → normalized_values values field_name ≡ ok result
    → mem x result ≡ mem x (map strip values)
mem-normalized_values x values field_name result h =
    ap (mem x) (normalized_values-eq-ok values field_name result h)
    ∙ mem-sorted_set x (map strip values)

required_all_any_field :
    (values : List String) (field_name other : String) (result : List String)
    → required_all values field_name ≡ ok result
    → required_all values other ≡ ok result
unfolding required_all
required_all_any_field [] field_name other result h = h
required_all_any_field (value ∷ values) field_name other result h =
    let (x, e, h') = >>=-eq-ok (required value field_name) _ h in
    let (xs, es, h'') = >>=-eq-ok (required_all values field_name) _ h' in
    rw (required_any_field value field_name other x e)
      (rw (required_all_any_field values field_name other xs es) h'')

pub normalized_values_any_field :
    (values : List String) (field_name other : String) (result : List String)
    → normalized_values values field_name ≡ ok result
    → normalized_values values other ≡ ok result
unfolding normalized_values
normalized_values_any_field values field_name other result h =
    let (xs, es, h') = >>=-eq-ok (required_all values field_name) _ h in
    rw (required_all_any_field values field_name other xs es) h'
