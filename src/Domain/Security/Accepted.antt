-- ===== src/Domain/Security/Accepted.antt =====
-- When a level or a tuple of labels is accepted by a security model.
use sovereign_flow.Prelude.{
  ℕ, String, ◌≡◌, ◌≢◌, refl, ap, ◌∙◌, true, List, [], ◌∷◌, some, arith, lookup, subset,
  subset_of_difference_nil, difference_nil_of_subset, is_empty,
}
use sovereign_flow.Result.{ok, >>=-eq-ok, guard-eq-ok}
use sovereign_flow.Text.Strip.{strip, required, required-eq-ok, required-strip, strip-strip}
use sovereign_flow.Text.Normal.{
  normalized_values, IsNormalized, normalized_values-IsNormalized,
  normalized_values_of_IsNormalized, normalized_values_any_field,
}
use sovereign_flow.Domain.Security.{
  ClearanceLevelModel, clearance_value, ClassificationLabelsModel, validate_labels,
}

-- The label, stripped, is one of the model's and has this level.
abbrev pub HasLevel : ClearanceLevelModel → String → ℕ → Type 0
HasLevel model label n = (strip label ≢ "") × (lookup (strip label) model.levels ≡ some n)

pub clearance_value-eq-ok :
    (model : ClearanceLevelModel) (label field_name : String) (n : ℕ)
    → clearance_value model label field_name ≡ ok n
    → HasLevel model label n
unfolding clearance_value
clearance_value-eq-ok model label field_name n h =
    let (x, e, h') = >>=-eq-ok (required label field_name) _ h in
    let (named, full) = required-eq-ok label field_name x e in
    (rw named at full, ground (arith, named, lookup (strip label) model.levels))

pub clearance_value_of_HasLevel :
    (model : ClearanceLevelModel) (label field_name : String) (n : ℕ)
    → HasLevel model label n
    → clearance_value model label field_name ≡ ok n
unfolding clearance_value
clearance_value_of_HasLevel model label field_name n h =
    rw (required-strip label field_name h.0) (ground arith)

pub HasLevel-strip :
    (model : ClearanceLevelModel) (label : String) (n : ℕ)
    → HasLevel model label n
    → HasLevel model (strip label) n
HasLevel-strip model label n h = rw (strip-strip label) h

-- The labels, stripped and sorted, are `result`, all of the model's universe.
pub record HasLabels (model : ClassificationLabelsModel) (labels result : List String)
    : Type 0 where
  pub normal : IsNormalized result
  pub sorted : (field_name : String) → normalized_values labels field_name ≡ ok result
  pub inside : subset result model.labels_universe_subset ≡ true

nil_of_is_empty : (xs : List String) → is_empty xs ≡ true → xs ≡ []
nil_of_is_empty [] h = refl
nil_of_is_empty (x ∷ xs) h = cc

pub validate_labels-eq-ok :
    (model : ClassificationLabelsModel) (labels : List String) (field_name : String)
    (result : List String)
    → validate_labels model labels field_name ≡ ok result
    → HasLabels model labels result
unfolding validate_labels
validate_labels-eq-ok model labels field_name result h =
    let (xs, e, h') = >>=-eq-ok (normalized_values labels field_name) _ h in
    let (known, done) = guard-eq-ok _ _ (ok xs) h' in
    let same : xs ≡ result = cc in
    let e' : normalized_values labels field_name ≡ ok result = e ∙ ap ok same in
    record {
      normal = normalized_values-IsNormalized labels field_name result e';
      sorted = λ other. normalized_values_any_field labels field_name other result e';
      inside =
          subset_of_difference_nil result model.labels_universe_subset
            (nil_of_is_empty _ (rw same at known));
    }

pub validate_labels_of_HasLabels :
    (model : ClassificationLabelsModel) (labels : List String) (field_name : String)
    (result : List String)
    → HasLabels model labels result
    → validate_labels model labels field_name ≡ ok result
unfolding validate_labels
validate_labels_of_HasLabels model labels field_name result h =
    rw (h.sorted field_name)
      (rw (difference_nil_of_subset result model.labels_universe_subset h.inside))

-- Labels that were accepted are accepted as they are.
pub HasLabels-self :
    (model : ClassificationLabelsModel) (labels result : List String)
    → HasLabels model labels result
    → HasLabels model result result
HasLabels-self model labels result h = record {
  normal = h.normal;
  sorted = λ field_name. normalized_values_of_IsNormalized result field_name h.normal;
  inside = h.inside;
}
