-- ===== src/Domain/Security.antt =====
-- The security models of sovereignflow/domain/models.py, and who may see a document. A record is
-- what the dataclass holds after `__post_init__`; a function `new_…` is that constructor.
pub mod Accepted
pub mod Visibility
pub mod Allowed
pub mod Levels
use sovereign_flow.Prelude.{
  ℕ, String, Bool, true, false, not, ◌||◌, List, [], ◌∷◌, Option, none, some, ◌==◌, leb, eqb,
  if◌then◌else◌, length, lookup, insert, keys, mem, subset, intersection, difference, is_empty,
  is_some, is_none,
}
use sovereign_flow.Prelude.Int.{pos, negsuc}
use sovereign_flow.Result.{Result, ok, err, validation, guard, ◌>>=◌, ◌>>◌}
use sovereign_flow.Text.Strip.{required}
use sovereign_flow.Text.Order.{sorted_set}
use sovereign_flow.Text.Normal.{normalized_values}
use sovereign_flow.Value.{Value}

pub data SecurityModelKind : Type 0 where
  none_kind clearance_kind labels_kind : SecurityModelKind

-- A dictionary of distinct labels.
pub record ClearanceLevelModel : Type 0 where
  pub levels : List (String × ℕ)

-- A level must be a non-negative integer; a Python `bool` is refused.
unfoldable pub level_of : Value → Result ℕ
level_of (Value.int (pos n)) = ok n
level_of other = err (validation "ClearanceLevelModel levels must be non-negative integers")

unfoldable pub normalized_levels :
    List (String × Value) → List (String × ℕ) → Result (List (String × ℕ))
unfolding level_of
normalized_levels [] normalized = ok normalized
normalized_levels ((label, value) ∷ rest) normalized = do
  normalized_label ← required label "ClearanceLevelModel.levels[]"
  level ← level_of value
  normalized_levels rest (insert normalized_label level normalized)

unfoldable pub new_clearance_level_model : List (String × Value) → Result ClearanceLevelModel
unfolding normalized_levels
new_clearance_level_model levels = do
  guard (not (is_empty levels)) (validation "ClearanceLevelModel.levels cannot be empty")
  normalized ← normalized_levels levels []
  guard (eqb (length normalized) (length levels))
      (validation "ClearanceLevelModel levels must be unique")
  ok (record { levels = normalized })

unfoldable pub level_at : Option ℕ → Result ℕ
level_at none = err (validation "is not allowed by the clearance model")
level_at (some n) = ok n

-- `ClearanceLevelModel.value`
unfoldable pub clearance_value : ClearanceLevelModel → String → String → Result ℕ
unfolding level_at
clearance_value model label field_name = do
  normalized ← required label field_name
  level_at (lookup normalized model.levels)

unfoldable pub labels_up_to : ℕ → List (String × ℕ) → List String
labels_up_to bound [] = []
labels_up_to bound ((label, value) ∷ rest) =
    let others = labels_up_to bound rest in if leb value bound then label ∷ others else others

-- The keys are distinct, so `sorted` of them is `sorted` of their set.
unfoldable pub allowed_document_labels : ClearanceLevelModel → String → Result (List String)
unfolding labels_up_to
allowed_document_labels model subject_label = do
  subject_value ← clearance_value model subject_label "SubjectSecurity.clearance_label"
  ok (sorted_set (labels_up_to subject_value model.levels))

pub record ClassificationLabelsModel : Type 0 where
  pub labels_universe_subset : List String

unfoldable pub new_classification_labels_model : List String → Result ClassificationLabelsModel
new_classification_labels_model labels = do
  normalized ← normalized_values labels "ClassificationLabelsModel.labels_universe_subset"
  guard (not (is_empty normalized))
      (validation "ClassificationLabelsModel.labels_universe_subset cannot be empty")
  ok (record { labels_universe_subset = normalized })

unfoldable pub validate_labels :
    ClassificationLabelsModel → List String → String → Result (List String)
validate_labels model labels field_name = do
  normalized ← normalized_values labels field_name
  guard (is_empty (difference normalized model.labels_universe_subset))
      (validation "contains labels outside the configured universe")
  ok normalized

pub record SecurityModel : Type 0 where
  pub kind : SecurityModelKind
  pub clearance_level : Option ClearanceLevelModel
  pub classification_labels : Option ClassificationLabelsModel

unfoldable pub new_security_model :
    SecurityModelKind
    → Option ClearanceLevelModel
    → Option ClassificationLabelsModel
    → Result SecurityModel
new_security_model none_kind clearance labels = do
  guard (not (is_some clearance || is_some labels))
      (validation "SecurityModel none must not define security details")
  ok (record { kind = none_kind; clearance_level = clearance; classification_labels = labels })
new_security_model clearance_kind clearance labels = do
  guard (not (is_none clearance || is_some labels))
      (validation "SecurityModel clearance_level requires levels only")
  ok (record { kind = clearance_kind; clearance_level = clearance; classification_labels = labels })
new_security_model labels_kind clearance labels = do
  guard (not (is_none labels || is_some clearance))
      (validation "SecurityModel classification_labels requires labels universe only")
  ok (record { kind = labels_kind; clearance_level = clearance; classification_labels = labels })

-- `_required` of a field that may be absent.
unfoldable pub required_option : Option String → String → Result (Option String)
required_option none field_name = ok none
required_option (some value) field_name = do
  normalized ← required value field_name
  ok (some normalized)

pub record DocumentSecurity : Type 0 where
  pub clearance_label : Option String
  pub classification_labels : List String

unfoldable pub new_document_security : Option String → List String → Result DocumentSecurity
unfolding required_option
new_document_security clearance labels = do
  clearance' ← required_option clearance "DocumentSecurity.clearance_label"
  labels' ← normalized_values labels "DocumentSecurity.classification_labels"
  ok (record { clearance_label = clearance'; classification_labels = labels' })

pub record SubjectSecurity : Type 0 where
  pub clearance_label : Option String
  pub classification_labels : List String

unfoldable pub new_subject_security : Option String → List String → Result SubjectSecurity
unfolding required_option
new_subject_security clearance labels = do
  clearance' ← required_option clearance "SubjectSecurity.clearance_label"
  labels' ← normalized_values labels "SubjectSecurity.classification_labels"
  ok (record { clearance_label = clearance'; classification_labels = labels' })

pub record SecurityDecision : Type 0 where
  pub allowed : Bool
  pub reason_code : String

abbrev pub decide_by : Bool → String → String → SecurityDecision
decide_by allowed granted denied = record {
  allowed = allowed;
  reason_code = if allowed then granted else denied;
}

-- `_required_model`
unfoldable pub required_model {ℓ} : {A : Type ℓ} → Option A → Result A
required_model none = err (validation "SecurityModel is required")
required_model (some model) = ok model

unfoldable pub clearance_decision :
    Option ClearanceLevelModel → Option String → Option String → Result SecurityDecision
unfolding required_model
clearance_decision model none subject =
    ok (record { allowed = false; reason_code = "document_clearance_missing" })
clearance_decision model (some document) none =
    ok (record { allowed = false; reason_code = "subject_clearance_missing" })
clearance_decision model (some document) (some subject) = do
  clearance ← required_model model
  document_value ← clearance_value clearance document "DocumentSecurity.clearance_label"
  subject_value ← clearance_value clearance subject "SubjectSecurity.clearance_label"
  ok (decide_by (leb document_value subject_value) "clearance_allowed" "clearance_denied")

unfoldable pub labels_decision :
    Option ClassificationLabelsModel → List String → List String → Result SecurityDecision
unfolding required_model
labels_decision model document subject = do
  labels_model ← required_model model
  document_labels ← validate_labels labels_model document "DocumentSecurity.classification_labels"
  subject_labels ← validate_labels labels_model subject "SubjectSecurity.classification_labels"
  ok (
      decide_by (subset document_labels subject_labels) "classification_labels_allowed"
        "classification_labels_denied")

unfoldable pub visible_by_kind :
    SecurityModelKind → SecurityModel → DocumentSecurity → SubjectSecurity → Result SecurityDecision
unfolding clearance_decision labels_decision
visible_by_kind none_kind model document subject =
    ok (record { allowed = true; reason_code = "security_model_none" })
visible_by_kind clearance_kind model document subject =
    clearance_decision model.clearance_level document.clearance_label subject.clearance_label
visible_by_kind labels_kind model document subject =
    labels_decision model.classification_labels document.classification_labels
      subject.classification_labels

unfoldable pub document_visible_to_subject :
    SecurityModel → DocumentSecurity → SubjectSecurity → Result SecurityDecision
unfolding visible_by_kind
document_visible_to_subject model document subject =
    visible_by_kind model.kind model document subject

-- Any common label opens a document; a document without labels is public.
unfoldable pub acl_visible_to_subject : List String → List String → Result SecurityDecision
acl_visible_to_subject document_acl_labels subject_acl_labels = do
  document_labels ← normalized_values document_acl_labels "document_acl_labels"
  if is_empty document_labels
      then ok (record { allowed = true; reason_code = "acl_public" })
      else do
        subject_labels ← normalized_values subject_acl_labels "subject_acl_labels"
        ok (
            decide_by (not (is_empty (intersection document_labels subject_labels))) "acl_allowed"
              "acl_denied")
