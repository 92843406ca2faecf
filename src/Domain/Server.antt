-- ===== src/Domain/Server.antt =====
-- Model servers, what a retrieved context requires of one, and whether a server satisfies it:
-- sovereignflow/domain/models.py.
mod ClearanceCover
mod LabelCover
pub mod Soundness
use sovereign_flow.Prelude.{
  String, Bool, true, false, not, ◌||◌, List, [], ◌∷◌, ◌++◌, Option, none, some, leb, if◌then◌else◌,
  subset, is_empty, is_some, is_none,
}
use sovereign_flow.Prelude.Int.{ℤ, pos, negsuc, ltb_ℤ}
use sovereign_flow.Result.{Result, ok, err, validation, guard, ◌>>=◌, ◌>>◌}
use sovereign_flow.Text.Strip.{required}
use sovereign_flow.Text.Order.{sorted_set}
use sovereign_flow.Text.Normal.{normalized_values}
use sovereign_flow.Domain.Security.{
  SecurityModelKind, none_kind, clearance_kind, labels_kind, ClearanceLevelModel, clearance_value,
  ClassificationLabelsModel, validate_labels, SecurityModel, SecurityDecision, decide_by,
  required_model, required_option,
}
use sovereign_flow.Domain.Chunk.{SearchHit}

pub data TrustBoundary : Type 0 where
  internal external : TrustBoundary

pub data ExternalTransmissionPolicy : Type 0 where
  allowed_policy forbidden_policy : ExternalTransmissionPolicy

-- `left == right` on kinds.
abbrev pub same_kind : SecurityModelKind → SecurityModelKind → Bool
same_kind none_kind none_kind = true
same_kind clearance_kind clearance_kind = true
same_kind labels_kind labels_kind = true
same_kind _ _ = false

pub record ModelServerSecurityProfile : Type 0 where
  pub security_model_kind : SecurityModelKind
  pub clearance_label : Option String
  pub classification_labels : List String

unfoldable pub new_model_server_security_profile :
    SecurityModelKind → Option String → List String → Result ModelServerSecurityProfile
new_model_server_security_profile none_kind clearance labels = do
  guard (not (is_some clearance || not (is_empty labels)))
      (validation "ModelServerSecurityProfile none must not define labels")
  ok (record {
    security_model_kind = none_kind;
    clearance_label = clearance;
    classification_labels = labels;
  })
new_model_server_security_profile clearance_kind clearance labels = do
  guard (not (is_none clearance || not (is_empty labels)))
      (validation "ModelServerSecurityProfile clearance_level requires clearance_label only")
  clearance' ← required_option clearance "ModelServerSecurityProfile.clearance_label"
  ok (record {
    security_model_kind = clearance_kind;
    clearance_label = clearance';
    classification_labels = labels;
  })
new_model_server_security_profile labels_kind clearance labels = do
  guard (not (is_some clearance))
      (validation "ModelServerSecurityProfile classification_labels cannot define clearance_label")
  labels' ← normalized_values labels "ModelServerSecurityProfile.classification_labels"
  ok (record {
    security_model_kind = labels_kind;
    clearance_label = clearance;
    classification_labels = labels';
  })

pub record ModelServerDefinition : Type 0 where
  pub server_id : String
  pub trust_boundary : TrustBoundary
  pub security_profile : ModelServerSecurityProfile
  pub security_reroute_server_id : Option String

pub record ContextSecurityRequirement : Type 0 where
  pub security_model_kind : SecurityModelKind
  pub clearance_label : Option String
  pub classification_labels : List String

unfoldable pub new_context_security_requirement :
    SecurityModelKind → Option String → List String → Result ContextSecurityRequirement
new_context_security_requirement clearance_kind clearance labels = do
  clearance' ← required_option clearance "ContextSecurityRequirement.clearance_label"
  guard (is_empty labels)
      (validation "ContextSecurityRequirement clearance_level cannot define labels")
  ok (record {
    security_model_kind = clearance_kind;
    clearance_label = clearance';
    classification_labels = labels;
  })
new_context_security_requirement labels_kind clearance labels = do
  guard (is_none clearance)
      (validation "ContextSecurityRequirement classification_labels cannot define clearance")
  labels' ← normalized_values labels "ContextSecurityRequirement.classification_labels"
  ok (record {
    security_model_kind = labels_kind;
    clearance_label = clearance;
    classification_labels = labels';
  })
new_context_security_requirement none_kind clearance labels = do
  guard (not (is_some clearance || not (is_empty labels)))
      (validation "ContextSecurityRequirement none must not define labels")
  ok (record {
    security_model_kind = none_kind;
    clearance_label = clearance;
    classification_labels = labels;
  })

-- A label that must be present.
unfoldable pub present_label : Option String → Result String
present_label none = err (validation "Retrieved context contains missing clearance label")
present_label (some label) = ok label

-- The loop over the hits: the highest label so far and its value, which starts at -1.
unfoldable pub highest_clearance :
    ClearanceLevelModel → List SearchHit → Option String → ℤ → Result (Option String)
unfolding present_label
highest_clearance clearance [] highest_label highest_value = ok highest_label
highest_clearance clearance (hit ∷ hits) highest_label highest_value = do
  label ← present_label hit.chunk.security.clearance_label
  value ← clearance_value clearance label "DocumentSecurity.clearance_label"
  highest_clearance clearance hits
      (if ltb_ℤ highest_value (pos value) then some label else highest_label)
      (if ltb_ℤ highest_value (pos value) then pos value else highest_value)

-- `required.update(…)` for each hit; the set is a list here, sorted when it is used.
unfoldable pub required_labels :
    ClassificationLabelsModel → List SearchHit → List String → Result (List String)
required_labels labels_model [] found = ok found
required_labels labels_model (hit ∷ hits) found = do
  labels ←
      validate_labels labels_model hit.chunk.security.classification_labels
        "DocumentSecurity.classification_labels"
  required_labels labels_model hits (found ++ labels)

unfoldable pub requirement_by_kind :
    SecurityModelKind → SecurityModel → List SearchHit → Result ContextSecurityRequirement
unfolding required_model
requirement_by_kind none_kind model hits = new_context_security_requirement none_kind none []
requirement_by_kind clearance_kind model hits = do
  clearance ← required_model model.clearance_level
  highest_label ← highest_clearance clearance hits none (negsuc 0)
  new_context_security_requirement clearance_kind highest_label []
requirement_by_kind labels_kind model hits = do
  labels_model ← required_model model.classification_labels
  found ← required_labels labels_model hits []
  new_context_security_requirement labels_kind none (sorted_set found)

unfoldable pub context_security_requirement :
    SecurityModel → List SearchHit → Result ContextSecurityRequirement
unfolding requirement_by_kind
context_security_requirement model hits = requirement_by_kind model.kind model hits

unfoldable pub server_clearance_decision :
    Option ClearanceLevelModel → Option String → Option String → Result SecurityDecision
unfolding required_model
server_clearance_decision model server none =
    ok (record { allowed = true; reason_code = "model_server_allowed_empty_context" })
server_clearance_decision model none (some needed) = do
  clearance ← required_model model
  ok (record { allowed = false; reason_code = "model_server_clearance_missing" })
server_clearance_decision model (some server) (some needed) = do
  clearance ← required_model model
  server_value ← clearance_value clearance server "ModelServerSecurityProfile.clearance_label"
  needed_value ← clearance_value clearance needed "ContextSecurityRequirement.clearance_label"
  ok (
      decide_by (leb needed_value server_value) "model_server_allowed"
        "model_server_clearance_too_low")

unfoldable pub server_labels_decision :
    Option ClassificationLabelsModel → List String → List String → Result SecurityDecision
unfolding required_model
server_labels_decision model server needed = do
  labels_model ← required_model model
  server_labels ←
      validate_labels labels_model server "ModelServerSecurityProfile.classification_labels"
  needed_labels ←
      validate_labels labels_model needed "ContextSecurityRequirement.classification_labels"
  ok (
      decide_by (subset needed_labels server_labels) "model_server_allowed"
        "model_server_labels_missing")

unfoldable pub satisfies_by_kind :
    SecurityModelKind
    → SecurityModel
    → ModelServerSecurityProfile
    → ContextSecurityRequirement
    → Result SecurityDecision
unfolding server_clearance_decision server_labels_decision
satisfies_by_kind none_kind model profile requirement =
    ok (record { allowed = true; reason_code = "model_server_allowed" })
satisfies_by_kind clearance_kind model profile requirement =
    server_clearance_decision model.clearance_level profile.clearance_label
      requirement.clearance_label
satisfies_by_kind labels_kind model profile requirement =
    server_labels_decision model.classification_labels profile.classification_labels
      requirement.classification_labels

unfoldable pub model_server_satisfies_requirement :
    SecurityModel → ModelServerDefinition → ContextSecurityRequirement → Result SecurityDecision
unfolding satisfies_by_kind
model_server_satisfies_requirement model server requirement =
    if same_kind server.security_profile.security_model_kind model.kind
    then satisfies_by_kind model.kind model server.security_profile requirement
    else ok (record { allowed = false; reason_code = "model_server_security_model_mismatch" })
