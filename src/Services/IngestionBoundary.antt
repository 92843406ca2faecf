-- ===== src/Services/IngestionBoundary.antt =====
-- `_verify_boundary` of sovereignflow/application/ingestion.py: a command is checked against the
-- domain.
pub mod Accepted
use sovereign_flow.Prelude.{
  ℕ, String, Bool, not, ◌&&◌, ◌||◌, List, [], ◌∷◌, Option, none, some, ◌==◌, subset, is_empty,
  is_some, is_none, length,
}
use sovereign_flow.Result.{
  Error, Result, ok, err, raised, ErrorClass, policy_violated, guard, error_code, error_message,
  ◌>>=◌, ◌>>◌,
}
use sovereign_flow.Domain.Security.{
  SecurityModelKind, none_kind, clearance_kind, labels_kind, ClearanceLevelModel, clearance_value,
  ClassificationLabelsModel, validate_labels, SecurityModel, DocumentSecurity,
}
use sovereign_flow.Domain.Chunk.{DocumentChunk}
use sovereign_flow.Domain.Profile.{DomainProfile}
use sovereign_flow.Domain.Ingestion.{
  IngestionCommand, IngestionJob, IngestionJobStatus, IngestionResult, new_ingestion_result,
}

-- `except ValidationError: raise PolicyViolationError(message)`
unfoldable pub as_refusal : String → Error → Error
as_refusal message (raised ErrorClass.validation_error m) = policy_violated message
as_refusal message other = other

unfoldable pub as_policy_violation {ℓ} : {A : Type ℓ} → String → Result A → Result A
unfolding as_refusal
as_policy_violation message (ok a) = ok a
as_policy_violation message (err e) = err (as_refusal message e)

-- The branch of the kind `clearance_level`.
unfoldable pub validate_clearance :
    Option ClearanceLevelModel → DocumentSecurity → Option String → Result (Unit {0})
unfolding as_policy_violation
validate_clearance (some model) security (some label) = do
  level ←
      as_policy_violation "Ingestion contains a forbidden clearance label"
        (clearance_value model label "chunk.security.clearance_label")
  guard (is_empty security.classification_labels)
      (policy_violated "Ingestion mixed security model metadata")
validate_clearance model security label =
    err (policy_violated "Ingestion contains incomplete clearance metadata")

-- The branch of the kind `classification_labels`.
unfoldable pub validate_classification :
    Option ClassificationLabelsModel → DocumentSecurity → Result (Unit {0})
unfolding as_policy_violation
validate_classification none security =
    err (policy_violated "Ingestion contains incomplete classification label model")
validate_classification (some model) security = do
  labels ←
      as_policy_violation "Ingestion contains a forbidden classification label" (
        validate_labels model security.classification_labels "chunk.security.classification_labels")
  guard (is_none security.clearance_label)
      (policy_violated "Ingestion mixed security model metadata")

unfoldable pub validate_by_kind :
    SecurityModelKind → SecurityModel → DocumentSecurity → Result (Unit {0})
unfolding validate_clearance validate_classification
validate_by_kind none_kind model security =
    guard (is_none security.clearance_label && is_empty security.classification_labels)
      (policy_violated "Ingestion contains security metadata for disabled model")
validate_by_kind clearance_kind model security =
    validate_clearance model.clearance_level security security.clearance_label
validate_by_kind labels_kind model security =
    validate_classification model.classification_labels security

-- `_validate_document_security`
unfoldable pub validate_document_security : SecurityModel → DocumentSecurity → Result (Unit {0})
unfolding validate_by_kind
validate_document_security model security = validate_by_kind model.kind model security

-- The loop of `_verify_boundary`.
unfoldable pub verify_chunks : DomainProfile → List DocumentChunk → Result (Unit {0})
unfolding validate_document_security
verify_chunks domain [] = ok tt
verify_chunks domain (chunk ∷ chunks) = do
  guard (is_empty chunk.acl_labels || subset chunk.acl_labels domain.allowed_acl_labels)
      (policy_violated "Ingestion contains a forbidden ACL label")
  validate_document_security domain.security_model chunk.security
  verify_chunks domain chunks

-- `_verify_boundary`
unfoldable pub verify_boundary : DomainProfile → IngestionCommand → Result (Unit {0})
unfolding verify_chunks
verify_boundary domain command = do
  guard (command.domain == domain.name && command.tenant_id == domain.tenant_id)
      (policy_violated "Ingestion crossed a domain or tenant boundary")
  verify_chunks domain command.chunks
