-- ===== src/Services/IngestionBoundary/Accepted.antt =====
-- What a command that passes `_verify_boundary` holds, and that its documents can be judged.
use sovereign_flow.Prelude.{
  ℕ, String, ◌≡◌, refl, Bool, true, ◌&&◌, ◌||◌, List, [], ◌∷◌, Option, none, some, ◌==◌, eq_iff,
  subset, is_empty, is_none, All, arith, ◌↔◌, leb,
}
use sovereign_flow.Result.{Result, ok, err, >>=-eq-ok, guard-eq-ok, guard-true}
use sovereign_flow.Domain.Security.{
  SecurityModelKind, none_kind, clearance_kind, labels_kind, ClearanceLevelModel, clearance_value,
  ClassificationLabelsModel, validate_labels, SecurityModel, DocumentSecurity, SubjectSecurity,
  SecurityDecision, visible_by_kind, document_visible_to_subject, clearance_decision,
  labels_decision, decide_by,
}
use sovereign_flow.Domain.Security.Accepted.{
  HasLevel, clearance_value-eq-ok, clearance_value_of_HasLevel, HasLabels, validate_labels-eq-ok,
  validate_labels_of_HasLabels,
}
use sovereign_flow.Domain.Chunk.{DocumentChunk}
use sovereign_flow.Domain.Profile.{DomainProfile}
use sovereign_flow.Domain.Ingestion.{IngestionCommand}
use sovereign_flow.Services.IngestionBoundary.{
  as_policy_violation, validate_clearance, validate_classification, validate_by_kind,
  validate_document_security, verify_chunks, verify_boundary,
}

-- The security metadata is that of the model's kind, with labels that the model has, and no other.
abbrev pub Fits : SecurityModelKind → SecurityModel → DocumentSecurity → Type 0
Fits none_kind model security =
    (security.clearance_label ≡ none) × (security.classification_labels ≡ [])
Fits clearance_kind model security =
    (m : ClearanceLevelModel) × (model.clearance_level ≡ some m)
    × (label : String) × (n : ℕ) × (security.clearance_label ≡ some label)
    × HasLevel m label n
    × (security.classification_labels ≡ [])
Fits labels_kind model security =
    (m : ClassificationLabelsModel) × (model.classification_labels ≡ some m)
    × (labels : List String) × HasLabels m security.classification_labels labels
    × (security.clearance_label ≡ none)

as_policy_violation-eq-ok :
    {A : Type 0} (message : String) (r : Result A) (a : A)
    → as_policy_violation message r ≡ ok a
    → r ≡ ok a
unfolding as_policy_violation
as_policy_violation-eq-ok message (ok b) a h = h
as_policy_violation-eq-ok message (err e) a h = cc

nil_of : {A : Type 0} (xs : List A) → is_empty xs ≡ true → xs ≡ []
nil_of [] h = refl
nil_of (x ∷ xs) h = cc

none_of : {A : Type 0} (o : Option A) → is_none o ≡ true → o ≡ none
none_of none h = refl
none_of (some a) h = cc

validate_clearance-Fits :
    (o : Option ClearanceLevelModel) (security : DocumentSecurity) (label : Option String)
    → validate_clearance o security label ≡ ok tt
    → (m : ClearanceLevelModel) × (o ≡ some m)
      × (x : String) × (n : ℕ) × (label ≡ some x)
      × HasLevel m x n
      × (security.classification_labels ≡ [])
unfolding validate_clearance
validate_clearance-Fits none security label h = cc
validate_clearance-Fits (some m) security none h = cc
validate_clearance-Fits (some m) security (some label) h =
    let (n, e, h₁) = >>=-eq-ok (as_policy_violation _ (clearance_value m label _)) _ h in
    let level = as_policy_violation-eq-ok _ (clearance_value m label _) n e in
    (
      m,
      refl,
      label,
      n,
      refl,
      clearance_value-eq-ok m label _ n level,
      nil_of security.classification_labels (guard-true _ _ h₁),
    )

validate_classification-Fits :
    (o : Option ClassificationLabelsModel) (security : DocumentSecurity)
    → validate_classification o security ≡ ok tt
    → (m : ClassificationLabelsModel) × (o ≡ some m)
      × (labels : List String) × HasLabels m security.classification_labels labels
      × (security.clearance_label ≡ none)
unfolding validate_classification
validate_classification-Fits none security h = cc
validate_classification-Fits (some m) security h =
    let (labels, e, h₁) =
      >>=-eq-ok (as_policy_violation _ (validate_labels m security.classification_labels _)) _ h in
    let valid =
      as_policy_violation-eq-ok _ (validate_labels m security.classification_labels _) labels e in
    (
      m,
      refl,
      labels,
      validate_labels-eq-ok m security.classification_labels _ labels valid,
      none_of security.clearance_label (guard-true _ _ h₁),
    )

validate-Fits :
    (kind : SecurityModelKind) (model : SecurityModel) (security : DocumentSecurity)
    → validate_by_kind kind model security ≡ ok tt
    → Fits kind model security
unfolding validate_by_kind
validate-Fits none_kind model security h =
    let both = guard-true _ _ h in
    (
      none_of security.clearance_label (ground arith),
      nil_of security.classification_labels (ground arith),
    )
validate-Fits clearance_kind model security h =
    validate_clearance-Fits model.clearance_level security security.clearance_label h
validate-Fits labels_kind model security h =
    validate_classification-Fits model.classification_labels security h

Fits-validate :
    (kind : SecurityModelKind) (model : SecurityModel) (security : DocumentSecurity)
    → Fits kind model security
    → validate_by_kind kind model security ≡ ok tt
unfolding validate_by_kind validate_clearance validate_classification as_policy_violation
Fits-validate none_kind model security (a, b) = rw a (rw b refl)
Fits-validate clearance_kind model security (m, e, label, n, named, level, bare) =
    rw e (rw named (rw (clearance_value_of_HasLevel m label _ n level) (rw bare refl)))
Fits-validate labels_kind model security (m, e, labels, has, bare) =
    rw e (
      rw (validate_labels_of_HasLabels m security.classification_labels _ labels has)
        (rw bare refl))

-- A chunk that the domain takes.
pub record IsAdmitted (domain : DomainProfile) (chunk : DocumentChunk) : Type 0 where
  pub acl : subset chunk.acl_labels domain.allowed_acl_labels ≡ true
  pub fits : Fits domain.security_model.kind domain.security_model chunk.security

pub record IsBounded (domain : DomainProfile) (command : IngestionCommand) : Type 0 where
  pub same_domain : command.domain ≡ domain.name
  pub same_tenant : command.tenant_id ≡ domain.tenant_id
  pub chunks : All (IsAdmitted domain) command.chunks

verify_chunks-All :
    (domain : DomainProfile) (chunks : List DocumentChunk)
    → verify_chunks domain chunks ≡ ok tt
    → All (IsAdmitted domain) chunks
unfolding verify_chunks validate_document_security
verify_chunks-All domain [] h = tt
verify_chunks-All domain (c ∷ chunks) h =
    let (acl, h₁) =
      guard-eq-ok (is_empty c.acl_labels || subset c.acl_labels domain.allowed_acl_labels) _ _ h in
    let (_, valid, h₂) =
      >>=-eq-ok (validate_by_kind domain.security_model.kind domain.security_model c.security) _
        h₁ in
    (
      record {
        acl = subset_or_empty c.acl_labels domain.allowed_acl_labels acl;
        fits = validate-Fits domain.security_model.kind domain.security_model c.security valid;
      },
      verify_chunks-All domain chunks h₂,
    )
  where
    subset_or_empty :
        (xs ys : List String) → (is_empty xs || subset xs ys) ≡ true → subset xs ys ≡ true
    subset_or_empty [] ys e = refl
    subset_or_empty (x ∷ xs) ys e = e

All-verify_chunks :
    (domain : DomainProfile) (chunks : List DocumentChunk)
    → All (IsAdmitted domain) chunks
    → verify_chunks domain chunks ≡ ok tt
unfolding verify_chunks validate_document_security
All-verify_chunks domain [] h = refl
All-verify_chunks domain (c ∷ chunks) h = rw (h.0.acl) (
    rw (or_true (is_empty c.acl_labels)) (
      rw (Fits-validate domain.security_model.kind domain.security_model c.security h.0.fits)
        (All-verify_chunks domain chunks h.1)))
  where
    or_true : (b : Bool) → (b || true) ≡ true
    or_true b = ground arith

-- A command passes the boundary exactly when it is for the domain and the tenant, the ACL labels of
-- each chunk are allowed, and its security metadata is what the domain's model asks for.
pub verify_boundary_iff :
    (domain : DomainProfile) (command : IngestionCommand)
    → verify_boundary domain command ≡ ok tt ↔ IsBounded domain command
unfolding verify_boundary
verify_boundary_iff domain command = (
  λ h.
      let (same, h₁) =
        guard-eq-ok (command.domain == domain.name && command.tenant_id == domain.tenant_id) _ _
          h in
      record {
        same_domain = (eq_iff command.domain domain.name).0 (ground arith);
        same_tenant = (eq_iff command.tenant_id domain.tenant_id).0 (ground arith);
        chunks = verify_chunks-All domain command.chunks h₁;
      },
  λ b. rw ((eq_iff command.domain domain.name).1 b.same_domain) (
      rw ((eq_iff command.tenant_id domain.tenant_id).1 b.same_tenant)
        (All-verify_chunks domain command.chunks b.chunks)),
)

-- What a subject carries is known to the model, as far as it carries something.
abbrev pub Knows : SecurityModelKind → SecurityModel → SubjectSecurity → Type 0
Knows none_kind model subject = Unit
Knows clearance_kind model subject =
    (m : ClearanceLevelModel)
    → model.clearance_level ≡ some m
    → (label : String) → subject.clearance_label ≡ some label
    → (n : ℕ) × HasLevel m label n
Knows labels_kind model subject =
    (m : ClassificationLabelsModel)
    → model.classification_labels ≡ some m
    → (labels : List String) × HasLabels m subject.classification_labels labels

clearance_decided :
    (m : ClearanceLevelModel) (label : String) (n : ℕ) (subject : Option String)
    → HasLevel m label n
    → ((x : String) → subject ≡ some x → (k : ℕ) × HasLevel m x k)
    → (d : SecurityDecision) × (clearance_decision (some m) (some label) subject ≡ ok d)
unfolding clearance_decision
clearance_decided m label n none has known =
    (record { allowed = Bool.false; reason_code = "subject_clearance_missing" }, refl)
clearance_decided m label n (some x) has known =
    let (k, level) = known x refl in
    (
      decide_by (leb n k) "clearance_allowed" "clearance_denied",
      rw (clearance_value_of_HasLevel m label _ n has)
          (rw (clearance_value_of_HasLevel m x _ k level)),
    )

by_kind_decided :
    (kind : SecurityModelKind) (model : SecurityModel) (document : DocumentSecurity)
    (subject : SubjectSecurity)
    → Fits kind model document
    → Knows kind model subject
    → (d : SecurityDecision) × (visible_by_kind kind model document subject ≡ ok d)
unfolding visible_by_kind labels_decision
by_kind_decided none_kind model document subject fits known =
    (record { allowed = true; reason_code = "security_model_none" }, refl)
by_kind_decided clearance_kind model document subject (m, e, label, n, named, has, bare) known =
    let (d, h) = clearance_decided m label n subject.clearance_label has (known m e) in
    (d, rw e (rw named h))
by_kind_decided labels_kind model document subject (m, e, labels, has, bare) known =
    let (own, subject_has) = known m e in
    (
      decide_by (subset labels own) "classification_labels_allowed" "classification_labels_denied",
      rw e (
          rw (validate_labels_of_HasLabels m document.classification_labels _ labels has)
            (rw (validate_labels_of_HasLabels m subject.classification_labels _ own subject_has))),
    )

chunks_decided :
    (domain : DomainProfile) (subject : SubjectSecurity) (chunks : List DocumentChunk)
    → All (IsAdmitted domain) chunks
    → Knows domain.security_model.kind domain.security_model subject
    → All
        (λ c.
          (d : SecurityDecision) × (document_visible_to_subject domain.security_model c.security
              subject
            ≡ ok d))
        chunks
unfolding document_visible_to_subject
chunks_decided domain subject [] h known = tt
chunks_decided domain subject (c ∷ chunks) h known = (
  by_kind_decided domain.security_model.kind domain.security_model c.security subject h.0.fits
      known,
  chunks_decided domain subject chunks h.1 known,
)

-- For a subject whose labels the domain's model knows, the visibility of every chunk of a command
-- that passed the boundary comes to a decision: no retrieval of it fails on its metadata.
pub verify_boundary-decided :
    (domain : DomainProfile) (command : IngestionCommand) (subject : SubjectSecurity)
    → verify_boundary domain command ≡ ok tt
    → Knows domain.security_model.kind domain.security_model subject
    → All
        (λ c.
          (d : SecurityDecision) × (document_visible_to_subject domain.security_model c.security
              subject
            ≡ ok d))
        command.chunks
verify_boundary-decided domain command subject h known =
    let bounded = (verify_boundary_iff domain command).0 h in
    chunks_decided domain subject command.chunks bounded.chunks known
