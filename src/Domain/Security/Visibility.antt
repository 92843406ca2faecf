-- ===== src/Domain/Security/Visibility.antt =====
-- Who sees a document: `document_visible_to_subject` of sovereignflow/domain/models.py.
use sovereign_flow.Prelude.{
  ℕ, String, ◌≡◌, ◌≢◌, refl, true, ◌≤◌, List, Option, none, some, arith, le→leb, subset,
  Option-cases, inl, inr, ◌↔◌,
}
use sovereign_flow.Result.{ok, >>=-eq-ok}
use sovereign_flow.Domain.Security.{
  SecurityModelKind, none_kind, clearance_kind, labels_kind, visible_by_kind, ClearanceLevelModel,
  clearance_value, ClassificationLabelsModel, validate_labels, SecurityModel, DocumentSecurity,
  SubjectSecurity, SecurityDecision, document_visible_to_subject, clearance_decision,
  labels_decision,
}
use sovereign_flow.Domain.Security.Accepted.{
  HasLevel, clearance_value-eq-ok, clearance_value_of_HasLevel, HasLabels, validate_labels-eq-ok,
  validate_labels_of_HasLabels,
}

-- The decision is reached, and it is to allow.
pub record Visible (model : SecurityModel) (document : DocumentSecurity) (subject : SubjectSecurity)
    : Type 0 where
  pub decision : SecurityDecision
  pub decided : document_visible_to_subject model document subject ≡ ok decision
  pub granted : decision.allowed ≡ true

-- Both labels have a level, and the document's is not above the subject's.
pub record Cleared (model : ClearanceLevelModel) (document subject : Option String) : Type 0 where
  pub document_label : String
  pub subject_label : String
  pub document_level : ℕ
  pub subject_level : ℕ
  pub document_named : document ≡ some document_label
  pub subject_named : subject ≡ some subject_label
  pub document_has : HasLevel model document_label document_level
  pub subject_has : HasLevel model subject_label subject_level
  pub below : document_level ≤ subject_level

-- The document's labels, sorted, are all among the subject's.
pub record Labelled (model : ClassificationLabelsModel) (document subject : List String)
    : Type 0 where
  pub document_labels : List String
  pub subject_labels : List String
  pub document_has : HasLabels model document document_labels
  pub subject_has : HasLabels model subject subject_labels
  pub covered : subset document_labels subject_labels ≡ true

clearance_decision-Cleared :
    (c : ClearanceLevelModel) (document subject : Option String) (d : SecurityDecision)
    → clearance_decision (some c) document subject ≡ ok d
    → d.allowed ≡ true
    → Cleared c document subject
unfolding clearance_decision
clearance_decision-Cleared c none subject d h g = absurd (ground arith)
clearance_decision-Cleared c (some document) none d h g = absurd (ground arith)
clearance_decision-Cleared c (some document) (some subject) d h g =
    let (m, dm, h') = >>=-eq-ok (clearance_value c document _) _ h in
    let (n, dn, h'') = >>=-eq-ok (clearance_value c subject _) _ h' in
    record {
      document_label = document;
      subject_label = subject;
      document_level = m;
      subject_level = n;
      document_named = refl;
      subject_named = refl;
      document_has = clearance_value-eq-ok c document _ m dm;
      subject_has = clearance_value-eq-ok c subject _ n dn;
      below = ground arith;
    }

clearance_decision_of_Cleared :
    (c : ClearanceLevelModel) (document subject : Option String)
    → Cleared c document subject
    → clearance_decision (some c) document subject
      ≡ ok (record { allowed = true; reason_code = "clearance_allowed" })
unfolding clearance_decision
clearance_decision_of_Cleared c document subject k =
    rw (k.document_named, k.subject_named, clearance_decision)
      (rw (clearance_value_of_HasLevel c k.document_label _ k.document_level k.document_has) (
        rw (clearance_value_of_HasLevel c k.subject_label _ k.subject_level k.subject_has)
          (rw (le→leb k.document_level k.subject_level k.below))))

labels_decision-Labelled :
    (m : ClassificationLabelsModel) (document subject : List String) (d : SecurityDecision)
    → labels_decision (some m) document subject ≡ ok d
    → d.allowed ≡ true
    → Labelled m document subject
unfolding labels_decision
labels_decision-Labelled m document subject d h g =
    let (xs, ex, h') = >>=-eq-ok (validate_labels m document _) _ h in
    let (ys, ey, h'') = >>=-eq-ok (validate_labels m subject _) _ h' in
    record {
      document_labels = xs;
      subject_labels = ys;
      document_has = validate_labels-eq-ok m document _ xs ex;
      subject_has = validate_labels-eq-ok m subject _ ys ey;
      covered = ground arith;
    }

labels_decision_of_Labelled :
    (m : ClassificationLabelsModel) (document subject : List String)
    → Labelled m document subject
    → labels_decision (some m) document subject
      ≡ ok (record { allowed = true; reason_code = "classification_labels_allowed" })
unfolding labels_decision
labels_decision_of_Labelled m document subject k =
    rw (validate_labels_of_HasLabels m document _ k.document_labels k.document_has)
      (rw (validate_labels_of_HasLabels m subject _ k.subject_labels k.subject_has) (rw k.covered))

no_clearance_model :
    (document subject : Option String) (d : SecurityDecision)
    → clearance_decision none document subject ≡ ok d
    → d.allowed ≢ true
unfolding clearance_decision
no_clearance_model none subject d h g = ground arith
no_clearance_model (some document) none d h g = ground arith
no_clearance_model (some document) (some subject) d h g = cc

no_labels_model :
    (document subject : List String) (d : SecurityDecision)
    → labels_decision none document subject ≢ ok d
unfolding labels_decision
no_labels_model document subject d h = cc

-- What the model of the kind asks of the two.
abbrev pub Permits : SecurityModelKind → SecurityModel → DocumentSecurity → SubjectSecurity → Type 0
Permits none_kind model document subject = Unit
Permits clearance_kind model document subject =
    (c : ClearanceLevelModel) × (model.clearance_level ≡ some c)
    × Cleared c document.clearance_label subject.clearance_label
Permits labels_kind model document subject =
    (m : ClassificationLabelsModel) × (model.classification_labels ≡ some m)
    × Labelled m document.classification_labels subject.classification_labels

visible-Permits :
    (kind : SecurityModelKind) (model : SecurityModel) (document : DocumentSecurity)
    (subject : SubjectSecurity) (d : SecurityDecision)
    → visible_by_kind kind model document subject ≡ ok d
    → d.allowed ≡ true
    → Permits kind model document subject
unfolding visible_by_kind
visible-Permits none_kind model document subject d h g = tt
visible-Permits clearance_kind model document subject d h g =
    elim (Option-cases model.clearance_level) [
      | inl missing ↦ absurd (
          no_clearance_model document.clearance_label subject.clearance_label d (rw missing at h) g)
      | inr (c, e) ↦ (c, e, clearance_decision-Cleared c _ _ d (rw e at h) g)
    ]
visible-Permits labels_kind model document subject d h g =
    elim (Option-cases model.classification_labels) [
      | inl missing ↦ absurd (
          no_labels_model document.classification_labels subject.classification_labels d
            (rw missing at h))
      | inr (m, e) ↦ (m, e, labels_decision-Labelled m _ _ d (rw e at h) g)
    ]

Permits-visible :
    (kind : SecurityModelKind) (model : SecurityModel) (document : DocumentSecurity)
    (subject : SubjectSecurity)
    → Permits kind model document subject
    → (d : SecurityDecision) × (visible_by_kind kind model document subject ≡ ok d)
      × (d.allowed ≡ true)
unfolding visible_by_kind
Permits-visible none_kind model document subject k =
    (record { allowed = true; reason_code = "security_model_none" }, refl, refl)
Permits-visible clearance_kind model document subject (c, e, k) = (
  record { allowed = true; reason_code = "clearance_allowed" },
  rw e (clearance_decision_of_Cleared c _ _ k),
  refl,
)
Permits-visible labels_kind model document subject (m, e, k) = (
  record { allowed = true; reason_code = "classification_labels_allowed" },
  rw e (labels_decision_of_Labelled m _ _ k),
  refl,
)

-- A subject sees a document exactly when the security model of the domain permits it.
pub Visible-iff :
    (model : SecurityModel) (document : DocumentSecurity) (subject : SubjectSecurity)
    → Visible model document subject ↔ Permits model.kind model document subject
unfolding document_visible_to_subject
Visible-iff model document subject = (
  λ v. visible-Permits model.kind model document subject v.decision v.decided v.granted,
  λ k.
      let (d, e, g) = Permits-visible model.kind model document subject k in
      record { decision = d; decided = e; granted = g },
)
