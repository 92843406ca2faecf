-- ===== src/Storage/Graph/Filter.antt =====
-- `_security_filter` of sovereignflow/infrastructure/graph.py: what the labels of a row that passes
-- have to do with those of the subject.
use mathlib.Core.Path.{subst}
use mathlib.Core.Bool.{false≢true}
use sovereign_flow.Prelude.{
  String, ◌≡◌, refl, sym, ap, ◌∙◌, Bool, true, List, [], ◌∷◌, Option, none, some, inl, inr, ◌==◌,
  eq_iff, map, mem, subset, keys, All, All-mem, subset_of_mem, subset_trans, mem-keys_of_lookup,
  Bool-cases, and_parts,
}
use sovereign_flow.Result.{ok, ok_injective, >>=-eq-ok}
use sovereign_flow.Text.Strip.{strip, required, required-eq-ok}
use sovereign_flow.Text.Normal.{
  normalized_values, IsLabel, normalized_values-IsNormalized, normalized_values_of_IsNormalized,
  mem-normalized_values,
}
use sovereign_flow.Domain.Security.{
  ClearanceLevelModel, ClassificationLabelsModel, allowed_document_labels, validate_labels,
  required_option,
}
use sovereign_flow.Domain.Security.Accepted.{HasLevel, validate_labels-eq-ok}
use sovereign_flow.Domain.Security.Allowed.{allowed_document_labels_iff}
use sovereign_flow.Domain.Security.Visibility.{Cleared, Labelled}
use sovereign_flow.Pipeline.Registry.{distinct}
use sovereign_flow.Storage.Tables.{ChunkRow}
use sovereign_flow.Storage.GraphRows.{label_in, clearance_filter, labels_filter}

-- The labels of a clearance model, as its constructor leaves them: distinct, stripped, not empty.
abbrev pub IsModel : Option ClearanceLevelModel → Type 0
IsModel model =
    (c : ClearanceLevelModel)
    → model ≡ some c
    → (distinct (keys c.levels) ≡ true) × All IsLabel (keys c.levels)

label-Cleared :
    (c : ClearanceLevelModel) (subject label label' field_name : String) (labels : List String)
    → (distinct (keys c.levels) ≡ true) × All IsLabel (keys c.levels)
    → allowed_document_labels c subject ≡ ok labels
    → mem label labels ≡ true
    → required label field_name ≡ ok label'
    → Cleared c (some label') (some subject)
label-Cleared c subject label label' field_name labels wf e m r =
    let (n, has, allowed) = allowed_document_labels_iff c subject labels wf.0 e in
    let (level, at, below) = (allowed label).0 m in
    let known : IsLabel label =
      All-mem IsLabel label (keys c.levels) wf.1 (mem-keys_of_lookup label level c.levels at) in
    let same : label ≡ label' = sym known.0 ∙ sym (required-eq-ok label field_name label' r).0 in
    record {
      document_label = label';
      subject_label = subject;
      document_level = level;
      subject_level = n;
      document_named = refl;
      subject_named = refl;
      document_has = subst (λ x. HasLevel c x level) same (rw known.0 (known.1, at));
      subject_has = has;
      below = below;
    }

option-Cleared :
    (c : ClearanceLevelModel) (subject : String) (label label' : Option String)
    (labels : List String)
    → (distinct (keys c.levels) ≡ true) × All IsLabel (keys c.levels)
    → allowed_document_labels c subject ≡ ok labels
    → label_in label labels ≡ true
    → required_option label "DocumentSecurity.clearance_label" ≡ ok label'
    → Cleared c label' (some subject)
unfolding required_option
option-Cleared c subject none label' labels wf e m r = absurd (false≢true m)
option-Cleared c subject (some label) label' labels wf e m r =
    let (x, named, last) = >>=-eq-ok (required label "DocumentSecurity.clearance_label") _ r in
    subst (λ o. Cleared c o (some subject)) (ok_injective last)
      (label-Cleared c subject label x _ labels wf e m named)

pub clearance_filter-Cleared :
    (model : Option ClearanceLevelModel) (subject : Option String) (allowed : ChunkRow → Bool)
    (row : ChunkRow) (label' : Option String)
    → IsModel model
    → clearance_filter model subject ≡ ok allowed
    → allowed row ≡ true
    → required_option row.clearance_label "DocumentSecurity.clearance_label" ≡ ok label'
    → (c : ClearanceLevelModel) × (model ≡ some c) × Cleared c label' subject
unfolding clearance_filter
clearance_filter-Cleared none subject allowed row label' wf h p r =
    absurd (false≢true (ap (λ (f : ChunkRow → Bool). f row) (ok_injective h) ∙ p))
clearance_filter-Cleared (some c) none allowed row label' wf h p r =
    absurd (false≢true (ap (λ (f : ChunkRow → Bool). f row) (ok_injective h) ∙ p))
clearance_filter-Cleared (some c) (some subject) allowed row label' wf h p r =
    let (labels, e, same) = >>=-eq-ok (allowed_document_labels c subject) _ h in
    (
      c,
      refl,
      option-Cleared c subject row.clearance_label label' labels (wf c refl) e
          (ap (λ (f : ChunkRow → Bool). f row) (ok_injective same) ∙ p) r,
    )

mem-map-strip :
    (x : String) (xs ys : List String)
    → All IsLabel ys
    → subset xs ys ≡ true
    → mem x (map strip xs) ≡ true
    → mem x ys ≡ true
mem-map-strip x [] ys n s m = absurd (false≢true m)
mem-map-strip x (y ∷ xs) ys n s m =
    let (here, rest) = and_parts (mem y ys) _ s in
    elim (Bool-cases (x == strip y)) [
      | inl same ↦
          subst (λ z. mem z ys ≡ true)
            (sym ((eq_iff x (strip y)).0 same ∙ (All-mem IsLabel y ys n here).0)) here
      | inr other ↦ mem-map-strip x xs ys n rest (rw other at m)
    ]

pub labels_filter-Labelled :
    (model : Option ClassificationLabelsModel) (subject : List String) (allowed : ChunkRow → Bool)
    (row : ChunkRow) (labels' : List String)
    → labels_filter model subject ≡ ok allowed
    → allowed row ≡ true
    → normalized_values row.classification_labels "DocumentSecurity.classification_labels"
      ≡ ok labels'
    → (m : ClassificationLabelsModel) × (model ≡ some m) × Labelled m labels' subject
unfolding labels_filter
labels_filter-Labelled none subject allowed row labels' h p r =
    absurd (false≢true (ap (λ (f : ChunkRow → Bool). f row) (ok_injective h) ∙ p))
labels_filter-Labelled (some m) subject allowed row labels' h p r =
    let field_name : String = "GraphTraversalRequest.subject_security.classification_labels" in
    let (subject_labels, e, same) = >>=-eq-ok (validate_labels m subject field_name) _ h in
    let has = validate_labels-eq-ok m subject field_name subject_labels e in
    let inside = ap (λ (f : ChunkRow → Bool). f row) (ok_injective same) ∙ p in
    let normal = normalized_values-IsNormalized row.classification_labels _ labels' r in
    let covered = subset_of_mem labels' subject_labels (λ x k.
      mem-map-strip x row.classification_labels subject_labels has.normal.1 inside
        (sym (mem-normalized_values x row.classification_labels _ labels' r) ∙ k)) in
    (
      m,
      refl,
      record {
        document_labels = labels';
        subject_labels = subject_labels;
        document_has = record {
          normal = normal;
          sorted = λ other. normalized_values_of_IsNormalized labels' other normal;
          inside = subset_trans labels' subject_labels m.labels_universe_subset covered has.inside;
        };
        subject_has = has;
        covered = covered;
      },
    )
