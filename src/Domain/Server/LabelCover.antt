-- ===== src/Domain/Server/LabelCover.antt =====
-- Classification labels: a server that is allowed for a context has the labels of every document.
use sovereign_flow.Prelude.{
  String, ◌≡◌, ◌∙◌, true, List, [], ◌∷◌, ◌++◌, some, none, arith, subset, subset_trans, All,
  All-map, All-mem, mem, mem-append, mem-map, mem-of_subset, subset_of_mem, map,
}
use mathlib.Core.Path.{subst}
use sovereign_flow.Result.{ok, >>=-eq-ok}
use sovereign_flow.Text.Strip.{strip}
use sovereign_flow.Text.Order.{sorted_set, mem-sorted_set}
use sovereign_flow.Text.Normal.{
  IsNormalized, IsLabel, normalized_values, normalized_values-IsNormalized, normalized_values_fixed,
  mem-normalized_values,
}
use sovereign_flow.Domain.Security.{
  labels_kind, ClassificationLabelsModel, validate_labels, SecurityDecision,
}
use sovereign_flow.Domain.Security.Accepted.{HasLabels, validate_labels-eq-ok}
use sovereign_flow.Domain.Security.Visibility.{Labelled}
use sovereign_flow.Domain.Chunk.{SearchHit}
use sovereign_flow.Domain.Server.{
  ModelServerSecurityProfile, ContextSecurityRequirement, new_context_security_requirement,
  required_labels, server_labels_decision,
}

-- The hit's labels are accepted, and `result` has them all.
record Collected (m : ClassificationLabelsModel) (hit : SearchHit) (result : List String)
    : Type 0 where
  labels : List String
  has : HasLabels m hit.chunk.security.classification_labels labels
  within : subset labels result ≡ true

subset_left : (xs ys zs : List String) → subset (xs ++ ys) zs ≡ true → subset xs zs ≡ true
subset_left xs ys zs h =
    subset_of_mem xs zs λ x m. mem-of_subset (xs ++ ys) zs x h (rw mem-append (rw m))

subset_right : (xs ys zs : List String) → subset (xs ++ ys) zs ≡ true → subset ys zs ≡ true
subset_right xs ys zs h =
    subset_of_mem ys zs λ x m. mem-of_subset (xs ++ ys) zs x h (ground (arith, mem-append x xs ys))

subset_refl : (xs : List String) → subset xs xs ≡ true
subset_refl xs = subset_of_mem xs xs λ x m. m

required_labels-Collected :
    (m : ClassificationLabelsModel) (hits : List SearchHit) (found result : List String)
    → required_labels m hits found ≡ ok result
    → All (λ hit. Collected m hit result) hits × (subset found result ≡ true)
unfolding required_labels
required_labels-Collected m [] found result h = (tt, ground (arith, subset_refl found))
required_labels-Collected m (hit ∷ hits) found result h =
    let given = hit.chunk.security.classification_labels in
    let (xs, ex, h') = >>=-eq-ok (validate_labels m given _) _ h in
    let (rest, whole) = required_labels-Collected m hits (found ++ xs) result h' in
    (
      (
        record {
          labels = xs;
          has = validate_labels-eq-ok m given _ xs ex;
          within = subset_right found xs result whole;
        },
        rest,
      ),
      subset_left found xs result whole,
    )

requirement_labels :
    (found : List String) (requirement : ContextSecurityRequirement)
    → new_context_security_requirement labels_kind none (sorted_set found) ≡ ok requirement
    → normalized_values (sorted_set found) "ContextSecurityRequirement.classification_labels"
      ≡ ok requirement.classification_labels
unfolding new_context_security_requirement
requirement_labels found requirement h =
    let (xs, ex, h') = >>=-eq-ok (normalized_values (sorted_set found) _) _ h in ground arith

-- Accepted labels that the loop found are among those that the requirement names.
subset-requirement :
    (xs found : List String) (requirement : ContextSecurityRequirement)
    → IsNormalized xs
    → subset xs found ≡ true
    → new_context_security_requirement labels_kind none (sorted_set found) ≡ ok requirement
    → subset xs requirement.classification_labels ≡ true
subset-requirement xs found requirement n s h =
    subset_of_mem xs requirement.classification_labels λ x m.
      let sorted : mem x (sorted_set found) ≡ true =
        mem-sorted_set x found ∙ mem-of_subset xs found x s m in
      let stripped : mem x (map strip (sorted_set found)) ≡ true =
        subst (λ y. mem y (map strip (sorted_set found)) ≡ true) (All-mem IsLabel x xs n.1 m).0
          (mem-map strip x (sorted_set found) sorted) in
      mem-normalized_values x (sorted_set found) _ requirement.classification_labels
        (requirement_labels found requirement h)
      ∙ stripped

pub labels_cover :
    (m : ClassificationLabelsModel) (hits : List SearchHit) (profile : ModelServerSecurityProfile)
    (found : List String) (requirement : ContextSecurityRequirement) (d : SecurityDecision)
    → required_labels m hits [] ≡ ok found
    → new_context_security_requirement labels_kind none (sorted_set found) ≡ ok requirement
    → server_labels_decision
        (some m)
        profile.classification_labels
        requirement.classification_labels
      ≡ ok d
    → d.allowed ≡ true
    → All
        (λ hit. Labelled m hit.chunk.security.classification_labels profile.classification_labels)
        hits
unfolding server_labels_decision
labels_cover m hits profile found requirement d h k s g =
    let needed = requirement.classification_labels in
    let (server, e, s') = >>=-eq-ok (validate_labels m profile.classification_labels _) _ s in
    let (named, e', s'') = >>=-eq-ok (validate_labels m needed _) _ s' in
    let has = validate_labels-eq-ok m needed _ named e' in
    let same : named ≡ needed =
      normalized_values_fixed needed "" named
        (normalized_values-IsNormalized (sorted_set found) _ needed
          (requirement_labels found requirement k))
        (has.sorted "") in
    let covered : subset named server ≡ true = ground arith in
    All-map (λ hit. Collected m hit found) _ hits
      (λ hit c. record {
        document_labels = c.labels;
        subject_labels = server;
        document_has = c.has;
        subject_has = validate_labels-eq-ok m profile.classification_labels _ server e;
        covered =
            subset_trans c.labels needed server
              (subset-requirement c.labels found requirement c.has.normal c.within k)
              (subst (λ xs. subset xs server ≡ true) same covered);
      })
      (required_labels-Collected m hits [] found h).0
