-- ===== src/Domain/Security/Allowed.antt =====
-- `ClearanceLevelModel.allowed_document_labels`: the labels that a search is narrowed to.
use sovereign_flow.Prelude.{
  ℕ, String, ◌≡◌, refl, true, false, Bool, ◌≤◌, List, [], ◌∷◌, Option, none, some, arith, leb,
  le→leb, leb→le, mem, keys, lookup, Option-cases, inl, inr, ◌↔◌, eq_iff, eq_refl, ◌∙◌, ap, sym,
  mem-keys_of_lookup,
}
use sovereign_flow.Result.{ok, >>=-eq-ok, ok_injective}
use sovereign_flow.Text.Order.{mem-sorted_set}
use sovereign_flow.Domain.Security.{
  ClearanceLevelModel, labels_up_to, allowed_document_labels, clearance_value,
}
use sovereign_flow.Domain.Security.Accepted.{HasLevel, clearance_value-eq-ok}
use sovereign_flow.Pipeline.Registry.{distinct}

-- The level is there and not above the bound.
within : ℕ → Option ℕ → Bool
within bound none = false
within bound (some n) = leb n bound

missing_within :
    (bound : ℕ) (x : String) (levels : List (String × ℕ))
    → mem x (keys levels) ≡ false
    → within bound (lookup x levels) ≡ false
unfolding within
missing_within bound x levels h = elim (Option-cases (lookup x levels)) [
  | inl missing ↦ rw missing refl
  | inr (n, e) ↦ absurd (ground (arith, mem-keys_of_lookup x n levels e))
]

mem-labels_up_to :
    (bound : ℕ) (x : String) (levels : List (String × ℕ))
    → distinct (keys levels) ≡ true
    → mem x (labels_up_to bound levels) ≡ within bound (lookup x levels)
unfolding labels_up_to within
mem-labels_up_to bound x [] h = refl
mem-labels_up_to bound x ((j, n) ∷ levels) h =
    ground
      (arith, eq_iff x j, eq_refl j, mem-labels_up_to bound x levels, missing_within bound j levels)

within_iff :
    (bound : ℕ) (o : Option ℕ) → (within bound o ≡ true) ↔ ((m : ℕ) × (o ≡ some m) × (m ≤ bound))
unfolding within
within_iff bound none = (λ h. cc, λ (m, e, l). cc)
within_iff bound (some n) =
    (λ h. (n, refl, leb→le n bound h), λ (m, e, l). le→leb n bound (ground arith))

-- Where the labels of a model are distinct, as the keys of a dictionary are, the labels that a
-- search is narrowed to are those of the model whose level is not above that of the subject.
pub allowed_document_labels_iff :
    (model : ClearanceLevelModel) (subject : String) (labels : List String)
    → distinct (keys model.levels) ≡ true
    → allowed_document_labels model subject ≡ ok labels
    → (n : ℕ) × HasLevel model subject n
      × ((x : String)
          → (mem x labels ≡ true) ↔ ((m : ℕ) × (lookup x model.levels ≡ some m) × (m ≤ n)))
unfolding allowed_document_labels
allowed_document_labels_iff model subject labels u h =
    let (n, e, h') =
      >>=-eq-ok (clearance_value model subject "SubjectSecurity.clearance_label") _ h in
    let same = ok_injective h' in
    let reads : (x : String) → mem x labels ≡ within n (lookup x model.levels) = λ x.
      sym (ap (mem x) same)
      ∙ mem-sorted_set x (labels_up_to n model.levels)
      ∙ mem-labels_up_to n x model.levels u in
    (
      n,
      clearance_value-eq-ok model subject _ n e,
      λ x. (
        λ k. (within_iff n (lookup x model.levels)).0 (sym (reads x) ∙ k),
        λ k. reads x ∙ (within_iff n (lookup x model.levels)).1 k,
      ),
    )
