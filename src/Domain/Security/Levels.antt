-- ===== src/Domain/Security/Levels.antt =====
-- What the constructor of `ClearanceLevelModel` leaves: the labels are distinct, stripped, not empty.
use mathlib.Core.Path.{subst}
use sovereign_flow.Prelude.{
  ℕ, String, ◌≡◌, refl, true, List, [], ◌∷◌, inl, inr, arith, eq_iff, eq_refl, ◌==◌, ◌||◌, insert,
  keys, mem, All, Bool-cases,
}
use sovereign_flow.Result.{ok, ok_injective, >>=-eq-ok, guard-eq-ok}
use sovereign_flow.Text.Strip.{required}
use sovereign_flow.Text.Normal.{IsLabel, required-IsLabel}
use sovereign_flow.Value.{Value}
use sovereign_flow.Domain.Security.{
  ClearanceLevelModel, level_of, normalized_levels, new_clearance_level_model,
}
use sovereign_flow.Pipeline.Registry.{distinct}

mem-keys-insert :
    (x k : String) (n : ℕ) (m : List (String × ℕ))
    → mem x (keys (insert k n m)) ≡ (x == k || mem x (keys m))
mem-keys-insert x k n [] = refl
mem-keys-insert x k n ((j, o) ∷ m) = ground (arith, mem-keys-insert x k n m, eq_iff k j)

distinct-insert :
    (k : String) (n : ℕ) (m : List (String × ℕ))
    → distinct (keys m) ≡ true
    → distinct (keys (insert k n m)) ≡ true
distinct-insert k n [] h = refl
distinct-insert k n ((j, o) ∷ m) h =
    ground
      (arith, distinct-insert k n m, mem-keys-insert j k n m, eq_iff k j, eq_iff j k, eq_refl k)

All-keys-insert :
    (k : String) (n : ℕ) (m : List (String × ℕ))
    → IsLabel k
    → All IsLabel (keys m)
    → All IsLabel (keys (insert k n m))
All-keys-insert k n [] h a = (h, tt)
All-keys-insert k n ((j, o) ∷ m) h a = elim (Bool-cases (k == j)) [
  | inl same ↦ rw same a
  | inr other ↦ rw other (a.0, All-keys-insert k n m h a.1)
]

normalized_levels-distinct :
    (levels : List (String × Value)) (normalized result : List (String × ℕ))
    → distinct (keys normalized) ≡ true
    → All IsLabel (keys normalized)
    → normalized_levels levels normalized ≡ ok result
    → (distinct (keys result) ≡ true) × All IsLabel (keys result)
unfolding normalized_levels
normalized_levels-distinct [] normalized result d a h =
    subst (λ (m : List (String × ℕ)). (distinct (keys m) ≡ true) × All IsLabel (keys m))
      (ok_injective h) (d, a)
normalized_levels-distinct ((label, value) ∷ rest) normalized result d a h =
    let (x, e, h₁) = >>=-eq-ok (required label "ClearanceLevelModel.levels[]") _ h in
    let (n, e', h₂) = >>=-eq-ok (level_of value) _ h₁ in
    normalized_levels-distinct rest (insert x n normalized) result
      (distinct-insert x n normalized d)
      (All-keys-insert x n normalized (required-IsLabel label _ x e) a) h₂

-- The labels of a clearance model that the constructor made are distinct, stripped and not empty.
pub new_clearance_level_model-distinct :
    (levels : List (String × Value)) (model : ClearanceLevelModel)
    → new_clearance_level_model levels ≡ ok model
    → (distinct (keys model.levels) ≡ true) × All IsLabel (keys model.levels)
unfolding new_clearance_level_model
new_clearance_level_model-distinct levels model h =
    let (some_levels, h₁) = guard-eq-ok _ _ _ h in
    let (normalized, e, h₂) = >>=-eq-ok (normalized_levels levels []) _ h₁ in
    let (unique, h₃) = guard-eq-ok _ _ _ h₂ in
    let named = normalized_levels-distinct levels [] normalized refl tt e in
    subst
      (λ (m : ClearanceLevelModel). (distinct (keys m.levels) ≡ true) × All IsLabel (keys m.levels))
      (ok_injective h₃) named
