-- ===== src/Storage/Graph/Members.antt =====
-- What holds of every element of a list that is selected or sorted, and of a dictionary of nodes.
use mathlib.Core.Path.{subst}
use sovereign_flow.Prelude.{
  ◌≡◌, refl, Bool, true, List, [], ◌∷◌, some, inl, inr, keep, All, Any, Bool-cases, some_injective,
}
use sovereign_flow.Domain.Ingestion.{GraphNodeRef, same_node}
use sovereign_flow.Services.Payload.{insert_by, sorted_by}
use sovereign_flow.Storage.GraphRows.{find_node, put_node}

module _ {A : Type 0} (P : A → Type 0) where
  pub All-keep_of :
      (p : A → Bool) (xs : List A)
      → ((x : A) → Any (λ y. y ≡ x) xs → p x ≡ true → P x)
      → All P (keep p xs)
  All-keep_of p [] h = tt
  All-keep_of p (x ∷ xs) h =
      let rest = All-keep_of p xs (λ y k. h y (inr k)) in
      elim (Bool-cases (p x)) [
        | inl holds ↦ rw holds (h x (inl refl) holds, rest)
        | inr fails ↦ rw fails rest
      ]

  All-insert_by :
      (after : A → A → Bool) (x : A) (xs : List A) → P x → All P xs → All P (insert_by after x xs)
  unfolding insert_by
  All-insert_by after x [] h k = (h, tt)
  All-insert_by after x (y ∷ ys) h k = elim (Bool-cases (after x y)) [
    | inl holds ↦ rw holds (k.0, All-insert_by after x ys h k.1)
    | inr fails ↦ rw fails (h, k)
  ]

  pub All-sorted_by : (after : A → A → Bool) (xs : List A) → All P xs → All P (sorted_by after xs)
  unfolding sorted_by
  All-sorted_by after [] h = tt
  All-sorted_by after (x ∷ xs) h =
      All-insert_by after x (sorted_by after xs) h.0 (All-sorted_by after xs h.1)

module _ {V : Type 0} (P : V → Type 0) where
  pub All-put_node :
      (node : GraphNodeRef) (v : V) (m : List (GraphNodeRef × V))
      → P v
      → All (λ e. P e.1) m
      → All (λ e. P e.1) (put_node node v m)
  All-put_node node v [] h k = (h, tt)
  All-put_node node v ((n, w) ∷ rest) h k = elim (Bool-cases (same_node node n)) [
    | inl holds ↦ rw holds (h, k.1)
    | inr fails ↦ rw fails (k.0, All-put_node node v rest h k.1)
  ]

  pub All-find_node :
      (node : GraphNodeRef) (m : List (GraphNodeRef × V)) (v : V)
      → All (λ e. P e.1) m
      → find_node node m ≡ some v
      → P v
  All-find_node node [] v h k = absurd (cc k)
  All-find_node node ((n, w) ∷ rest) v h k = elim (Bool-cases (same_node node n)) [
    | inl holds ↦ subst P (some_injective w v (rw holds at k)) h.0
    | inr fails ↦ All-find_node node rest v h.1 (rw fails at k)
  ]
