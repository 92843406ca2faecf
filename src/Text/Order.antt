-- ===== src/Text/Order.antt =====
-- The order of Python's texts, by code point, and `sorted` of a set of texts: a list that grows
-- strictly.
use Prim.Native.Nat.{compare, Ordering}
use Prim.Native.Char.{code}
use mathlib.Core.Path.{subst}
use text.Mathlib.TextEquality.{codes_equal}
use sovereign_flow.Prelude.{
  String, ◌≡◌, refl, sym, ◌⊎◌, inl, inr, ◌||◌, List, [], ◌∷◌, arith, ◌==◌, eq_iff, eq_refl, mem,
  All, All-map,
}

-- The comparison of `a < b` and `a == b` on texts.
pub text_compare : String → String → Ordering
text_compare String.[] String.[] = Ordering.eq
text_compare String.[] (String.◌∷◌ d t) = Ordering.lt
text_compare (String.◌∷◌ c s) String.[] = Ordering.gt
text_compare (String.◌∷◌ c s) (String.◌∷◌ d t) = elim (compare (code c) (code d)) [
  | Ordering.lt ↦ Ordering.lt
  | Ordering.eq ↦ text_compare s t
  | Ordering.gt ↦ Ordering.gt
]

pub text_compare-eq : (s t : String) → text_compare s t ≡ Ordering.eq → s ≡ t
unfolding text_compare
text_compare-eq String.[] String.[] h = refl
text_compare-eq String.[] (String.◌∷◌ d t) h = cc
text_compare-eq (String.◌∷◌ c s) String.[] h = cc
text_compare-eq (String.◌∷◌ c s) (String.◌∷◌ d t) h =
    ground (arith, text_compare-eq s t, codes_equal c d)

abbrev pub Before : String → String → Type 0
Before s t = text_compare s t ≡ Ordering.lt

pub Before-trans : (r s t : String) → Before r s → Before s t → Before r t
unfolding text_compare
Before-trans String.[] String.[] String.[] h k = cc
Before-trans String.[] (String.◌∷◌ d s) String.[] h k = cc
Before-trans String.[] s (String.◌∷◌ e t) h k = refl
Before-trans (String.◌∷◌ c r) String.[] t h k = cc
Before-trans (String.◌∷◌ c r) (String.◌∷◌ d s) String.[] h k = cc
Before-trans (String.◌∷◌ c r) (String.◌∷◌ d s) (String.◌∷◌ e t) h k =
    ground (arith, Before-trans r s t)

pub Before-flip : (s t : String) → text_compare s t ≡ Ordering.gt → Before t s
unfolding text_compare
Before-flip String.[] String.[] h = cc
Before-flip String.[] (String.◌∷◌ d t) h = cc
Before-flip (String.◌∷◌ c s) String.[] h = refl
Before-flip (String.◌∷◌ c s) (String.◌∷◌ d t) h = ground (arith, Before-flip s t)

-- Insertion into a list that grows strictly; an equal text is not added again.
unfoldable pub set_insert : String → List String → List String
set_insert x [] = x ∷ []
set_insert x (y ∷ ys) = elim (text_compare x y) [
  | Ordering.lt ↦ x ∷ y ∷ ys
  | Ordering.eq ↦ y ∷ ys
  | Ordering.gt ↦ y ∷ set_insert x ys
]

-- `sorted({x for x in xs})`
unfoldable pub sorted_set : List String → List String
unfolding set_insert text_compare
sorted_set [] = []
sorted_set (x ∷ xs) = set_insert x (sorted_set xs)

mem-set_insert : (x y : String) (ys : List String) → mem x (set_insert y ys) ≡ (x == y || mem x ys)
unfolding set_insert
mem-set_insert x y [] = refl
mem-set_insert x y (z ∷ ys) =
    ground (arith, mem-set_insert x y ys, text_compare-eq y z, eq_iff x y, eq_iff x z)

-- Sorting changes no membership.
pub mem-sorted_set : (x : String) (xs : List String) → mem x (sorted_set xs) ≡ mem x xs
unfolding sorted_set
mem-sorted_set x [] = refl
mem-sorted_set x (y ∷ xs) = ground (arith, mem-set_insert x y (sorted_set xs), mem-sorted_set x xs)

-- Each text stands before all that follow it, so none stands twice.
abbrev pub IsIncreasing : List String → Type 0
IsIncreasing [] = Unit
IsIncreasing (x ∷ xs) = All (λ y. Before x y) xs × IsIncreasing xs

All-set_insert :
    (P : String → Type 0) (x : String) (ys : List String) → P x → All P ys → All P (set_insert x ys)
unfolding set_insert
All-set_insert P x [] p h = (p, tt)
All-set_insert P x (y ∷ ys) p h =
    elim (text_compare x y)
      as (λ o. All P (elim o [
        | Ordering.lt ↦ x ∷ y ∷ ys
        | Ordering.eq ↦ y ∷ ys
        | Ordering.gt ↦ y ∷ set_insert x ys
      ])) [
        | Ordering.lt ↦ (p, h)
        | Ordering.eq ↦ h
        | Ordering.gt ↦ (h.0, All-set_insert P x ys p h.1)
      ]

-- How two texts compare, with the equation kept.
Order-cases :
    (x y : String)
    → Before x y ⊎ (text_compare x y ≡ Ordering.eq) ⊎ (text_compare x y ≡ Ordering.gt)
Order-cases x y = cases (text_compare x y)
  where
    cases : (o : Ordering) → (o ≡ Ordering.lt) ⊎ (o ≡ Ordering.eq) ⊎ (o ≡ Ordering.gt)
    cases Ordering.lt = inl refl
    cases Ordering.eq = inr (inl refl)
    cases Ordering.gt = inr (inr refl)

set_insert-lt : (x y : String) (ys : List String) → Before x y → set_insert x (y ∷ ys) ≡ x ∷ y ∷ ys
unfolding set_insert
set_insert-lt x y ys h = ground arith

set_insert-eq :
    (x y : String) (ys : List String)
    → text_compare x y ≡ Ordering.eq
    → set_insert x (y ∷ ys) ≡ y ∷ ys
unfolding set_insert
set_insert-eq x y ys h = ground arith

set_insert-gt :
    (x y : String) (ys : List String)
    → text_compare x y ≡ Ordering.gt
    → set_insert x (y ∷ ys) ≡ y ∷ set_insert x ys
unfolding set_insert
set_insert-gt x y ys h = ground arith

set_insert-IsIncreasing :
    (x : String) (ys : List String) → IsIncreasing ys → IsIncreasing (set_insert x ys)
set_insert-IsIncreasing x [] h = unfold set_insert in (tt, tt)
set_insert-IsIncreasing x (y ∷ ys) h = elim (Order-cases x y) [
  | inl less ↦
      subst IsIncreasing (sym (set_insert-lt x y ys less))
        ((less, All-map (Before y) (Before x) ys (λ z. Before-trans x y z less) h.0), h)
  | inr (inl same) ↦ subst IsIncreasing (sym (set_insert-eq x y ys same)) h
  | inr (inr more) ↦
      subst IsIncreasing (sym (set_insert-gt x y ys more)) (
        All-set_insert (Before y) x ys (Before-flip x y more) h.0,
        set_insert-IsIncreasing x ys h.1,
      )
]

-- `sorted` of a set grows strictly.
pub sorted_set-IsIncreasing : (xs : List String) → IsIncreasing (sorted_set xs)
unfolding sorted_set
sorted_set-IsIncreasing [] = tt
sorted_set-IsIncreasing (x ∷ xs) =
    set_insert-IsIncreasing x (sorted_set xs) (sorted_set-IsIncreasing xs)

set_insert_front :
    (x : String) (ys : List String) → All (λ y. Before x y) ys → set_insert x ys ≡ x ∷ ys
unfolding set_insert
set_insert_front x [] h = refl
set_insert_front x (y ∷ ys) h = set_insert-lt x y ys h.0

-- What is sorted already stays as it is.
pub sorted_set_of_IsIncreasing : (xs : List String) → IsIncreasing xs → sorted_set xs ≡ xs
unfolding sorted_set
sorted_set_of_IsIncreasing [] h = refl
sorted_set_of_IsIncreasing (x ∷ xs) h =
    rw (sorted_set_of_IsIncreasing xs h.1) (set_insert_front x xs h.0)

pub sorted_set_idem : (xs : List String) → sorted_set (sorted_set xs) ≡ sorted_set xs
sorted_set_idem xs = sorted_set_of_IsIncreasing (sorted_set xs) (sorted_set-IsIncreasing xs)

pub sorted_set_nil_iff : (xs : List String) → sorted_set xs ≡ [] → xs ≡ []
sorted_set_nil_iff [] h = refl
sorted_set_nil_iff (x ∷ xs) h = ground (arith, mem-sorted_set x (x ∷ xs), eq_refl x)

-- `sorted_set` keeps what holds of every member.
pub All-sorted_set : (P : String → Type 0) (xs : List String) → All P xs → All P (sorted_set xs)
unfolding sorted_set
All-sorted_set P [] h = tt
All-sorted_set P (x ∷ xs) h = All-set_insert P x (sorted_set xs) h.0 (All-sorted_set P xs h.1)
