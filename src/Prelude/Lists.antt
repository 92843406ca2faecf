-- ===== src/Prelude/Lists.antt =====
-- Lists measured and searched by native numbers and texts. A Python set of texts that is only
-- tested for membership is a list with `mem`.
use Prim.Native.Nat.{ℕ, suc, ◌+◌}
use Prim.Native.String.{String}
use mathlib.Core.Path.{◌≡◌, refl, sym, subst}
use mathlib.Core.Logic.{◌≢◌, ◌⊎◌, inl, inr}
use mathlib.Core.Bool.{Bool, true, false, not, ◌&&◌, ◌||◌, false≢true}
use mathlib.Core.Option.{Option, none, some}
use mathlib.Core.List.{List, [], ◌∷◌, ◌++◌, map}
use native.Mathlib.Omega.{arith}
use text.Mathlib.Text.{◌==◌}
use text.Mathlib.TextEquality.{eq_iff}
use text.Mathlib.TextPositions.{eq_refl}
use sovereign_flow.Prelude.Tests.{if◌then◌else◌, Option-cases, Bool-cases}

module _ {ℓ} {A : Type ℓ} where
  abbrev pub length : List A → ℕ
  length [] = 0
  length (x ∷ xs) = suc (length xs)

  pub length-append : (xs ys : List A) → length (xs ++ ys) ≡ length xs + length ys
  length-append [] ys = omega arith
  length-append (x ∷ xs) ys = omega (arith, length-append xs ys)

  -- Every element satisfies the predicate.
  abbrev pub All {κ} : (A → Type κ) → List A → Type κ
  All P [] = Unit
  All P (x ∷ xs) = P x × All P xs

  pub All-append {κ} : (P : A → Type κ) (xs ys : List A) → All P xs → All P ys → All P (xs ++ ys)
  All-append P [] ys h k = k
  All-append P (x ∷ xs) ys h k = (h.0, All-append P xs ys h.1 k)

  pub All-map {κ μ} :
      (P : A → Type κ) (Q : A → Type μ) (xs : List A) → ((x : A) → P x → Q x) → All P xs → All Q xs
  All-map P Q [] f h = tt
  All-map P Q (x ∷ xs) f h = (f x h.0, All-map P Q xs f h.1)

  abbrev pub keep : (A → Bool) → List A → List A
  keep p [] = []
  keep p (x ∷ xs) = let rest = keep p xs in if p x then x ∷ rest else rest

  pub All-keep {κ} :
      (P : A → Type κ) (test : A → Bool) (xs : List A) → All P xs → All P (keep test xs)
  All-keep P test [] h = tt
  All-keep P test (x ∷ xs) h = elim (Bool-cases (test x)) [
    | inl kept ↦ rw kept (h.0, All-keep P test xs h.1)
    | inr dropped ↦ rw dropped (All-keep P test xs h.1)
  ]

  -- Some element satisfies the predicate.
  abbrev pub Any : (A → Type 0) → List A → Type 0
  Any P [] = ⊥
  Any P (x ∷ xs) = P x ⊎ Any P xs

  pub Any-append : (P : A → Type 0) (xs ys : List A) → Any P xs → Any P (xs ++ ys)
  Any-append P [] ys h = absurd h
  Any-append P (x ∷ xs) ys (inl h) = inl h
  Any-append P (x ∷ xs) ys (inr h) = inr (Any-append P xs ys h)

  pub Any-map :
      (P : A → Type 0) (Q : A → Type 0) (f : A → A) (xs : List A)
      → ((x : A) → P x → Q (f x))
      → Any P xs
      → Any Q (map f xs)
  Any-map P Q f [] k h = absurd h
  Any-map P Q f (x ∷ xs) k (inl h) = inl (k x h)
  Any-map P Q f (x ∷ xs) k (inr h) = inr (Any-map P Q f xs k h)

  -- `all(test(x) for x in xs)`
  abbrev pub all : (A → Bool) → List A → Bool
  all p [] = true
  all p (x ∷ xs) = p x && all p xs

-- `x in xs`
abbrev pub mem : String → List String → Bool
mem x [] = false
mem x (y ∷ ys) = x == y || mem x ys

-- `set(xs).issubset(ys)`
abbrev pub subset : List String → List String → Bool
subset xs ys = all (λ x. mem x ys) xs

-- `set(xs) & set(ys)`, `set(xs) - set(ys)`
abbrev pub intersection : List String → List String → List String
intersection xs ys = keep (λ x. mem x ys) xs

abbrev pub difference : List String → List String → List String
difference xs ys = keep (λ x. not (mem x ys)) xs

pub mem-of_subset :
    (xs ys : List String) (x : String) → subset xs ys ≡ true → mem x xs ≡ true → mem x ys ≡ true
mem-of_subset (y ∷ xs) ys x s m = ground (arith, eq_iff x y, mem-of_subset xs ys x)
mem-of_subset [] ys x s m = ground arith

pub mem-cons_self : (x : String) (ys : List String) → mem x (x ∷ ys) ≡ true
mem-cons_self x ys = ground (arith, eq_refl x)

pub mem-cons_of_mem : (x y : String) (ys : List String) → mem x ys ≡ true → mem x (y ∷ ys) ≡ true
mem-cons_of_mem x y ys h = ground arith

pub subset_of_mem :
    (xs ys : List String) → ((x : String) → mem x xs ≡ true → mem x ys ≡ true) → subset xs ys ≡ true
subset_of_mem [] ys f = refl
subset_of_mem (x ∷ xs) ys f =
    ground
      (arith, f x (mem-cons_self x xs), subset_of_mem xs ys (λ y m. f y (mem-cons_of_mem y x xs m)))

pub subset_trans :
    (xs ys zs : List String) → subset xs ys ≡ true → subset ys zs ≡ true → subset xs zs ≡ true
subset_trans xs ys zs a b =
    subset_of_mem xs zs (λ x m. mem-of_subset ys zs x b (mem-of_subset xs ys x a m))

pub All-mem {κ} :
    (P : String → Type κ) (x : String) (xs : List String) → All P xs → mem x xs ≡ true → P x
All-mem P x [] h m = absurd (false≢true m)
All-mem P x (y ∷ xs) h m = elim (Bool-cases (x == y)) [
  | inl same ↦ subst P (sym ((eq_iff x y).0 same)) h.0
  | inr other ↦ All-mem P x xs h.1 (rw other at m)
]

pub mem-map :
    (f : String → String) (x : String) (xs : List String)
    → mem x xs ≡ true
    → mem (f x) (map f xs) ≡ true
mem-map f x [] m = m
mem-map f x (y ∷ xs) m = elim (Bool-cases (x == y)) [
  | inl same ↦
      subst (λ z. mem (f z) (map f (y ∷ xs)) ≡ true) (sym ((eq_iff x y).0 same))
        (mem-cons_self (f y) (map f xs))
  | inr other ↦ mem-cons_of_mem (f x) (f y) (map f xs) (mem-map f x xs (rw other at m))
]

pub mem-append : (x : String) (xs ys : List String) → mem x (xs ++ ys) ≡ (mem x xs || mem x ys)
mem-append x [] ys = refl
mem-append x (y ∷ xs) ys = ground (arith, mem-append x xs ys)

pub mem-keep :
    (p : String → Bool) (x : String) (xs : List String) → mem x (keep p xs) ≡ (mem x xs && p x)
mem-keep p x [] = refl
mem-keep p x (y ∷ xs) = ground (arith, mem-keep p x xs, eq_iff x y)

-- `difference` is empty exactly for subsets: `if unknown: raise` tests `subset`.
pub subset_of_difference_nil : (xs ys : List String) → difference xs ys ≡ [] → subset xs ys ≡ true
subset_of_difference_nil [] ys h = refl
subset_of_difference_nil (x ∷ xs) ys h = ground (arith, subset_of_difference_nil xs ys)

pub difference_nil_of_subset : (xs ys : List String) → subset xs ys ≡ true → difference xs ys ≡ []
difference_nil_of_subset [] ys h = refl
difference_nil_of_subset (x ∷ xs) ys h = ground (arith, difference_nil_of_subset xs ys)

abbrev pub is_empty {ℓ} : {A : Type ℓ} → List A → Bool
is_empty [] = true
is_empty (x ∷ xs) = false

-- A dictionary is an association list in insertion order; a later write of a key keeps its place.
module _ {ℓ} {V : Type ℓ} where
  abbrev pub lookup : String → List (String × V) → Option V
  lookup k [] = none
  lookup k ((j, v) ∷ m) = if k == j then some v else lookup k m

  abbrev pub insert : String → V → List (String × V) → List (String × V)
  insert k v [] = (k, v) ∷ []
  insert k v ((j, w) ∷ m) = let rest = insert k v m in if k == j then (j, v) ∷ m else (j, w) ∷ rest

  abbrev pub keys : List (String × V) → List String
  keys [] = []
  keys ((k, v) ∷ m) = k ∷ keys m

  abbrev pub values : List (String × V) → List V
  values [] = []
  values ((k, v) ∷ m) = v ∷ values m

  pub lookup-insert :
      (k j : String) (v : V) (m : List (String × V))
      → lookup j (insert k v m) ≡ (if j == k then some v else lookup j m)
  lookup-insert k j v [] = refl
  lookup-insert k j v ((i, w) ∷ m) =
      ground
        (arith, eq_iff k j, eq_iff k i, eq_iff i j, eq_iff j i, eq_iff j k, lookup-insert k j v m)

  pub mem-keys_of_lookup :
      (k : String) (v : V) (m : List (String × V)) → lookup k m ≡ some v → mem k (keys m) ≡ true
  mem-keys_of_lookup k v [] h = cc
  mem-keys_of_lookup k v ((j, w) ∷ m) h = ground (arith, eq_iff k j, mem-keys_of_lookup k v m)

  pub lookup-ne-none :
      (k : String) (m : List (String × V)) → mem k (keys m) ≡ true → lookup k m ≢ none
  lookup-ne-none k [] h = cc
  lookup-ne-none k ((j, w) ∷ m) h = ground (arith, lookup-ne-none k m)

  pub lookup_of_mem-keys :
      (k : String) (m : List (String × V)) → mem k (keys m) ≡ true → (v : V) × (lookup k m ≡ some v)
  lookup_of_mem-keys k m h = elim (Option-cases (lookup k m)) [
    | inl missing ↦ absurd (lookup-ne-none k m h missing)
    | inr found ↦ found
  ]
