-- ===== src/Pipeline/Validator/Walks.antt =====
-- What a successful `walk` of the validator has seen.
use sovereign_flow.Prelude.{
  ℕ, zero, suc, String, ◌≡◌, ◌≢◌, refl, true, false, Bool, List, [], ◌∷◌, ◌++◌, arith, all, mem,
  Bool-cases, inl, inr, eq_iff, difference, is_empty, subset, subset_of_difference_nil, ◌==◌, some,
  not,
}
use sovereign_flow.Result.{Result, ok, >>=-eq-ok, guard-eq-ok}
use sovereign_flow.Pipeline.Definition.{PipelineStepDefinition, find_step}
use sovereign_flow.Pipeline.Registry.{PipelineAction, get_action}
use sovereign_flow.Pipeline.Validator.{Walked, for_each, targets, walk, known_step}

abbrev pub AllResult : Walked → Type 0
AllResult seen = all (λ b. b) seen.terminal_results ≡ true

all-append-front : (xs ys : List Bool) → all (λ b. b) (xs ++ ys) ≡ true → all (λ b. b) xs ≡ true
all-append-front [] ys h = refl
all-append-front (x ∷ xs) ys h = ground (arith, all-append-front xs ys)

all-append-last : (xs : List Bool) (y : Bool) → all (λ b. b) (xs ++ y ∷ []) ≡ true → y ≡ true
all-append-last [] y h = ground arith
all-append-last (x ∷ xs) y h = ground (arith, all-append-last xs y)

for_each-AllResult :
    (f : String → Walked → Result Walked) (ts : List String) (seen seen' : Walked)
    → ((t : String) (s s' : Walked) → f t s ≡ ok s' → AllResult s' → AllResult s)
    → for_each f ts seen ≡ ok seen'
    → AllResult seen'
    → AllResult seen
unfolding for_each
for_each-AllResult f [] seen seen' back h a = ground arith
for_each-AllResult f (t ∷ ts) seen seen' back h a =
    let (s, e, h') = >>=-eq-ok (f t seen) _ h in
    back t seen s e (for_each-AllResult f ts s seen' back h' a)

-- Each target was walked to, with results throughout.
for_each-mem :
    (f : String → Walked → Result Walked) (ts : List String) (seen seen' : Walked) (t : String)
    → ((t : String) (s s' : Walked) → f t s ≡ ok s' → AllResult s' → AllResult s)
    → for_each f ts seen ≡ ok seen'
    → AllResult seen'
    → mem t ts ≡ true
    → (s : Walked) × (s' : Walked) × (f t s ≡ ok s') × AllResult s'
unfolding for_each
for_each-mem f [] seen seen' t back h a m = cc
for_each-mem f (u ∷ ts) seen seen' t back h a m =
    let (s, e, h') = >>=-eq-ok (f u seen) _ h in
    elim (Bool-cases (t == u)) [
      | inl same ↦ (seen, s, rw ((eq_iff t u).0 same) e, for_each-AllResult f ts s seen' back h' a)
      | inr other ↦ for_each-mem f ts s seen' t back h' a (rw other at m)
    ]

module _ {E : Type 0} (registry : List (PipelineAction E))
    (steps : List PipelineStepDefinition) where
  -- What a successful call found at its own step.
  pub record AtStep (rest : ℕ) (available path : List String) (step_id : String)
      (seen seen' : Walked) : Type 0 where
    pub step : PipelineStepDefinition
    pub found : find_step step_id steps ≡ some step
    pub action : PipelineAction E
    pub got : get_action registry step.action ≡ ok action
    pub satisfied : subset action.requires available ≡ true
    pub ends :
        step.terminal ≡ true
        → seen'.terminal_results
          ≡ seen.terminal_results ++ mem "result" (available ++ action.provides) ∷ []
    pub goes_on :
        step.terminal ≡ false
        → for_each
            (walk registry steps rest (available ++ action.provides) (path ++ step_id ∷ []))
            (targets step)
            (record seen { visited = step_id ∷ seen.visited })
          ≡ ok seen'

  known_step-eq-ok :
      (step_id : String) (step : PipelineStepDefinition)
      → known_step steps step_id ≡ ok step
      → find_step step_id steps ≡ some step
  unfolding known_step
  known_step-eq-ok step_id step h = ground arith

  nil_of_is_empty : (xs : List String) → is_empty xs ≡ true → xs ≡ []
  nil_of_is_empty [] h = refl
  nil_of_is_empty (x ∷ xs) h = cc

  pub walk-zero :
      (available path : List String) (step_id : String) (seen seen' : Walked)
      → walk registry steps zero available path step_id seen ≢ ok seen'
  unfolding walk
  walk-zero available path step_id seen seen' h = ground arith

  pub walk_at :
      (left : ℕ) (available path : List String) (step_id : String) (seen seen' : Walked)
      → walk registry steps (suc left) available path step_id seen ≡ ok seen'
      → AtStep left available path step_id seen seen'
  unfolding walk
  walk_at left available path step_id seen seen' h =
      let (fresh, h₁) = guard-eq-ok (not (mem step_id path)) _ _ h in
      let (step, es, h₂) = >>=-eq-ok (known_step steps step_id) _ h₁ in
      let (action, ea, h₃) = >>=-eq-ok (get_action registry step.action) _ h₂ in
      let (complete, h₄) = guard-eq-ok (is_empty (difference action.requires available)) _ _ h₃ in
      record {
        step = step;
        found = known_step-eq-ok step_id step es;
        action = action;
        got = ea;
        satisfied = subset_of_difference_nil action.requires available (nil_of_is_empty _ complete);
        ends = λ last. ground arith;
        goes_on = λ open_. ground arith;
      }

  -- A walk only adds to the results.
  pub walk-AllResult :
      (left : ℕ) (available path : List String) (step_id : String) (seen seen' : Walked)
      → walk registry steps left available path step_id seen ≡ ok seen'
      → AllResult seen'
      → AllResult seen
  walk-AllResult zero available path step_id seen seen' h a =
      absurd (walk-zero available path step_id seen seen' h)
  walk-AllResult (suc left) available path step_id seen seen' h a =
      let at = walk_at left available path step_id seen seen' h in
      elim (Bool-cases at.step.terminal) [
        | inl last ↦ all-append-front seen.terminal_results _ (rw (at.ends last) at a)
        | inr open_ ↦
            for_each-AllResult _ (targets at.step) _ seen' (λ t. walk-AllResult left _ _ t)
              (at.goes_on open_) a
      ]

  -- Where a walk with a result on every path goes on, each target is walked to in the same way.
  pub walk_target :
      (left : ℕ) (available path : List String) (step_id : String) (seen seen' : Walked)
      (at : AtStep left available path step_id seen seen') (target : String)
      → at.step.terminal ≡ false
      → AllResult seen'
      → mem target (targets at.step) ≡ true
      → (s : Walked) × (s' : Walked) × (walk registry steps left
            (available ++ at.action.provides)
            (path ++ step_id ∷ [])
            target
            s
          ≡ ok s')
        × AllResult s'
  walk_target left available path step_id seen seen' at target open_ a m =
      for_each-mem _ (targets at.step) _ seen' target (λ t. walk-AllResult left _ _ t)
        (at.goes_on open_) a m

  pub walk_result :
      (left : ℕ) (available path : List String) (step_id : String) (seen seen' : Walked)
      (at : AtStep left available path step_id seen seen')
      → at.step.terminal ≡ true
      → AllResult seen'
      → mem "result" (available ++ at.action.provides) ≡ true
  walk_result left available path step_id seen seen' at last a =
      all-append-last seen.terminal_results _ (rw (at.ends last) at a)
