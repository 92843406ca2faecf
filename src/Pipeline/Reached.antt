-- ===== src/Pipeline/Reached.antt =====
-- What the validator promises of every path that the engine can take.
use mathlib.Core.Path.{subst}
use sovereign_flow.Prelude.{
  ℕ, zero, suc, ◌+◌, ◌<◌, String, ◌≡◌, sym, true, List, [], ◌∷◌, ◌++◌, arith, all, mem, some,
  subset, Bool-cases, inl, inr, ◌==◌, eq_iff, some_injective, ◌&&◌, ◌∙◌, Option,
}
use sovereign_flow.Result.{ok, >>=-eq-ok, guard-eq-ok, guard-true}
use sovereign_flow.Pipeline.Definition.{
  PipelineStepDefinition, PipelineDefinition, find_step, step_ids,
}
use sovereign_flow.Pipeline.Registry.{PipelineAction, get_action, distinct}
use sovereign_flow.Pipeline.Transition.{Reaches, start, next, next_step, mem-targets}
use sovereign_flow.Pipeline.Validator.{
  Walked, initial_state, walk, check_step, check_steps, check_next, check_routes, validate,
}
use sovereign_flow.Pipeline.Validator.Walks.{
  AllResult, walk-zero, walk_at, walk_target, walk_result,
}

module _ {E : Type 0} (registry : List (PipelineAction E)) (p : PipelineDefinition) where
  -- What a validated pipeline has at a step that is reached after `k` steps.
  pub record IsSound (k : ℕ) (available : List String) (step_id : String) : Type 0 where
    pub in_time : k < p.max_steps
    pub step : PipelineStepDefinition
    pub found : find_step step_id p.steps ≡ some step
    pub action : PipelineAction E
    pub got : get_action registry step.action ≡ ok action
    pub version : action.behavior_version ≡ step.action_version
    pub configured : action.validate_config step ≡ ok tt
    pub satisfied : subset action.requires available ≡ true
    pub produces : step.terminal ≡ true → mem "result" (available ++ action.provides) ≡ true

  record IsWalked (k : ℕ) (available : List String) (step_id : String) : Type 0 where
    left : ℕ
    counted : k + left ≡ p.max_steps
    path : List String
    seen : Walked
    seen' : Walked
    walked : walk registry p.steps left available path step_id seen ≡ ok seen'
    results : AllResult seen'

  -- The two checks that matter on a path.
  record IsChecked : Type 0 where
    each : check_steps registry (step_ids p.steps) p.steps ≡ ok tt
    entry : IsWalked zero initial_state p.entry_step_id

  validate-IsChecked : validate registry p ≡ ok tt → IsChecked
  unfolding validate
  validate-IsChecked h =
      let (unique, h₁) = guard-eq-ok (distinct (step_ids p.steps)) _ _ h in
      let (entry, h₂) = guard-eq-ok (mem p.entry_step_id (step_ids p.steps)) _ _ h₁ in
      let (_, each, h₃) = >>=-eq-ok (check_steps registry (step_ids p.steps) p.steps) _ h₂ in
      let (seen, walked, h₄) =
        >>=-eq-ok
          (walk registry p.steps p.max_steps initial_state [] p.entry_step_id
            (record { visited = []; terminal_results = [] }))
          _ h₃ in
      let (reached, h₅) =
        guard-eq-ok
          (subset seen.visited (step_ids p.steps) && subset (step_ids p.steps) seen.visited) _ _
          h₄ in
      record {
        each = each;
        entry = record {
          left = p.max_steps;
          counted = omega arith;
          path = [];
          seen = record { visited = []; terminal_results = [] };
          seen' = seen;
          walked = walked;
          results = guard-true (all (λ b. b) seen.terminal_results) _ h₅;
        };
      }

  check_steps_found :
      (known : List String) (steps : List PipelineStepDefinition) (step_id : String)
      (step : PipelineStepDefinition)
      → check_steps registry known steps ≡ ok tt
      → find_step step_id steps ≡ some step
      → check_step registry known step ≡ ok tt
  unfolding check_steps find_step
  check_steps_found known [] step_id step h f = cc
  check_steps_found known (s ∷ steps) step_id step h f =
      let (_, first, rest) = >>=-eq-ok (check_step registry known s) _ h in
      elim (Bool-cases (s.step_id == step_id)) [
        | inl here ↦
            subst (λ t. check_step registry known t ≡ ok tt) (some_injective s step (rw here at f))
              first
        | inr there ↦ check_steps_found known steps step_id step rest (rw there at f)
      ]

  record IsVersioned (step : PipelineStepDefinition) (action : PipelineAction E) : Type 0 where
    version : action.behavior_version ≡ step.action_version
    configured : action.validate_config step ≡ ok tt

  check_step-IsVersioned :
      (known : List String) (step : PipelineStepDefinition) (action : PipelineAction E)
      → check_step registry known step ≡ ok tt
      → get_action registry step.action ≡ ok action
      → IsVersioned step action
  unfolding check_step
  check_step-IsVersioned known step action h g =
      let (version, h₁) =
        guard-eq-ok (action.behavior_version == step.action_version) _ _ (rw g at h) in
      let (_, _, h₂) = >>=-eq-ok (check_next known step.next_step_id) _ h₁ in
      let (_, _, h₃) = >>=-eq-ok (check_routes known step.routes) _ h₂ in
      record {
        version = (eq_iff action.behavior_version step.action_version).0 version;
        configured = h₃;
      }

  IsWalked-next :
      {k : ℕ} {available : List String} {step_id : String} (step : PipelineStepDefinition)
      (action : PipelineAction E) (route : Option String) (target : String)
      → IsWalked k available step_id
      → find_step step_id p.steps ≡ some step
      → get_action registry step.action ≡ ok action
      → next_step step route ≡ ok (some target)
      → IsWalked (suc k) (available ++ action.provides) target
  IsWalked-next {k} {available} {step_id} step action route target w f g n =
      step_from w.left w.counted w.walked
    where
      step_from :
          (left : ℕ)
          → k + left ≡ p.max_steps
          → walk registry p.steps left available w.path step_id w.seen ≡ ok w.seen'
          → IsWalked (suc k) (available ++ action.provides) target
      step_from zero counted walked =
          absurd (walk-zero registry p.steps available w.path step_id w.seen w.seen' walked)
      step_from (suc left) counted walked =
          let at = walk_at registry p.steps left available w.path step_id w.seen w.seen' walked in
          let same : at.step ≡ step = some_injective at.step step (sym at.found ∙ f) in
          let got : get_action registry step.action ≡ ok at.action = rw same at at.got in
          let same_action : at.action ≡ action = cc (g) in
          let (open_, m) = mem-targets step route target n in
          let (s, s', e, a) =
            walk_target registry p.steps left available w.path step_id w.seen w.seen' at target
              (rw same open_) w.results (rw same m) in
          record {
            left = left;
            counted = omega arith;
            path = w.path ++ step_id ∷ [];
            seen = s;
            seen' = s';
            walked =
                subst
                  (λ a.
                    walk registry p.steps left (available ++ a.provides) (w.path ++ step_id ∷ [])
                      target s
                    ≡ ok s')
                  same_action e;
            results = a;
          }

  Reaches-IsWalked :
      {k : ℕ} {available : List String} {step_id : String}
      → validate registry p ≡ ok tt
      → Reaches registry p k available step_id
      → IsWalked k available step_id
  Reaches-IsWalked h start = (validate-IsChecked h).entry
  Reaches-IsWalked h (next {target = target} {step = step} {action = action} route r f g n) =
      IsWalked-next step action route target (Reaches-IsWalked h r) f g n

  IsSound-at :
      (k left : ℕ) (available : List String) (step_id : String)
      → IsChecked
      → (w : IsWalked k available step_id) → k + left ≡ p.max_steps
      → walk registry p.steps left available w.path step_id w.seen ≡ ok w.seen'
      → IsSound k available step_id
  IsSound-at k zero available step_id c w counted walked =
      absurd (walk-zero registry p.steps available w.path step_id w.seen w.seen' walked)
  IsSound-at k (suc left) available step_id c w counted walked =
      let at = walk_at registry p.steps left available w.path step_id w.seen w.seen' walked in
      let checked = check_steps_found (step_ids p.steps) p.steps step_id at.step c.each at.found in
      let versioned = check_step-IsVersioned (step_ids p.steps) at.step at.action checked at.got in
      record {
        in_time = omega arith;
        step = at.step;
        found = at.found;
        action = at.action;
        got = at.got;
        version = versioned.version;
        configured = versioned.configured;
        satisfied = at.satisfied;
        produces = λ last.
            walk_result registry p.steps left available w.path step_id w.seen w.seen' at last
              w.results;
      }

  -- In a validated pipeline, every step that the engine can come to after `k` steps is reached
  -- before the step limit, is defined, names a registered action of the step's version whose
  -- configuration is accepted, finds the state that its action requires among what the path
  -- provided, and, if it is terminal, leaves a result.
  pub Reaches-IsSound :
      {k : ℕ} {available : List String} {step_id : String}
      → validate registry p ≡ ok tt
      → Reaches registry p k available step_id
      → IsSound k available step_id
  Reaches-IsSound {k} {available} {step_id} h r =
      let w = Reaches-IsWalked h r in
      IsSound-at k w.left available step_id (validate-IsChecked h) w w.counted w.walked
