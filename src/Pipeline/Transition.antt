-- ===== src/Pipeline/Transition.antt =====
-- `PipelineEngine._next_step` of sovereignflow/application/pipeline.py, and the paths that it
-- allows through a pipeline.
use sovereign_flow.Prelude.{
  ℕ, zero, suc, String, ◌≡◌, true, false, List, ◌++◌, Option, none, some, arith, lookup, is_none,
  if◌then◌else◌, mem, values, eq_iff, eq_refl, [], ◌∷◌, mem-cons_of_mem, mem-cons_self, ◌∙◌,
}
use sovereign_flow.Result.{Result, ok, err, bad_execution}
use sovereign_flow.Text.Order.{mem-sorted_set}
use sovereign_flow.Pipeline.Definition.{PipelineStepDefinition, PipelineDefinition, find_step}
use sovereign_flow.Pipeline.Registry.{PipelineAction, get_action}
use sovereign_flow.Pipeline.Validator.{initial_state, targets, with_next}

unfoldable pub routed : Option String → Result (Option String)
routed none = err (bad_execution "returned unknown route")
routed (some target) = ok (some target)

unfoldable pub followed : Option String → Result (Option String)
followed none = err (bad_execution "requires an explicit route decision")
followed (some target) = ok (some target)

unfoldable pub chosen : PipelineStepDefinition → Option String → Result (Option String)
unfolding routed followed
chosen step (some route) = routed (lookup route step.routes)
chosen step none = followed step.next_step_id

unfoldable pub next_step : PipelineStepDefinition → Option String → Result (Option String)
unfolding chosen
next_step step route =
    if step.terminal
    then (if is_none route then ok none else err (bad_execution "Terminal step returned a route"))
    else chosen step route

-- The pipeline can come to the step `step_id` after `k` steps, which provided `available`.
pub data Reaches {E : Type 0} (registry : List (PipelineAction E)) (p : PipelineDefinition)
    : ℕ → List String → String → Type 0 where
  start : Reaches registry p zero initial_state p.entry_step_id
  next :
      {k : ℕ} {available : List String} {step_id target : String} {step : PipelineStepDefinition}
      {action : PipelineAction E} (route : Option String)
      → Reaches registry p k available step_id
      → find_step step_id p.steps ≡ some step
      → get_action registry step.action ≡ ok action
      → next_step step route ≡ ok (some target)
      → Reaches registry p (suc k) (available ++ action.provides) target

mem-values_of_lookup :
    (k v : String) (m : List (String × String)) → lookup k m ≡ some v → mem v (values m) ≡ true
mem-values_of_lookup k v [] h = cc
mem-values_of_lookup k v ((j, w) ∷ m) h =
    ground (arith, eq_iff v w, eq_refl v, mem-values_of_lookup k v m)

mem-with_next :
    (target : String) (o : Option String) (vs : List String)
    → mem target vs ≡ true
    → mem target (with_next o vs) ≡ true
unfolding with_next
mem-with_next target none vs h = h
mem-with_next target (some n) vs h = mem-cons_of_mem target n vs h

mem-with_next_self :
    (target : String) (o : Option String) (vs : List String)
    → followed o ≡ ok (some target)
    → mem target (with_next o vs) ≡ true
unfolding with_next followed
mem-with_next_self target none vs h = cc
mem-with_next_self target (some n) vs h = ground (arith, mem-cons_self n vs, eq_iff target n)

mem-chosen :
    (step : PipelineStepDefinition) (route : Option String) (target : String)
    → chosen step route ≡ ok (some target)
    → mem target (with_next step.next_step_id (values step.routes)) ≡ true
unfolding chosen routed
mem-chosen step (some route) target h =
    mem-with_next target step.next_step_id (values step.routes)
      (mem-values_of_lookup route target step.routes (ground arith))
mem-chosen step none target h = mem-with_next_self target step.next_step_id (values step.routes) h

-- What the engine goes to is one of the targets that the validator walks to.
pub mem-targets :
    (step : PipelineStepDefinition) (route : Option String) (target : String)
    → next_step step route ≡ ok (some target)
    → (step.terminal ≡ false) × (mem target (targets step) ≡ true)
unfolding next_step targets
mem-targets step route target h =
    let open_ : step.terminal ≡ false = ground arith in
    let goes : chosen step route ≡ ok (some target) = rw open_ at h in
    (open_, mem-sorted_set target _ ∙ mem-chosen step route target goes)
