-- ===== src/Pipeline/Validator.antt =====
-- `PipelineValidator` of sovereignflow/application/pipeline.py.
pub mod Walks
use sovereign_flow.Prelude.{
  ℕ, zero, suc, String, Bool, true, false, not, ◌&&◌, ◌||◌, List, [], ◌∷◌, ◌++◌, Option, none, some,
  ◌==◌, if◌then◌else◌, mem, subset, difference, is_empty, all, values,
}
use sovereign_flow.Result.{Result, ok, err, bad_definition, foreign, guard, ◌>>=◌, ◌>>◌}
use sovereign_flow.Text.Order.{sorted_set}
use sovereign_flow.Pipeline.Definition.{
  PipelineStepDefinition, PipelineDefinition, find_step, step_ids,
}
use sovereign_flow.Pipeline.Registry.{PipelineAction, distinct, get_action}

abbrev pub initial_state : List String
initial_state = "command" ∷ "domain" ∷ "conversation_history_service" ∷ []

-- What `walk` collects: the steps seen, and for each terminal step whether a result is there.
pub record Walked : Type 0 where
  pub visited : List String
  pub terminal_results : List Bool

-- `next_step_id is not None and next_step_id not in steps`
unfoldable pub check_next : List String → Option String → Result (Unit {0})
check_next known none = ok tt
check_next known (some target) = guard (mem target known) (bad_definition "references unknown step")

unfoldable pub check_routes : List String → List (String × String) → Result (Unit {0})
check_routes known [] = ok tt
check_routes known ((route, target) ∷ rest) = do
  guard (mem target known) (bad_definition "route references unknown step")
  check_routes known rest

-- `targets`: the values of the routes and the next step, sorted.
unfoldable pub with_next : Option String → List String → List String
with_next none routes = routes
with_next (some target) routes = target ∷ routes

unfoldable pub targets : PipelineStepDefinition → List String
unfolding with_next
targets step = sorted_set (with_next step.next_step_id (values step.routes))

-- `steps[step_id]` on the dictionary of the steps, whose names are distinct.
unfoldable pub item_found : Option PipelineStepDefinition → Result PipelineStepDefinition
item_found none = err (foreign "KeyError")
item_found (some step) = ok step

unfoldable pub known_step : List PipelineStepDefinition → String → Result PipelineStepDefinition
unfolding item_found
known_step steps step_id = item_found (find_step step_id steps)

-- A loop that threads what was collected.
unfoldable pub for_each : (String → Walked → Result Walked) → List String → Walked → Result Walked
for_each f [] seen = ok seen
for_each f (target ∷ rest) seen = do seen' ← f target seen; for_each f rest seen'

module _ {E : Type 0} (registry : List (PipelineAction E)) where
  unfoldable pub check_step : List String → PipelineStepDefinition → Result (Unit {0})
  unfolding check_next check_routes
  check_step known step = do
    action ← get_action registry step.action
    guard (action.behavior_version == step.action_version)
        (bad_definition "Action version mismatch")
    check_next known step.next_step_id
    check_routes known step.routes
    action.validate_config step

  unfoldable pub check_steps : List String → List PipelineStepDefinition → Result (Unit {0})
  check_steps known [] = ok tt
  check_steps known (step ∷ steps) = do check_step known step; check_steps known steps

  module _ (steps : List PipelineStepDefinition) where
    -- `left` counts the steps that the path may still take: `max_steps - len(path)`.
    unfoldable pub walk : ℕ → List String → List String → String → Walked → Result Walked
    walk zero available path step_id seen = do
      guard (not (mem step_id path)) (bad_definition "Pipeline contains a cycle")
      err (bad_definition "Pipeline path exceeds max_steps")
    walk (suc left) available path step_id seen = do
      guard (not (mem step_id path)) (bad_definition "Pipeline contains a cycle")
      step ← known_step steps step_id
      action ← get_action registry step.action
      guard (is_empty (difference action.requires available))
          (bad_definition "requires unavailable state")
      let next_available = available ++ action.provides
      let seen' = record seen { visited = step_id ∷ seen.visited }
      let deeper = walk left next_available (path ++ step_id ∷ [])
      if step.terminal
          then ok (record seen' {
            terminal_results = seen.terminal_results ++ mem "result" next_available ∷ [];
          })
          else for_each deeper (targets step) seen'

  -- `PipelineValidator.validate`
  unfoldable pub validate : PipelineDefinition → Result (Unit {0})
  validate p = do
    guard (distinct (step_ids p.steps)) (bad_definition "Pipeline step identifiers must be unique")
    guard (mem p.entry_step_id (step_ids p.steps))
        (bad_definition "Pipeline entry step does not exist")
    check_steps (step_ids p.steps) p.steps
    seen ←
        walk p.steps p.max_steps initial_state [] p.entry_step_id
          (record { visited = []; terminal_results = [] })
    guard (subset seen.visited (step_ids p.steps) && subset (step_ids p.steps) seen.visited)
        (bad_definition "Pipeline contains unreachable steps")
    guard (all (λ b. b) seen.terminal_results) (bad_definition "Pipeline does not produce a result")
