-- ===== src/Pipeline/Registry.antt =====
-- `PipelineAction` and `ActionRegistry` of sovereignflow/application/pipeline.py. `E` is what an
-- action executes.
use sovereign_flow.Prelude.{
  String, Bool, true, not, ◌&&◌, List, [], ◌∷◌, Option, none, some, ◌==◌, mem, if◌then◌else◌,
}
use sovereign_flow.Result.{Result, ok, err, bad_definition, guard, ◌>>◌}
use sovereign_flow.Pipeline.Definition.{PipelineStepDefinition}

pub record PipelineAction (E : Type 0) : Type 0 where
  pub action_id : String
  pub behavior_version : String
  pub requires : List String
  pub provides : List String
  pub validate_config : PipelineStepDefinition → Result (Unit {0})
  pub execute : PipelineStepDefinition → E

-- All texts differ.
abbrev pub distinct : List String → Bool
distinct [] = true
distinct (x ∷ xs) = not (mem x xs) && distinct xs

module _ {E : Type 0} where
  abbrev pub action_ids : List (PipelineAction E) → List String
  action_ids [] = []
  action_ids (action ∷ actions) = action.action_id ∷ action_ids actions

  -- `ActionRegistry.__init__`: the registry is the list of its actions, which have distinct names.
  unfoldable pub new_registry : List (PipelineAction E) → Result (List (PipelineAction E))
  new_registry actions = do
    guard (distinct (action_ids actions))
        (bad_definition "Pipeline action identifiers must be unique")
    ok actions

  unfoldable pub find_action : String → List (PipelineAction E) → Option (PipelineAction E)
  find_action action_id [] = none
  find_action action_id (action ∷ actions) =
      let rest = find_action action_id actions in
      if action.action_id == action_id then some action else rest

  unfoldable pub action_found : Option (PipelineAction E) → Result (PipelineAction E)
  action_found none = err (bad_definition "Unknown pipeline action")
  action_found (some action) = ok action

  -- `ActionRegistry.get`
  unfoldable pub get_action : List (PipelineAction E) → String → Result (PipelineAction E)
  unfolding action_found
  get_action registry action_id = action_found (find_action action_id registry)
