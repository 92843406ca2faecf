-- ===== src/Tests/Pipelines.antt =====
-- The theorems on pipelines, at a pipeline of two steps.
use sovereign_flow.Prelude.{String, ◌≡◌, refl, true, false, List, [], ◌∷◌, ◌++◌, Option, none, some}
use sovereign_flow.Result.{ok}
use sovereign_flow.Pipeline.Context.{Action}
use sovereign_flow.Pipeline.Definition.{PipelineStepDefinition, PipelineDefinition, find_step}
use sovereign_flow.Pipeline.Registry.{PipelineAction, get_action, find_action, action_found}
use sovereign_flow.Pipeline.Validator.{
  initial_state, validate, walk, for_each, known_step, item_found, targets, with_next, check_step,
  check_steps, check_next, check_routes,
}
use sovereign_flow.Pipeline.Transition.{Reaches, start, next, next_step, chosen, followed}
use sovereign_flow.Pipeline.Reached.{IsSound, Reaches-IsSound}
use sovereign_flow.Text.Order.{sorted_set, set_insert}

abbrev action :
    String → List String → List String → PipelineAction (Action (Unit {0}) (Option String))
action action_id requires provides = record {
  action_id = action_id;
  behavior_version = "1";
  requires = requires;
  provides = provides;
  validate_config = λ step. ok tt;
  execute = λ step s. (ok none, s);
}

abbrev pub registry : List (PipelineAction (Action (Unit {0}) (Option String)))
registry =
    action "retrieve" ("command" ∷ []) ("hits" ∷ [])
    ∷ action "finalize" ("hits" ∷ []) ("result" ∷ [])
    ∷ []

abbrev search_step : PipelineStepDefinition
search_step = record {
  step_id = "search";
  action = "retrieve";
  action_version = "1";
  next_step_id = some "finish";
  routes = [];
  terminal = false;
  config = [];
}

abbrev finish_step : PipelineStepDefinition
finish_step = record {
  step_id = "finish";
  action = "finalize";
  action_version = "1";
  next_step_id = none;
  routes = [];
  terminal = true;
  config = [];
}

abbrev pub pipeline : PipelineDefinition
pipeline = record {
  name = "answer";
  behavior_version = "1";
  entry_step_id = "search";
  max_steps = 2;
  steps = search_step ∷ finish_step ∷ [];
  checksum = "0";
}

pub pipeline_valid : validate registry pipeline ≡ ok tt
unfolding validate walk for_each known_step item_found targets with_next check_step check_steps
    check_next check_routes get_action find_action action_found find_step sorted_set set_insert
pipeline_valid = refl

search_found : find_step "search" pipeline.steps ≡ some search_step
unfolding find_step
search_found = refl

retrieve_got :
    get_action registry "retrieve" ≡ ok (action "retrieve" ("command" ∷ []) ("hits" ∷ []))
unfolding get_action find_action action_found
retrieve_got = refl

search_followed : next_step search_step none ≡ ok (some "finish")
unfolding next_step chosen followed
search_followed = refl

finish_reached : Reaches registry pipeline 1 (initial_state ++ "hits" ∷ []) "finish"
finish_reached = next none start search_found retrieve_got search_followed

Reaches-IsSound_example : IsSound registry pipeline 1 (initial_state ++ "hits" ∷ []) "finish"
Reaches-IsSound_example = Reaches-IsSound registry pipeline pipeline_valid finish_reached
