-- ===== src/Tests/Routing.antt =====
-- The theorem on loop guards, at the last loop that is allowed.
use sovereign_flow.Prelude.{◌≡◌, refl, false, [], ◌∷◌, none, some}
use sovereign_flow.Prelude.Int.{pos}
use sovereign_flow.Result.{ok}
use sovereign_flow.Value.{Value}
use sovereign_flow.Text.Strip.{strip}
use sovereign_flow.Pipeline.Definition.{PipelineStepDefinition}
use sovereign_flow.Pipeline.Context.{ActionState}
use sovereign_flow.Pipeline.Actions.Config.{
  reject_unknown_config_keys, required_config_string, non_empty_string, config_get, or_null,
  positive_config_integer, positive_integer,
}
use sovereign_flow.Pipeline.Actions.Routers.{
  loop_guard_config, count_or_zero, loop_count, loop_route,
}
use sovereign_flow.Pipeline.Actions.Routers.Guard.{loop_guard}
use sovereign_flow.Pipeline.Actions.Routers.Counted.{IsCounted, loop_guard-IsCounted}
use sovereign_flow.Tests.Data.{context}

abbrev guard_step : PipelineStepDefinition
guard_step = record {
  step_id = "again";
  action = "loop_guard";
  action_version = "1";
  next_step_id = none;
  routes = ("more", "search") ∷ ("enough", "finish") ∷ [];
  terminal = false;
  config =
      ("max_loops", Value.int (pos 2))
      ∷ ("on_allow", Value.str "more")
      ∷ ("on_deny", Value.str "enough")
      ∷ [];
}

abbrev once : ActionState (Unit {0})
once = record { context = record context { loop_counters = ("again", 1) ∷ [] }; world = tt }

abbrev twice : ActionState (Unit {0})
twice = record {
  context = record context { loop_counters = ("again", 2) ∷ []; last_route = "more" };
  world = tt;
}

guarded : loop_guard guard_step once ≡ (ok (some "more"), twice)
unfolding loop_guard loop_guard_config loop_count count_or_zero loop_route
    reject_unknown_config_keys required_config_string non_empty_string config_get or_null
    positive_config_integer positive_integer strip
guarded = refl

loop_guard-IsCounted_example : IsCounted guard_step once.context twice.context (some "more")
loop_guard-IsCounted_example = loop_guard-IsCounted guard_step once twice (some "more") guarded
