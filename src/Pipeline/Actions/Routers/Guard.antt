-- ===== src/Pipeline/Actions/Routers/Guard.antt =====
-- `LoopGuardAction.execute`.
use sovereign_flow.Prelude.{String, Option, some, insert}
use sovereign_flow.Effect.{return, lift, ◌>>=◌, ◌>>◌}
use sovereign_flow.Pipeline.Definition.{PipelineStepDefinition}
use sovereign_flow.Pipeline.Context.{Action, ask, assign}
use sovereign_flow.Pipeline.Actions.Routers.{loop_guard_config, loop_count, loop_route}

module _ {W : Type 0} where
  unfoldable pub loop_guard : PipelineStepDefinition → Action W (Option String)
  loop_guard step = do
    config ← lift (loop_guard_config step)
    c ← ask (λ c. c)
    let current = loop_count step.step_id c.loop_counters
    assign (λ c. record c { loop_counters = insert step.step_id current c.loop_counters })
    let route = loop_route config current
    assign (λ c. record c { last_route = route })
    return (some route)
