-- ===== src/Pipeline/Actions/Routers.antt =====
-- sovereignflow/application/actions/loop_guard.py: the route of a step that may run a number of
-- times.
pub mod Guard
pub mod Counted
use sovereign_flow.Prelude.{
  ℕ, suc, String, List, [], ◌∷◌, Option, none, some, leb, if◌then◌else◌, lookup, insert,
}
use sovereign_flow.Result.{Result, ok, bad_definition, guard, ◌>>=◌, ◌>>◌}
use sovereign_flow.Pipeline.Definition.{PipelineStepDefinition}
use sovereign_flow.Pipeline.Actions.Config.{
  reject_unknown_config_keys, required_config_string, positive_config_integer, declared,
}

pub record LoopGuardConfig : Type 0 where
  pub max_loops : ℕ
  pub on_allow : String
  pub on_deny : String

-- `_loop_guard_config`
unfoldable pub loop_guard_config : PipelineStepDefinition → Result LoopGuardConfig
loop_guard_config step = do
  reject_unknown_config_keys step.config ("max_loops" ∷ "on_allow" ∷ "on_deny" ∷ [])
  on_allow ← required_config_string step.config "on_allow"
  on_deny ← required_config_string step.config "on_deny"
  guard (declared step.routes on_allow)
      (bad_definition "loop_guard route is not declared in routes")
  guard (declared step.routes on_deny) (bad_definition "loop_guard route is not declared in routes")
  max_loops ← positive_config_integer step.config "max_loops"
  ok (record { max_loops = max_loops; on_allow = on_allow; on_deny = on_deny })

-- `context.loop_counters.get(step_id, 0)`
unfoldable pub count_or_zero : Option ℕ → ℕ
count_or_zero none = 0
count_or_zero (some n) = n

-- The number of runs of the step with this one.
unfoldable pub loop_count : String → List (String × ℕ) → ℕ
unfolding count_or_zero
loop_count step_id counters = suc (count_or_zero (lookup step_id counters))

unfoldable pub loop_route : LoopGuardConfig → ℕ → String
loop_route config current = if leb current config.max_loops then config.on_allow else config.on_deny
