-- ===== src/Pipeline/Definition.antt =====
-- `PipelineStepDefinition` and `PipelineDefinition` of sovereignflow/domain/models.py.
use sovereign_flow.Prelude.{
  ℕ, String, Bool, not, ◌&&◌, ◌||◌, List, [], ◌∷◌, Option, none, some, ◌==◌, leb, if◌then◌else◌,
  insert, is_empty, is_some, is_none,
}
use sovereign_flow.Prelude.Int.{ℤ, pos}
use sovereign_flow.Result.{Result, ok, err, validation, guard, ◌>>=◌, ◌>>◌}
use sovereign_flow.Text.Strip.{required}
use sovereign_flow.Domain.Security.{required_option}
use sovereign_flow.Value.{Value, Items, Fields, from_entries}

-- `_freeze_config_value`: keys are stripped and must not be empty. Every JSON value passes.
unfoldable mutual
  pub freeze_config_value : Value → Result Value
  freeze_config_value Value.null = ok Value.null
  freeze_config_value (Value.bool b) = ok (Value.bool b)
  freeze_config_value (Value.int n) = ok (Value.int n)
  freeze_config_value (Value.float x) = ok (Value.float x)
  freeze_config_value (Value.str s) = ok (Value.str s)
  freeze_config_value (Value.sequence vs) = do vs' ← freeze_items vs; ok (Value.sequence vs')
  freeze_config_value (Value.mapping fs) = do
    fs' ← freeze_fields fs []
    ok (Value.mapping (from_entries fs'))

  pub freeze_items : Items → Result Items
  freeze_items Items.nil = ok Items.nil
  freeze_items (Items.cons v vs) = do
    v' ← freeze_config_value v
    vs' ← freeze_items vs
    ok (Items.cons v' vs')

  -- A later key that is equal once stripped overwrites.
  pub freeze_fields : Fields → List (String × Value) → Result (List (String × Value))
  freeze_fields Fields.end done = ok done
  freeze_fields (Fields.field k v fs) done = do
    k' ← required k "config key"
    v' ← freeze_config_value v
    freeze_fields fs (insert k' v' done)

pub record PipelineStepDefinition : Type 0 where
  pub step_id : String
  pub action : String
  pub action_version : String
  pub next_step_id : Option String
  pub routes : List (String × String)
  pub terminal : Bool
  pub config : List (String × Value)

unfoldable pub normalized_routes :
    List (String × String) → List (String × String) → Result (List (String × String))
normalized_routes [] done = ok done
normalized_routes ((key, value) ∷ rest) done = do
  key' ← required key "PipelineStepDefinition.routes key"
  value' ← required value "PipelineStepDefinition.routes value"
  normalized_routes rest (insert key' value' done)

-- `PipelineStepDefinition.__post_init__`, from the fields as they are given.
unfoldable pub new_step : PipelineStepDefinition → Fields → Result PipelineStepDefinition
unfolding normalized_routes freeze_config_value
new_step s config = do
  step_id ← required s.step_id "PipelineStepDefinition.step_id"
  action ← required s.action "PipelineStepDefinition.action"
  action_version ← required s.action_version "PipelineStepDefinition.action_version"
  next_step_id ← required_option s.next_step_id "PipelineStepDefinition.next_step_id"
  routes ← normalized_routes s.routes []
  config' ← freeze_fields config []
  guard (not (s.terminal && (is_some next_step_id || not (is_empty s.routes))))
      (validation "A terminal pipeline step cannot define transitions")
  guard (not (not s.terminal && (is_none next_step_id && is_empty s.routes)))
      (validation "A non-terminal pipeline step must define a transition")
  ok (record {
    step_id = step_id;
    action = action;
    action_version = action_version;
    next_step_id = next_step_id;
    routes = routes;
    terminal = s.terminal;
    config = config';
  })

pub record PipelineDefinition : Type 0 where
  pub name : String
  pub behavior_version : String
  pub entry_step_id : String
  pub max_steps : ℕ
  pub steps : List PipelineStepDefinition
  pub checksum : String

unfoldable pub positive_limit : ℤ → Result ℕ
positive_limit (pos n) =
    if leb 1 n
    then ok n
    else err (validation "PipelineDefinition.max_steps must be greater than zero")
positive_limit other = err (validation "PipelineDefinition.max_steps must be greater than zero")

-- `PipelineDefinition.__post_init__`; `max_steps` comes as an integer.
unfoldable pub new_pipeline : PipelineDefinition → ℤ → Result PipelineDefinition
unfolding positive_limit
new_pipeline p max_steps = do
  name ← required p.name "PipelineDefinition.name"
  behavior_version ← required p.behavior_version "PipelineDefinition.behavior_version"
  entry_step_id ← required p.entry_step_id "PipelineDefinition.entry_step_id"
  checksum ← required p.checksum "PipelineDefinition.checksum"
  limit ← positive_limit max_steps
  guard (not (is_empty p.steps)) (validation "PipelineDefinition.steps cannot be empty")
  ok (record p {
    name = name;
    behavior_version = behavior_version;
    entry_step_id = entry_step_id;
    max_steps = limit;
    checksum = checksum;
  })

-- The first step of that name, as `PipelineDefinition.step` finds it.
unfoldable pub find_step : String → List PipelineStepDefinition → Option PipelineStepDefinition
find_step step_id [] = none
find_step step_id (step ∷ steps) =
    let rest = find_step step_id steps in if step.step_id == step_id then some step else rest

unfoldable pub step_found : Option PipelineStepDefinition → Result PipelineStepDefinition
step_found none = err (validation "Unknown pipeline step")
step_found (some step) = ok step

-- `PipelineDefinition.step`
unfoldable pub pipeline_step : PipelineDefinition → String → Result PipelineStepDefinition
unfolding step_found
pipeline_step p step_id = step_found (find_step step_id p.steps)

-- `[step.step_id for step in steps]`
abbrev pub step_ids : List PipelineStepDefinition → List String
step_ids [] = []
step_ids (step ∷ steps) = step.step_id ∷ step_ids steps
