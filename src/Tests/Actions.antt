-- ===== src/Tests/Actions.antt =====
-- The theorems on the actions, at concrete inputs.
use sovereign_flow.Prelude.{
  String, ◌≡◌, refl, true, false, [], ◌∷◌, ◌+◌, ◌*◌, ◌-◌, ◌≤◌, ◌⊎◌, length, none, some,
}
use sovereign_flow.Result.{ok, err, bad_execution}
use sovereign_flow.Text.Strip.{strip, required}
use sovereign_flow.Text.Words.{text_length, text_take, join}
use sovereign_flow.Domain.Security.{
  clearance_kind, clearance_value, level_at, required_model, required_option,
}
use sovereign_flow.Domain.Chunk.{Citation, new_citation, chunk_ids}
use sovereign_flow.Domain.Server.{
  allowed_policy, internal, ContextSecurityRequirement, new_context_security_requirement,
  highest_clearance, requirement_by_kind, context_security_requirement, server_clearance_decision,
  satisfies_by_kind, model_server_satisfies_requirement, present_label,
}
use sovereign_flow.Pipeline.Definition.{PipelineStepDefinition}
use sovereign_flow.Pipeline.Actions.Budget.{
  Built, block_of, citation_of, with_block, build_from, evidence_of, build_context,
}
use sovereign_flow.Pipeline.Actions.Budget.Fits.{
  CitesFirst, IsCitation, build_context-fits, exhausted_cites, no_evidence,
}
use sovereign_flow.Pipeline.Actions.Transmission.{
  ModelTransmissionPolicyConfig, model_transmission_policy_config, external_policy_of,
  model_transmission_decision, TransmissionDecision, model_server_runtime, server_found,
  server_transmission_decision, external_refusal, unless_refused, transmission_diagnostic,
  reroute_decision,
}
use sovereign_flow.Pipeline.Actions.Transmission.Safety.{Allows, decision-Allows}
use sovereign_flow.Pipeline.Actions.CallModel.{call_model}
use sovereign_flow.Pipeline.Actions.CallModel.Guarded.{call_model_guarded}
use sovereign_flow.Pipeline.Context.{ActionState}
use sovereign_flow.Value.{Value}
use sovereign_flow.Pipeline.Actions.Config.{
  reject_unknown_config_keys, required_config_string, non_empty_string, config_get, or_null,
}
use sovereign_flow.Pipeline.Actions.Transmission.Enforced.{IsEnforced, enforce-IsEnforced}
use sovereign_flow.Pipeline.Actions.Transmission.Enforce.{
  enforce_model_transmission_policy, set_model, set_diagnostic,
}
use sovereign_flow.Tests.Data.{context, state, library, hits, hit, gateway}

-- The first hit's block, cut at 54 characters.
abbrev shown : String
shown = "[source_id=handbook; chunk_id=c1; bm25=0.500000]\nLeave"

abbrev citation : String → Citation
citation chunk_id = record {
  source_id = "handbook";
  chunk_id = chunk_id;
  source_uri = none;
  score = (hit chunk_id "public").score;
  score_type = "bm25";
  metadata = [];
}

hits_built : build_context library hits 54 ≡ ok (shown, citation "c1" ∷ [], "c1" ∷ [], "c2" ∷ [])
unfolding build_context build_from block_of citation_of with_block evidence_of join text_length
    text_take new_citation required strip
hits_built = refl

build_context-fits_example :
    ("c1" ∷ "c2" ∷ [] ≡ chunk_ids hits)
    × (length (citation "c1" ∷ []) ≡ length {A = String} ("c1" ∷ []))
    × CitesFirst (citation "c1" ∷ []) hits
    × ((shown ≡ no_evidence) ⊎ (text_length shown ≤ 54 + 7 * (length {A = String} ("c1" ∷ []) - 1)))
build_context-fits_example =
    build_context-fits library hits 54 shown (citation "c1" ∷ []) ("c1" ∷ []) ("c2" ∷ []) hits_built

abbrev empty_block : Built
empty_block = record {
  blocks = "" ∷ [];
  citations = citation "c1" ∷ [];
  included = "c1" ∷ [];
  omitted = "c2" ∷ [];
}

spent_built : build_from library 54 54 hits ≡ ok empty_block
unfolding build_from block_of citation_of with_block text_length text_take new_citation required
    strip
spent_built = refl

exhausted_cites_example :
    (empty_block.blocks ≡ "" ∷ [])
    × (empty_block.included ≡ "c1" ∷ [])
    × ((c : Citation) × (empty_block.citations ≡ c ∷ []) × IsCitation c (hit "c1" "public"))
    × (empty_block.omitted ≡ "c2" ∷ [])
exhausted_cites_example =
    exhausted_cites library 54 (hit "c1" "public") (hit "c2" "secret" ∷ []) empty_block spent_built

abbrev config : ModelTransmissionPolicyConfig
config = record { selected_model_server_id = "open"; external_transmission = allowed_policy }

abbrev secret_requirement : ContextSecurityRequirement
secret_requirement = record {
  security_model_kind = clearance_kind;
  clearance_label = some "secret";
  classification_labels = [];
}

abbrev rerouted : TransmissionDecision (Unit {0})
rerouted = record {
  diagnostic = record {
    checked = true;
    allowed = true;
    reason_code = "model_server_security_rerouted";
    selected_model_server_id = some "open";
    final_model_server_id = some "closed";
    rerouted = true;
    trust_boundary = some internal;
    external_transmission = some allowed_policy;
    context_security_requirement = secret_requirement;
    checked_chunk_ids = "c1" ∷ "c2" ∷ [];
    blocked_chunk_ids = [];
  };
  gateway = some (gateway "closed");
}

decided : model_transmission_decision config context ≡ ok rerouted
unfolding model_transmission_decision reroute_decision model_server_runtime server_found
    server_transmission_decision external_refusal unless_refused transmission_diagnostic
    context_security_requirement requirement_by_kind highest_clearance present_label required_model
    new_context_security_requirement required_option required strip clearance_value level_at
    model_server_satisfies_requirement satisfies_by_kind server_clearance_decision
decided = refl

decision-Allows_example : Allows context allowed_policy rerouted
decision-Allows_example = decision-Allows config context rerouted decided refl

abbrev model_step : PipelineStepDefinition
model_step = record {
  step_id = "answer";
  action = "call_model";
  action_version = "1";
  next_step_id = some "finish";
  routes = [];
  terminal = false;
  config = [];
}

call_model_guarded_example :
    call_model library (λ w. (ok 0, w)) model_step state
    ≡ (err (bad_execution "Model transmission policy has not been enforced"), state)
call_model_guarded_example = call_model_guarded library (λ w. (ok 0, w)) model_step state refl

abbrev policy_step : PipelineStepDefinition
policy_step = record {
  step_id = "check";
  action = "enforce_model_transmission_policy";
  action_version = "1";
  next_step_id = some "answer";
  routes = [];
  terminal = false;
  config =
      ("selected_model_server_id", Value.str "open")
      ∷ ("external_transmission", Value.str "allowed")
      ∷ [];
}

abbrev enforced : ActionState (Unit {0})
enforced = record {
  context = record context {
    model = gateway "closed";
    model_transmission_checked = true;
    model_transmission_allowed = true;
    model_transmission_reason_code = "model_server_security_rerouted";
    model_transmission_selected_server_id = some "open";
    model_transmission_final_server_id = some "closed";
    model_transmission_rerouted = true;
    model_transmission_trust_boundary = some internal;
    model_transmission_external_policy = some allowed_policy;
    model_transmission_context_requirement = secret_requirement;
    model_transmission_checked_chunk_ids = "c1" ∷ "c2" ∷ [];
    model_transmission_blocked_chunk_ids = [];
  };
  world = tt;
}

policy_enforced : enforce_model_transmission_policy policy_step state ≡ (ok none, enforced)
unfolding enforce_model_transmission_policy set_model set_diagnostic
    model_transmission_policy_config external_policy_of reject_unknown_config_keys
    required_config_string non_empty_string config_get or_null model_transmission_decision
    reroute_decision model_server_runtime server_found server_transmission_decision external_refusal
    unless_refused transmission_diagnostic context_security_requirement requirement_by_kind
    highest_clearance present_label required_model new_context_security_requirement required_option
    required strip clearance_value level_at model_server_satisfies_requirement satisfies_by_kind
    server_clearance_decision
policy_enforced = refl

enforce-IsEnforced_example : IsEnforced policy_step context enforced.context
enforce-IsEnforced_example = enforce-IsEnforced policy_step state enforced none policy_enforced
