-- ===== src/Pipeline/Actions/Transmission/Enforce.antt =====
-- `EnforceModelTransmissionPolicyAction.execute`.
use sovereign_flow.Prelude.{String, Option, none, some}
use sovereign_flow.Result.{policy_violated}
use sovereign_flow.Effect.{return, lift, require, ◌>>=◌, ◌>>◌}
use sovereign_flow.Pipeline.Definition.{PipelineStepDefinition}
use sovereign_flow.Pipeline.Context.{PipelineContext, ModelGateway, Action, ask, assign}
use sovereign_flow.Pipeline.Actions.Transmission.{
  ModelTransmissionDiagnostic, model_transmission_policy_config, model_transmission_decision,
}

module _ {W : Type 0} where
  unfoldable pub set_model : Option (ModelGateway W) → PipelineContext W → PipelineContext W
  set_model none c = c
  set_model (some gateway) c = record c { model = gateway }

  unfoldable pub set_diagnostic :
      ModelTransmissionDiagnostic → PipelineContext W → PipelineContext W
  set_diagnostic d c = record c {
    model_transmission_checked = d.checked;
    model_transmission_allowed = d.allowed;
    model_transmission_reason_code = d.reason_code;
    model_transmission_selected_server_id = d.selected_model_server_id;
    model_transmission_final_server_id = d.final_model_server_id;
    model_transmission_rerouted = d.rerouted;
    model_transmission_trust_boundary = d.trust_boundary;
    model_transmission_external_policy = d.external_transmission;
    model_transmission_context_requirement = d.context_security_requirement;
    model_transmission_checked_chunk_ids = d.checked_chunk_ids;
    model_transmission_blocked_chunk_ids = d.blocked_chunk_ids;
  }

  unfoldable pub enforce_model_transmission_policy :
      PipelineStepDefinition → Action W (Option String)
  unfolding set_model set_diagnostic
  enforce_model_transmission_policy step = do
    config ← lift (model_transmission_policy_config step)
    context ← ask (λ c. c)
    decision ← lift (model_transmission_decision config context)
    assign (set_model decision.gateway)
    assign (set_diagnostic decision.diagnostic)
    require decision.diagnostic.allowed (policy_violated decision.diagnostic.reason_code)
    return none
