-- ===== src/Pipeline/Actions/Transmission.antt =====
-- sovereignflow/application/actions/enforce_model_transmission_policy.py: which model server may
-- receive the retrieved context. `_model_transmission_decision` assigns `context.model` where it
-- allows a server, so the decision carries that gateway.
pub mod Safety
pub mod Enforce
pub mod Enforced
use sovereign_flow.Prelude.{
  String, Bool, true, false, not, List, [], ◌∷◌, Option, none, some, ◌==◌, if◌then◌else◌, lookup,
}
use sovereign_flow.Result.{Result, ok, err, bad_definition, bad_execution, ◌>>=◌, ◌>>◌}
use sovereign_flow.Value.{Value}
use sovereign_flow.Domain.Security.{SecurityModel, SecurityDecision}
use sovereign_flow.Domain.Chunk.{SearchHit, chunk_ids}
use sovereign_flow.Domain.Server.{
  TrustBoundary, internal, external, ExternalTransmissionPolicy, allowed_policy, forbidden_policy,
  ModelServerDefinition, ContextSecurityRequirement, context_security_requirement,
  model_server_satisfies_requirement,
}
use sovereign_flow.Pipeline.Definition.{PipelineStepDefinition}
use sovereign_flow.Pipeline.Context.{PipelineContext, ModelGateway, ModelServerRuntime}
use sovereign_flow.Pipeline.Actions.Config.{reject_unknown_config_keys, required_config_string}

pub record ModelTransmissionPolicyConfig : Type 0 where
  pub selected_model_server_id : String
  pub external_transmission : ExternalTransmissionPolicy

-- `ExternalTransmissionPolicy(raw)`
unfoldable pub external_policy_of : String → Result ExternalTransmissionPolicy
external_policy_of raw =
    if raw == "allowed"
    then ok allowed_policy
    else if raw == "forbidden"
    then ok forbidden_policy
    else err (bad_definition "external_transmission must be allowed or forbidden")

unfoldable pub model_transmission_policy_config :
    PipelineStepDefinition → Result ModelTransmissionPolicyConfig
unfolding external_policy_of
model_transmission_policy_config step = do
  reject_unknown_config_keys step.config ("selected_model_server_id" ∷ "external_transmission" ∷ [])
  selected ← required_config_string step.config "selected_model_server_id"
  raw ← required_config_string step.config "external_transmission"
  policy ← external_policy_of raw
  ok (record { selected_model_server_id = selected; external_transmission = policy })

-- `ModelTransmissionDiagnostic`; `checked` is always true here.
pub record ModelTransmissionDiagnostic : Type 0 where
  pub checked : Bool
  pub allowed : Bool
  pub reason_code : String
  pub selected_model_server_id : Option String
  pub final_model_server_id : Option String
  pub rerouted : Bool
  pub trust_boundary : Option TrustBoundary
  pub external_transmission : Option ExternalTransmissionPolicy
  pub context_security_requirement : ContextSecurityRequirement
  pub checked_chunk_ids : List String
  pub blocked_chunk_ids : List String

-- The tests on an external server, `none` where they let it pass.
unfoldable pub external_refusal :
    TrustBoundary → ExternalTransmissionPolicy → Bool → Option SecurityDecision
external_refusal internal policy subject_allowed = none
external_refusal external forbidden_policy subject_allowed =
    some (record { allowed = false; reason_code = "external_transmission_forbidden_by_pipeline" })
external_refusal external allowed_policy true = none
external_refusal external allowed_policy false =
    some (record { allowed = false; reason_code = "external_model_not_allowed_for_subject" })

unfoldable pub unless_refused :
    Option SecurityDecision → Result SecurityDecision → Result SecurityDecision
unless_refused none decision = decision
unless_refused (some refusal) decision = ok refusal

-- A diagnostic, and the gateway that the context is given, if any.
pub record TransmissionDecision (W : Type 0) : Type 0 where
  pub diagnostic : ModelTransmissionDiagnostic
  pub gateway : Option (ModelGateway W)

module _ {W : Type 0} where
  unfoldable pub server_found : Option (ModelServerRuntime W) → Result (ModelServerRuntime W)
  server_found none = err (bad_execution "Model server is not configured")
  server_found (some runtime) = ok runtime

  -- `_model_server_runtime`
  unfoldable pub model_server_runtime : PipelineContext W → String → Result (ModelServerRuntime W)
  unfolding server_found
  model_server_runtime context server_id = server_found (lookup server_id context.model_servers)

  -- `_server_transmission_decision`
  unfoldable pub server_transmission_decision :
      PipelineContext W
      → ModelServerRuntime W
      → ContextSecurityRequirement
      → ExternalTransmissionPolicy
      → Result SecurityDecision
  unfolding external_refusal unless_refused
  server_transmission_decision context runtime requirement policy =
      unless_refused
        (external_refusal runtime.definition.trust_boundary policy
          context.command.authorization.allow_external_model)
        (model_server_satisfies_requirement context.domain.security_model runtime.definition
          requirement)

  unfoldable pub transmission_diagnostic :
      Bool
      → String
      → ModelServerRuntime W
      → Option String
      → Bool
      → TrustBoundary
      → ExternalTransmissionPolicy
      → ContextSecurityRequirement
      → (checked blocked : List String) → ModelTransmissionDiagnostic
  transmission_diagnostic allowed reason selected final rerouted boundary policy requirement checked
        blocked =
      record {
        checked = true;
        allowed = allowed;
        reason_code = reason;
        selected_model_server_id = some selected.definition.server_id;
        final_model_server_id = final;
        rerouted = rerouted;
        trust_boundary = some boundary;
        external_transmission = some policy;
        context_security_requirement = requirement;
        checked_chunk_ids = checked;
        blocked_chunk_ids = blocked;
      }

  -- The server that the selected one reroutes to, if any.
  unfoldable pub reroute_decision :
      PipelineContext W
      → ExternalTransmissionPolicy
      → ContextSecurityRequirement
      → ModelServerRuntime W
      → String
      → Option String
      → Result (TransmissionDecision W)
  unfolding transmission_diagnostic
  reroute_decision context policy requirement selected reason none =
      let ids = chunk_ids context.hits in
      ok (record {
        diagnostic =
            transmission_diagnostic false reason selected none false
              selected.definition.trust_boundary policy requirement ids ids;
        gateway = none;
      })
  reroute_decision context policy requirement selected reason (some reroute_id) = do
    let ids = chunk_ids context.hits
    reroute ← model_server_runtime context reroute_id
    decision ← server_transmission_decision context reroute requirement policy
    let final = some reroute.definition.server_id
    let boundary = reroute.definition.trust_boundary
    if decision.allowed
        then ok (record {
          diagnostic =
              transmission_diagnostic true "model_server_security_rerouted" selected final true
                boundary policy requirement ids [];
          gateway = some reroute.gateway;
        })
        else ok (record {
          diagnostic =
              transmission_diagnostic false decision.reason_code selected final true boundary policy
                requirement ids ids;
          gateway = none;
        })

  -- `_model_transmission_decision`
  unfoldable pub model_transmission_decision :
      ModelTransmissionPolicyConfig → PipelineContext W → Result (TransmissionDecision W)
  unfolding reroute_decision model_server_runtime server_transmission_decision
  model_transmission_decision config context = do
    let ids = chunk_ids context.hits
    requirement ← context_security_requirement context.domain.security_model context.hits
    selected ← model_server_runtime context config.selected_model_server_id
    decision ←
        server_transmission_decision context selected requirement config.external_transmission
    if decision.allowed
        then ok (record {
          diagnostic =
              transmission_diagnostic true "model_server_allowed" selected
                (some selected.definition.server_id) false selected.definition.trust_boundary
                config.external_transmission requirement ids [];
          gateway = some selected.gateway;
        })
        else reroute_decision context config.external_transmission requirement selected
            decision.reason_code selected.definition.security_reroute_server_id
