-- ===== src/Pipeline/Actions/Transmission/Enforced.antt =====
-- What holds of the context once enforce_model_transmission_policy has returned.
use mathlib.Core.Path.{subst}
use sovereign_flow.Prelude.{String, ◌≡◌, ap, true, Option, none}
use sovereign_flow.Result.{Result, ok, policy_violated}
use sovereign_flow.Effect.{lift-bind-eq-ok, require-eq-ok, return}
use sovereign_flow.Domain.Chunk.{chunk_ids}
use sovereign_flow.Pipeline.Definition.{PipelineStepDefinition}
use sovereign_flow.Pipeline.Context.{PipelineContext, ActionState, ModelServerRuntime}
use sovereign_flow.Pipeline.Actions.Transmission.{
  ModelTransmissionPolicyConfig, model_transmission_policy_config, TransmissionDecision,
  model_transmission_decision,
}
use sovereign_flow.Pipeline.Actions.Transmission.Safety.{MayReceive, Allows, decision-Allows}
use sovereign_flow.Pipeline.Actions.Transmission.Enforce.{
  enforce_model_transmission_policy, set_model, set_diagnostic,
}

module _ {W : Type 0} where
  -- The context after the action: the gateway is that of a server that may receive the context as
  -- it was, and the flags that `call_model` reads are set for exactly those hits.
  pub record IsEnforced (step : PipelineStepDefinition) (before after : PipelineContext W)
      : Type 0 where
    pub config : ModelTransmissionPolicyConfig
    pub parsed : model_transmission_policy_config step ≡ ok config
    pub runtime : ModelServerRuntime W
    pub receives : MayReceive before config.external_transmission runtime
    pub sends : after.model ≡ runtime.gateway
    pub performed : after.model_transmission_checked ≡ true
    pub granted : after.model_transmission_allowed ≡ true
    pub same_hits : after.hits ≡ before.hits
    pub checked : after.model_transmission_checked_chunk_ids ≡ chunk_ids before.hits

  IsEnforced-of_Allows :
      (step : PipelineStepDefinition) (config : ModelTransmissionPolicyConfig)
      (c : PipelineContext W) (d : TransmissionDecision W)
      → model_transmission_policy_config step ≡ ok config
      → d.diagnostic.allowed ≡ true
      → Allows c config.external_transmission d
      → IsEnforced step c (set_diagnostic d.diagnostic (set_model d.gateway c))
  unfolding set_model set_diagnostic
  IsEnforced-of_Allows step config c d e g a = record {
    config = config;
    parsed = e;
    runtime = a.runtime;
    receives = a.receives;
    sends = rw a.given;
    performed = a.performed;
    granted = g;
    same_hits = rw a.given;
    checked = a.checked;
  }

  -- If the action returns, then the gateway of the context belongs to a configured server that may
  -- receive the context, the checks that `call_model` reads are passed, and the checked chunks are
  -- those of the hits, which stay as they are.
  pub enforce-IsEnforced :
      (step : PipelineStepDefinition) (s s' : ActionState W) (route : Option String)
      → enforce_model_transmission_policy step s ≡ (ok route, s')
      → IsEnforced step s.context s'.context
  unfolding enforce_model_transmission_policy
  enforce-IsEnforced step s s' route h =
      let (config, e, h₁) = lift-bind-eq-ok (model_transmission_policy_config step) _ s h in
      let (d, f, h₂) = lift-bind-eq-ok (model_transmission_decision config s.context) _ s h₁ in
      let (g, h₃) =
        require-eq-ok d.diagnostic.allowed (policy_violated d.diagnostic.reason_code) (return none)
          h₂ in
      let after = ap (λ (t : Result (Option String) × ActionState W). t.1.context) h₃ in
      subst (IsEnforced step s.context) after
        (IsEnforced-of_Allows step config s.context d e g (decision-Allows config s.context d f g))
