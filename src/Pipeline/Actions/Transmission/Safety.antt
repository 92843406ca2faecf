-- ===== src/Pipeline/Actions/Transmission/Safety.antt =====
-- A model server that a transmission decision allows may see the whole context.
use sovereign_flow.Prelude.{
  String, ◌≡◌, ◌≢◌, refl, ap, Bool, true, false, [], Option, none, some, arith, All, lookup,
  Bool-cases, inl, inr,
}
use mathlib.Core.Path.{subst}
use sovereign_flow.Result.{Result, ok, ok_injective, >>=-eq-ok}
use sovereign_flow.Domain.Security.{SecurityDecision}
use sovereign_flow.Domain.Security.Visibility.{Visible}
use sovereign_flow.Domain.Chunk.{chunk_ids}
use sovereign_flow.Domain.Server.{
  TrustBoundary, internal, external, ExternalTransmissionPolicy, allowed_policy, forbidden_policy,
  ContextSecurityRequirement, context_security_requirement,
}
use sovereign_flow.Domain.Server.Soundness.{profile_subject, context-Visible}
use sovereign_flow.Pipeline.Context.{PipelineContext, ModelServerRuntime}
use sovereign_flow.Pipeline.Actions.Transmission.{
  ModelTransmissionPolicyConfig, TransmissionDecision, external_refusal, unless_refused,
  model_server_runtime, server_transmission_decision, reroute_decision, model_transmission_decision,
}

refusal_external :
    (boundary : TrustBoundary) (policy : ExternalTransmissionPolicy) (subject : Bool)
    (decision : Result SecurityDecision) (d : SecurityDecision)
    → unless_refused (external_refusal boundary policy subject) decision ≡ ok d
    → d.allowed ≡ true
    → (decision ≡ ok d)
      × (boundary ≡ external → policy ≡ allowed_policy)
      × (boundary ≡ external → subject ≡ true)
unfolding unless_refused external_refusal
refusal_external internal policy subject decision d h g = (h, λ e. cc, λ e. cc)
refusal_external external forbidden_policy subject decision d h g = absurd (ground arith)
refusal_external external allowed_policy true decision d h g = (h, λ e. refl, λ e. refl)
refusal_external external allowed_policy false decision d h g = absurd (ground arith)

ok_allowed :
    {W : Type 0} (e d : TransmissionDecision W)
    → ok e ≡ ok d
    → e.diagnostic.allowed ≡ false
    → d.diagnostic.allowed ≢ true
ok_allowed e d same f g =
    cc (ap (λ (x : TransmissionDecision _). x.diagnostic.allowed) (ok_injective same))

module _ {W : Type 0} where
  -- The server may receive the context: it is one of the configured servers; if it is external then
  -- the pipeline and the caller allow external models; and with its own profile it may see the
  -- document of every hit.
  pub record MayReceive (context : PipelineContext W) (policy : ExternalTransmissionPolicy)
      (runtime : ModelServerRuntime W) : Type 0 where
    pub server_id : String
    pub configured : lookup server_id context.model_servers ≡ some runtime
    pub pipeline_allows : runtime.definition.trust_boundary ≡ external → policy ≡ allowed_policy
    pub subject_allows :
        runtime.definition.trust_boundary ≡ external
        → context.command.authorization.allow_external_model ≡ true
    pub sees :
        All
          (λ hit.
            Visible context.domain.security_model hit.chunk.security
              (profile_subject runtime.definition.security_profile))
          context.hits

  server_found-eq-ok :
      (context : PipelineContext W) (server_id : String) (runtime : ModelServerRuntime W)
      → model_server_runtime context server_id ≡ ok runtime
      → lookup server_id context.model_servers ≡ some runtime
  unfolding model_server_runtime
  server_found-eq-ok context server_id runtime h = ground arith

  MayReceive-of_decision :
      (context : PipelineContext W) (policy : ExternalTransmissionPolicy) (server_id : String)
      (runtime : ModelServerRuntime W) (requirement : ContextSecurityRequirement)
      (d : SecurityDecision)
      → context_security_requirement context.domain.security_model context.hits ≡ ok requirement
      → model_server_runtime context server_id ≡ ok runtime
      → server_transmission_decision context runtime requirement policy ≡ ok d
      → d.allowed ≡ true
      → MayReceive context policy runtime
  unfolding server_transmission_decision
  MayReceive-of_decision context policy server_id runtime requirement d r e h g =
      let (decided, pipeline, subject) = refusal_external _ policy _ _ d h g in
      record {
        server_id = server_id;
        configured = server_found-eq-ok context server_id runtime e;
        pipeline_allows = pipeline;
        subject_allows = subject;
        sees =
            context-Visible context.domain.security_model runtime.definition context.hits
              requirement d r decided g;
      }

  -- What a decision that allows has decided: a server that may receive the context, whose gateway
  -- the context is given, and no blocked chunk.
  pub record Allows (context : PipelineContext W) (policy : ExternalTransmissionPolicy)
      (d : TransmissionDecision W) : Type 0 where
    pub runtime : ModelServerRuntime W
    pub receives : MayReceive context policy runtime
    pub given : d.gateway ≡ some runtime.gateway
    pub named : d.diagnostic.final_model_server_id ≡ some runtime.definition.server_id
    pub unblocked : d.diagnostic.blocked_chunk_ids ≡ []
    pub checked : d.diagnostic.checked_chunk_ids ≡ chunk_ids context.hits
    pub performed : d.diagnostic.checked ≡ true

  reroute-Allows :
      (context : PipelineContext W) (policy : ExternalTransmissionPolicy)
      (requirement : ContextSecurityRequirement) (selected : ModelServerRuntime W) (reason : String)
      (reroute : Option String) (d : TransmissionDecision W)
      → context_security_requirement context.domain.security_model context.hits ≡ ok requirement
      → reroute_decision context policy requirement selected reason reroute ≡ ok d
      → d.diagnostic.allowed ≡ true
      → Allows context policy d
  unfolding reroute_decision
  reroute-Allows context policy requirement selected reason none d r h g = absurd (ground arith)
  reroute-Allows context policy requirement selected reason (some id) d r h g =
      let (runtime, er, h₁) = >>=-eq-ok (model_server_runtime context id) _ h in
      let (sd, ed, h₂) =
        >>=-eq-ok (server_transmission_decision context runtime requirement policy) _ h₁ in
      elim (Bool-cases sd.allowed) [
        | inl yes_ ↦ subst (Allows context policy) (ok_injective (rw yes_ at h₂)) (record {
          runtime = runtime;
          receives = MayReceive-of_decision context policy id runtime requirement sd r er ed yes_;
          given = refl;
          named = refl;
          unblocked = refl;
          checked = refl;
          performed = refl;
        })
        | inr no_ ↦ absurd (ok_allowed _ d (rw no_ at h₂) refl g)
      ]

  -- If the decision allows the transmission, then the gateway that the context is given belongs to
  -- a configured server that may receive the context: external only where the pipeline and the
  -- caller allow it, and cleared by its profile for the document of every hit. No chunk is blocked.
  pub decision-Allows :
      (config : ModelTransmissionPolicyConfig) (context : PipelineContext W)
      (d : TransmissionDecision W)
      → model_transmission_decision config context ≡ ok d
      → d.diagnostic.allowed ≡ true
      → Allows context config.external_transmission d
  unfolding model_transmission_decision
  decision-Allows config context d h g =
      let policy = config.external_transmission in
      let id = config.selected_model_server_id in
      let (requirement, r, h₁) =
        >>=-eq-ok (context_security_requirement context.domain.security_model context.hits) _ h in
      let (runtime, er, h₂) = >>=-eq-ok (model_server_runtime context id) _ h₁ in
      let (sd, ed, h₃) =
        >>=-eq-ok (server_transmission_decision context runtime requirement policy) _ h₂ in
      elim (Bool-cases sd.allowed) [
        | inl yes_ ↦ subst (Allows context policy) (ok_injective (rw yes_ at h₃)) (record {
          runtime = runtime;
          receives = MayReceive-of_decision context policy id runtime requirement sd r er ed yes_;
          given = refl;
          named = refl;
          unblocked = refl;
          checked = refl;
          performed = refl;
        })
        | inr no_ ↦
            reroute-Allows context policy requirement runtime sd.reason_code
              runtime.definition.security_reroute_server_id d r (rw no_ at h₃) g
      ]
