-- ===== src/Services/Authorization.antt =====
-- sovereignflow/application/authorization.py: may a caller use a capability.
pub mod Granted
use sovereign_flow.Prelude.{
  ℕ, String, Bool, not, ◌&&◌, ◌||◌, List, Option, none, some, mem, if◌then◌else◌,
}
use sovereign_flow.Result.{Result, policy_violated}
use sovereign_flow.Effect.{Effect, return, lift, require, ◌>>=◌, ◌>>◌}
use sovereign_flow.Domain.Access.{
  CapabilityDescriptor, ResolvedAccessPolicy, PipelineAccessDecision, new_access_decision,
}
use sovereign_flow.Domain.Chunk.{AuthorizationContext}

-- The methods of `AccessPolicyRepositoryPort` that the service calls.
pub record AccessPolicies (W : Type 0) : Type 0 where
  pub resolve : AuthorizationContext → Effect W ResolvedAccessPolicy
  pub capabilities : ResolvedAccessPolicy → Effect W (List CapabilityDescriptor)
  pub capability : String → ResolvedAccessPolicy → Effect W (Option CapabilityDescriptor)

-- What `SecurityDecisionAuditPort.record` is given.
pub record SecurityEvent : Type 0 where
  pub request_id : String
  pub subject : String
  pub tenant_id : String
  pub capability_id : String
  pub pipeline_name : Option String
  pub allowed : Bool
  pub reason_code : String
  pub policy_version : ℕ

unfoldable pub access_allowed :
    Option CapabilityDescriptor → ResolvedAccessPolicy → (diagnostics_requested : Bool) → Bool
access_allowed none policy diagnostics_requested = Bool.false
access_allowed (some c) policy diagnostics_requested =
    mem c.capability_id policy.capability_ids
    && (mem c.pipeline_name policy.pipeline_names
        && (not diagnostics_requested || c.diagnostics_available))

unfoldable pub refusal_reason :
    Option CapabilityDescriptor → (diagnostics_requested : Bool) → String
refusal_reason none diagnostics_requested = "pipeline_access_denied"
refusal_reason (some c) diagnostics_requested =
    if diagnostics_requested && not c.diagnostics_available
    then "capability_diagnostics_denied"
    else "pipeline_access_denied"

unfoldable pub pipeline_name_of : Option CapabilityDescriptor → Option String
pipeline_name_of none = none
pipeline_name_of (some c) = some c.pipeline_name

-- The event that is recorded for a decision.
unfoldable pub access_event :
    String
    → String
    → AuthorizationContext
    → Bool
    → Option CapabilityDescriptor
    → ResolvedAccessPolicy
    → SecurityEvent
unfolding access_allowed refusal_reason pipeline_name_of
access_event request_id capability_id authorization diagnostics_requested capability policy =
    record {
      request_id = request_id;
      subject = authorization.subject;
      tenant_id = authorization.tenant_id;
      capability_id = capability_id;
      pipeline_name = pipeline_name_of capability;
      allowed = access_allowed capability policy diagnostics_requested;
      reason_code =
          if access_allowed capability policy diagnostics_requested
          then "pipeline_access_allowed"
          else refusal_reason capability diagnostics_requested;
      policy_version = policy.policy_version;
    }

unfoldable pub access_decision :
    SecurityEvent → Option CapabilityDescriptor → ResolvedAccessPolicy → PipelineAccessDecision
access_decision event capability policy = record {
  allowed = event.allowed;
  reason_code = event.reason_code;
  capability = if event.allowed then capability else none;
  policy = policy;
}

module _ {W : Type 0} (repository : AccessPolicies W)
    (audit : SecurityEvent → Effect W (Unit {0})) where
  unfoldable pub catalog : AuthorizationContext → Effect W (List CapabilityDescriptor)
  catalog authorization = do
    policy ← repository.resolve authorization
    repository.capabilities policy

  unfoldable pub authorize :
      (request_id capability_id : String)
      → AuthorizationContext
      → (diagnostics_requested : Bool) → Effect W PipelineAccessDecision
  unfolding access_event access_decision
  authorize request_id capability_id authorization diagnostics_requested = do
    policy ← repository.resolve authorization
    capability ← repository.capability capability_id policy
    let event =
        access_event request_id capability_id authorization diagnostics_requested capability policy
    audit event
    decision ← lift (new_access_decision (access_decision event capability policy))
    require decision.allowed (policy_violated "The requested capability is not available")
    return decision
