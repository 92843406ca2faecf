-- ===== src/Services/Authorization/Granted.antt =====
-- What an authorization that is granted, or refused, has done.
use mathlib.Core.Path.{subst}
use sovereign_flow.Prelude.{
  String, ◌≡◌, refl, sym, ap, ◌∙◌, Bool, true, Option, none, some, arith, mem, if◌then◌else◌,
}
use sovereign_flow.Result.{Result, ok, ok_injective, >>=-eq-ok, guard-eq-ok}
use sovereign_flow.Effect.{Effect, return, bind-eq-ok, seq-eq-ok, lift-bind-eq-ok, require-eq-ok}
use sovereign_flow.Text.Strip.{required}
use sovereign_flow.Domain.Access.{
  CapabilityDescriptor, ResolvedAccessPolicy, PipelineAccessDecision, new_access_decision,
}
use sovereign_flow.Domain.Chunk.{AuthorizationContext}
use sovereign_flow.Services.Authorization.{
  AccessPolicies, SecurityEvent, access_allowed, access_event, access_decision, authorize,
}

-- The capability is one of the policy, and so is its pipeline; diagnostics only where it has them.
pub record IsListed (policy : ResolvedAccessPolicy) (c : CapabilityDescriptor)
    (diagnostics_requested : Bool) : Type 0 where
  pub capability : mem c.capability_id policy.capability_ids ≡ true
  pub pipeline : mem c.pipeline_name policy.pipeline_names ≡ true
  pub diagnostics : diagnostics_requested ≡ true → c.diagnostics_available ≡ true

access_allowed-IsListed :
    (o : Option CapabilityDescriptor) (policy : ResolvedAccessPolicy) (requested : Bool)
    → access_allowed o policy requested ≡ true
    → (c : CapabilityDescriptor) × (o ≡ some c) × IsListed policy c requested
unfolding access_allowed
access_allowed-IsListed none policy requested h = cc
access_allowed-IsListed (some c) policy requested h = (
  c,
  refl,
  record { capability = ground arith; pipeline = ground arith; diagnostics = λ r. ground arith },
)

-- The constructor of a decision changes nothing but spaces around the reason.
new_access_decision-eq-ok :
    (d e : PipelineAccessDecision)
    → new_access_decision d ≡ ok e
    → (e.allowed ≡ d.allowed) × (e.capability ≡ d.capability) × (e.policy ≡ d.policy)
unfolding new_access_decision
new_access_decision-eq-ok d e h =
    let (r, _, h₁) = >>=-eq-ok (required d.reason_code "PipelineAccessDecision.reason_code") _ h in
    let (_, h₂) = guard-eq-ok _ _ _ h₁ in
    let same = ok_injective h₂ in
    (
      sym (ap (λ (x : PipelineAccessDecision). x.allowed) same),
      sym (ap (λ (x : PipelineAccessDecision). x.capability) same),
      sym (ap (λ (x : PipelineAccessDecision). x.policy) same),
    )

module _ {W : Type 0} (repository : AccessPolicies W) (audit : SecurityEvent → Effect W (Unit {0}))
    (request_id capability_id : String) (authorization : AuthorizationContext)
    (requested : Bool) where
  -- How a granted request went, from the world `w` to the world `w'`.
  pub record IsGranted (d : PipelineAccessDecision) (w w' : W) : Type 0 where
    pub policy : ResolvedAccessPolicy
    pub w₁ : W
    pub resolved : repository.resolve authorization w ≡ (ok policy, w₁)
    pub capability : CapabilityDescriptor
    pub w₂ : W
    pub found : repository.capability capability_id policy w₁ ≡ (ok (some capability), w₂)
    pub listed : IsListed policy capability requested
    pub recorded :
        audit
          (access_event request_id capability_id authorization requested (some capability) policy)
          w₂
        ≡ (ok tt, w')
    pub returned : d.capability ≡ some capability

  -- The rest of a granted request, once the policy and the capability are known.
  decided-IsGranted :
      (o : Option CapabilityDescriptor) (policy : ResolvedAccessPolicy) (w w₁ w₂ w₃ w' : W)
      (made d : PipelineAccessDecision)
      → repository.resolve authorization w ≡ (ok policy, w₁)
      → repository.capability capability_id policy w₁ ≡ (ok o, w₂)
      → audit (access_event request_id capability_id authorization requested o policy) w₂
        ≡ (ok tt, w₃)
      → new_access_decision (
          access_decision
            (access_event request_id capability_id authorization requested o policy)
            o
            policy)
        ≡ ok made
      → made.allowed ≡ true
      → return made w₃ ≡ (ok d, w')
      → IsGranted d w w'
  unfolding access_decision access_event
  decided-IsGranted o policy w w₁ w₂ w₃ w' made d e₁ e₂ e₃ e₄ g h =
      let (same_allowed, same_capability, _) = new_access_decision-eq-ok _ made e₄ in
      let allowed : access_allowed o policy requested ≡ true = sym same_allowed ∙ g in
      let (c, named, listed) = access_allowed-IsListed o policy requested allowed in
      let same = ok_injective (ap (λ (t : Result PipelineAccessDecision × W). t.0) h) in
      let last = ap (λ (t : Result PipelineAccessDecision × W). t.1) h in
      let kept : (if access_allowed o policy requested then o else none) ≡ some c =
        rw allowed named in
      record {
        policy = policy;
        w₁ = w₁;
        resolved = e₁;
        capability = c;
        w₂ = w₂;
        found = subst (λ x. repository.capability capability_id policy w₁ ≡ (ok x, w₂)) named e₂;
        listed = listed;
        recorded =
            subst
              (λ x.
                audit (access_event request_id capability_id authorization requested x policy) w₂
                ≡ (ok tt, w'))
              named
              (subst
                (λ x.
                  audit (access_event request_id capability_id authorization requested o policy) w₂
                  ≡ (ok tt, x))
                last e₃);
        returned =
            sym (ap (λ (x : PipelineAccessDecision). x.capability) same) ∙ same_capability ∙ kept;
      }

  -- If a request is granted, then its capability and pipeline are among those of the policy that
  -- was resolved for the caller, diagnostics are available where they were asked for, and the last
  -- thing done was to record the decision.
  pub authorize-IsGranted :
      (d : PipelineAccessDecision) (w w' : W)
      → authorize repository audit request_id capability_id authorization requested w ≡ (ok d, w')
      → IsGranted d w w'
  unfolding authorize
  authorize-IsGranted d w w' h =
      let (policy, w₁, e₁, h₁) = bind-eq-ok (repository.resolve authorization) _ w h in
      let (o, w₂, e₂, h₂) = bind-eq-ok (repository.capability capability_id policy) _ w₁ h₁ in
      let event = access_event request_id capability_id authorization requested o policy in
      let (w₃, e₃, h₃) = seq-eq-ok (audit event) _ w₂ h₂ in
      let (made, e₄, h₄) =
        lift-bind-eq-ok (new_access_decision (access_decision event o policy)) _ w₃ h₃ in
      let (g, h₅) = require-eq-ok made.allowed _ (return made) h₄ in
      decided-IsGranted o policy w w₁ w₂ w₃ w' made d e₁ e₂ e₃ e₄ g h₅
