-- ===== src/Domain/Access.antt =====
-- Capabilities and access policies: sovereignflow/domain/models.py.
use sovereign_flow.Prelude.{
  ℕ, String, Bool, not, ◌&&◌, ◌||◌, List, [], ◌∷◌, Option, ◌==◌, leb, eqb, mem, all, is_none,
}
use sovereign_flow.Result.{Result, ok, validation, guard, ◌>>=◌, ◌>>◌}
use sovereign_flow.Text.Strip.{required}
use sovereign_flow.Text.Normal.{normalized_values}

pub record CapabilityDescriptor : Type 0 where
  pub capability_id : String
  pub display_name : String
  pub description : String
  pub domain : String
  pub pipeline_name : String
  pub diagnostics_available : Bool
  pub external_model : Bool
  pub policy_version : ℕ

unfoldable pub new_capability : CapabilityDescriptor → Result CapabilityDescriptor
new_capability c = do
  capability_id ← required c.capability_id "CapabilityDescriptor.capability_id"
  display_name ← required c.display_name "CapabilityDescriptor.display_name"
  domain ← required c.domain "CapabilityDescriptor.domain"
  pipeline_name ← required c.pipeline_name "CapabilityDescriptor.pipeline_name"
  guard (leb 1 c.policy_version) (validation "CapabilityDescriptor.policy_version must be positive")
  ok (record c {
    capability_id = capability_id;
    display_name = display_name;
    domain = domain;
    pipeline_name = pipeline_name;
  })

pub record ClaimGroupMapping : Type 0 where
  pub claim_name : String
  pub claim_value : String
  pub group_id : String

unfoldable pub new_claim_mapping : ClaimGroupMapping → Result ClaimGroupMapping
new_claim_mapping m = do
  guard (mem m.claim_name ("groups" ∷ "roles" ∷ []))
      (validation "ClaimGroupMapping.claim_name must be groups or roles")
  claim_value ← required m.claim_value "ClaimGroupMapping.claim_value"
  group_id ← required m.group_id "ClaimGroupMapping.group_id"
  ok (record m { claim_value = claim_value; group_id = group_id })

pub record GroupCapabilityGrant : Type 0 where
  pub group_id : String
  pub capability_id : String

unfoldable pub new_grant : GroupCapabilityGrant → Result GroupCapabilityGrant
new_grant g = do
  group_id ← required g.group_id "GroupCapabilityGrant.group_id"
  capability_id ← required g.capability_id "GroupCapabilityGrant.capability_id"
  ok (record { group_id = group_id; capability_id = capability_id })

-- `left == right` on mappings and on grants.
abbrev pub same_mapping : ClaimGroupMapping → ClaimGroupMapping → Bool
same_mapping m n =
    m.claim_name == n.claim_name && (m.claim_value == n.claim_value && m.group_id == n.group_id)

abbrev pub same_grant : GroupCapabilityGrant → GroupCapabilityGrant → Bool
same_grant g h = g.group_id == h.group_id && g.capability_id == h.capability_id

module _ {A : Type 0} (same : A → A → Bool) where
  abbrev pub occurs : A → List A → Bool
  occurs x [] = Bool.false
  occurs x (y ∷ ys) = same x y || occurs x ys

  -- `len(xs) == len(set(xs))`
  abbrev pub unique : List A → Bool
  unique [] = Bool.true
  unique (x ∷ xs) = not (occurs x xs) && unique xs

pub record AccessPolicyBundle : Type 0 where
  pub tenant_id : String
  pub version : ℕ
  pub group_ids : List String
  pub claim_mappings : List ClaimGroupMapping
  pub capabilities : List CapabilityDescriptor
  pub grants : List GroupCapabilityGrant

abbrev pub capability_ids : List CapabilityDescriptor → List String
capability_ids [] = []
capability_ids (c ∷ cs) = c.capability_id ∷ capability_ids cs

-- The loop on the grants: each is tested for its group, then for its capability.
unfoldable pub check_grants :
    List String → List String → List GroupCapabilityGrant → Result (Unit {0})
check_grants groups known [] = ok tt
check_grants groups known (grant ∷ grants) = do
  guard (mem grant.group_id groups) (validation "Capability grant references an unknown group")
  guard (mem grant.capability_id known)
      (validation "Capability grant references an unknown capability")
  check_grants groups known grants

unfoldable pub new_bundle : AccessPolicyBundle → Result AccessPolicyBundle
unfolding check_grants
new_bundle b = do
  tenant_id ← required b.tenant_id "AccessPolicyBundle.tenant_id"
  guard (leb 1 b.version) (validation "AccessPolicyBundle.version must be positive")
  group_ids ← normalized_values b.group_ids "AccessPolicyBundle.group_ids"
  guard (unique (λ c d. c == d) (capability_ids b.capabilities))
      (validation "AccessPolicyBundle capabilities must be unique")
  guard (all (λ c. eqb c.policy_version b.version) b.capabilities)
      (validation "AccessPolicyBundle capability policy_version must match bundle version")
  guard (all (λ m. mem m.group_id group_ids) b.claim_mappings)
      (validation "Claim mapping references an unknown group")
  check_grants group_ids (capability_ids b.capabilities) b.grants
  guard (unique same_mapping b.claim_mappings)
      (validation "AccessPolicyBundle claim mappings must be unique")
  guard (unique same_grant b.grants) (validation "AccessPolicyBundle grants must be unique")
  ok (record b { tenant_id = tenant_id; group_ids = group_ids })

pub record ResolvedAccessPolicy : Type 0 where
  pub subject : String
  pub tenant_id : String
  pub group_ids : List String
  pub capability_ids : List String
  pub pipeline_names : List String
  pub policy_version : ℕ

unfoldable pub new_resolved_policy : ResolvedAccessPolicy → Result ResolvedAccessPolicy
new_resolved_policy p = do
  subject ← required p.subject "ResolvedAccessPolicy.subject"
  tenant_id ← required p.tenant_id "ResolvedAccessPolicy.tenant_id"
  group_ids ← normalized_values p.group_ids "ResolvedAccessPolicy.group_ids"
  ids ← normalized_values p.capability_ids "ResolvedAccessPolicy.capability_ids"
  pipeline_names ← normalized_values p.pipeline_names "ResolvedAccessPolicy.pipeline_names"
  guard (leb 1 p.policy_version) (validation "ResolvedAccessPolicy.policy_version must be positive")
  ok (record p {
    subject = subject;
    tenant_id = tenant_id;
    group_ids = group_ids;
    capability_ids = ids;
    pipeline_names = pipeline_names;
  })

pub record PipelineAccessDecision : Type 0 where
  pub allowed : Bool
  pub reason_code : String
  pub capability : Option CapabilityDescriptor
  pub policy : ResolvedAccessPolicy

unfoldable pub new_access_decision : PipelineAccessDecision → Result PipelineAccessDecision
new_access_decision d = do
  reason_code ← required d.reason_code "PipelineAccessDecision.reason_code"
  guard (not (d.allowed && is_none d.capability))
      (validation "Allowed PipelineAccessDecision requires capability")
  ok (record d { reason_code = reason_code })
