-- ===== src/Services/Query/Admitted.antt =====
-- Which commands the query service runs, and under which authorization.
use mathlib.Core.Path.{subst}
use sovereign_flow.Prelude.{
  String, ◌≡◌, refl, sym, ap, ◌∙◌, true, false, not, ◌&&◌, List, [], ◌∷◌, arith, mem, map, mem-keep,
  keys, subset, intersection, difference, is_empty, All-keep, subset_of_difference_nil, eq_iff,
  ◌==◌,
}
use sovereign_flow.Result.{ok, guard-eq-ok, >>=-eq-ok, ok_injective}
use sovereign_flow.Text.Strip.{strip, required, required-eq-ok}
use sovereign_flow.Text.Order.{sorted_set, mem-sorted_set, All-sorted_set, sorted_set-IsIncreasing}
use sovereign_flow.Text.Normal.{
  IsNormalized, IsLabel, normalized_values, normalized_values_of_IsNormalized,
  mem-normalized_values,
}
use sovereign_flow.Domain.Security.{required_option}
use sovereign_flow.Domain.Chunk.{AuthorizationContext, new_authorization_context}
use sovereign_flow.Domain.Profile.{DomainProfile, QueryCommand, new_query_command}
use sovereign_flow.Pipeline.Context.{PipelineContext}
use sovereign_flow.Services.Query.{
  QueryService, effective_authorization, admit, initial_model, prepare, new_context,
}

-- The authorization `b` that the pipeline runs under, against that of the caller: the same subject,
-- tenant, roles and groups, stripped, and no label, access or diagnostics that the caller lacks.
pub record IsNarrowed (domain : DomainProfile) (a b : AuthorizationContext) : Type 0 where
  pub same_tenant : a.tenant_id ≡ domain.tenant_id
  pub subject : b.subject ≡ strip a.subject
  pub tenant : b.tenant_id ≡ strip a.tenant_id
  pub roles : (x : String) → mem x b.roles ≡ mem x (map strip a.roles)
  pub groups : (x : String) → mem x b.groups ≡ mem x (map strip a.groups)
  pub labels :
      (x : String) → mem x b.acl_labels ≡ (mem x a.acl_labels && mem x domain.allowed_acl_labels)
  pub external : b.allow_external_model ≡ (a.allow_external_model && domain.allow_external_model)
  pub security : b.security ≡ a.security
  pub diagnostics : b.diagnostic_access ≡ a.diagnostic_access

-- What the constructor of an authorization context keeps.
record IsKept (a b : AuthorizationContext) : Type 0 where
  subject : b.subject ≡ strip a.subject
  tenant : b.tenant_id ≡ strip a.tenant_id
  roles : normalized_values a.roles "AuthorizationContext.roles" ≡ ok b.roles
  groups : normalized_values a.groups "AuthorizationContext.groups" ≡ ok b.groups
  labels : normalized_values a.acl_labels "AuthorizationContext.acl_labels" ≡ ok b.acl_labels
  external : b.allow_external_model ≡ a.allow_external_model
  security : b.security ≡ a.security
  diagnostics : b.diagnostic_access ≡ a.diagnostic_access

new_authorization_context-IsKept :
    (a b : AuthorizationContext) → new_authorization_context a ≡ ok b → IsKept a b
unfolding new_authorization_context
new_authorization_context-IsKept a b h =
    let (subject, es, h₁) = >>=-eq-ok (required a.subject _) _ h in
    let (tenant, et, h₂) = >>=-eq-ok (required a.tenant_id _) _ h₁ in
    let (roles, er, h₃) = >>=-eq-ok (normalized_values a.roles _) _ h₂ in
    let (groups, eg, h₄) = >>=-eq-ok (normalized_values a.groups _) _ h₃ in
    let (labels, e, h₅) = >>=-eq-ok (normalized_values a.acl_labels _) _ h₄ in
    let same = ok_injective h₅ in
    record {
      subject =
          sym (ap (λ (x : AuthorizationContext). x.subject) same)
          ∙ (required-eq-ok a.subject _ subject es).0;
      tenant =
          sym (ap (λ (x : AuthorizationContext). x.tenant_id) same)
          ∙ (required-eq-ok a.tenant_id _ tenant et).0;
      roles = er ∙ ap (λ (x : AuthorizationContext). ok x.roles) same;
      groups = eg ∙ ap (λ (x : AuthorizationContext). ok x.groups) same;
      labels = e ∙ ap (λ (x : AuthorizationContext). ok x.acl_labels) same;
      external = sym (ap (λ (x : AuthorizationContext). x.allow_external_model) same);
      security = sym (ap (λ (x : AuthorizationContext). x.security) same);
      diagnostics = sym (ap (λ (x : AuthorizationContext). x.diagnostic_access) same);
    }

narrowed_labels :
    (xs ys result : List String) (field_name : String)
    → IsNormalized xs
    → normalized_values (sorted_set (intersection xs ys)) field_name ≡ ok result
    → (x : String) → mem x result ≡ (mem x xs && mem x ys)
narrowed_labels xs ys result field_name n h x =
    let common = intersection xs ys in
    let stored : IsNormalized (sorted_set common) = (
      sorted_set-IsIncreasing common,
      All-sorted_set IsLabel common (All-keep IsLabel (λ y. mem y ys) xs n.1),
    ) in
    let same =
      ok_injective
        (sym h ∙ normalized_values_of_IsNormalized (sorted_set common) field_name stored) in
    ap (mem x) same ∙ mem-sorted_set x common ∙ mem-keep (λ y. mem y ys) x xs

pub effective_authorization-IsNarrowed :
    (domain : DomainProfile) (a b : AuthorizationContext)
    → IsNormalized a.acl_labels
    → effective_authorization domain a ≡ ok b
    → IsNarrowed domain a b
unfolding effective_authorization
effective_authorization-IsNarrowed domain a b n h =
    let (tenant, h₁) = guard-eq-ok (a.tenant_id == domain.tenant_id) _ _ h in
    let k = new_authorization_context-IsKept _ b h₁ in
    record {
      same_tenant = (eq_iff a.tenant_id domain.tenant_id).0 tenant;
      subject = k.subject;
      tenant = k.tenant;
      roles = λ x. mem-normalized_values x a.roles _ b.roles k.roles;
      groups = λ x. mem-normalized_values x a.groups _ b.groups k.groups;
      labels = narrowed_labels a.acl_labels domain.allowed_acl_labels b.acl_labels _ n k.labels;
      external = k.external;
      security = k.security;
      diagnostics = k.diagnostics;
    }

-- The command is for this domain, asks for no other filter than the allowed ones, and for
-- diagnostics only where the caller has them; `b` is the caller's authorization, narrowed.
pub record IsAdmitted (domain : DomainProfile) (command : QueryCommand) (b : AuthorizationContext)
    : Type 0 where
  pub same_domain : command.domain ≡ domain.name
  pub narrowed : IsNarrowed domain command.authorization b
  pub filters : subset (keys command.filters) domain.retrieval.allowed_filter_fields ≡ true
  pub diagnostics : command.diagnostics_requested ≡ true → b.diagnostic_access ≡ true

nil_of_is_empty : (xs : List String) → is_empty xs ≡ true → xs ≡ []
nil_of_is_empty [] h = refl
nil_of_is_empty (x ∷ xs) h = cc

-- The checks pass only an admitted command: one for the domain, with allowed filters and permitted
-- diagnostics. The authorization that they give has the caller's subject, tenant, roles and groups,
-- stripped, the ACL labels common to the caller and the domain, an external model only where both
-- allow it, and the caller's security and diagnostic access. The caller's ACL labels are normalized.
pub admit-IsAdmitted :
    (domain : DomainProfile) (command : QueryCommand) (b : AuthorizationContext)
    → IsNormalized command.authorization.acl_labels
    → admit domain command ≡ ok b
    → IsAdmitted domain command b
unfolding admit
admit-IsAdmitted domain command b n h =
    let (here, h₁) = guard-eq-ok (command.domain == domain.name) _ _ h in
    let (a, e, h₂) = >>=-eq-ok (effective_authorization domain command.authorization) _ h₁ in
    let (allowed, h₃) =
      guard-eq-ok
        (is_empty (difference (keys command.filters) domain.retrieval.allowed_filter_fields)) _ _
        h₂ in
    let (asked, h₄) =
      guard-eq-ok (not (command.diagnostics_requested && not a.diagnostic_access)) _ _ h₃ in
    let same = ok_injective h₄ in
    record {
      same_domain = (eq_iff command.domain domain.name).0 here;
      narrowed =
          subst (IsNarrowed domain command.authorization) same
            (effective_authorization-IsNarrowed domain command.authorization a n e);
      filters =
          subset_of_difference_nil (keys command.filters) domain.retrieval.allowed_filter_fields
            (nil_of_is_empty _ allowed);
      diagnostics =
          λ d. subst (λ (x : AuthorizationContext). x.diagnostic_access ≡ true) same (ground arith);
    }

-- The constructor of a command leaves its authorization as it is.
new_query_command-authorization :
    (c d : QueryCommand) → new_query_command c ≡ ok d → d.authorization ≡ c.authorization
unfolding new_query_command
new_query_command-authorization c d h =
    let (r, _, h₁) = >>=-eq-ok (required c.request_id _) _ h in
    let (q, _, h₂) = >>=-eq-ok (required c.query _) _ h₁ in
    let (n, _, h₃) = >>=-eq-ok (required c.domain _) _ h₂ in
    let (s, _, h₄) = >>=-eq-ok (required c.session_id _) _ h₃ in
    let (i, _, h₅) = >>=-eq-ok (required_option c.conversation_id _) _ h₄ in
    sym (ap (λ (x : QueryCommand). x.authorization) (ok_injective h₅))

module _ {W : Type 0} where
  -- The context that a command is run on.
  pub record IsPrepared (service : QueryService W) (command : QueryCommand)
      (context : PipelineContext W) : Type 0 where
    pub admitted : IsAdmitted service.domain command context.command.authorization
    pub same_domain : context.domain ≡ service.domain
    pub no_hits : context.hits ≡ []
    pub unchecked : context.model_transmission_checked ≡ false

  pub prepare-IsPrepared :
      (service : QueryService W) (command : QueryCommand) (context : PipelineContext W)
      → IsNormalized command.authorization.acl_labels
      → prepare service command ≡ ok context
      → IsPrepared service command context
  unfolding prepare new_context
  prepare-IsPrepared service command context n h =
      let (a, e, h₁) = >>=-eq-ok (admit service.domain command) _ h in
      let (model, _, h₂) = >>=-eq-ok (initial_model service.model_servers) _ h₁ in
      let (narrowed, k, h₃) = >>=-eq-ok (new_query_command _) _ h₂ in
      let same = ok_injective h₃ in
      subst (IsPrepared service command) same (record {
        admitted =
            subst (IsAdmitted service.domain command)
              (sym
                (new_query_command-authorization (record command { authorization = a }) narrowed k))
              (admit-IsAdmitted service.domain command a n e);
        same_domain = refl;
        no_hits = refl;
        unchecked = refl;
      })
