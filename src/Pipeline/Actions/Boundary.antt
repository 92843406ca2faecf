-- ===== src/Pipeline/Actions/Boundary.antt =====
-- `_verify_retrieval_boundary` of sovereignflow/application/actions/_retrieval.py: what a provider
-- returned is checked again.
use sovereign_flow.Prelude.{
  String, ◌≡◌, refl, Bool, true, not, ◌&&◌, ◌||◌, List, [], ◌∷◌, ◌==◌, eq_iff, is_empty,
  intersection, All, arith,
}
use sovereign_flow.Result.{
  Result, ok, policy_violated, guard, ◌>>=◌, ◌>>◌, >>=-eq-ok, guard-eq-ok, guard-true,
}
use sovereign_flow.Domain.Security.{document_visible_to_subject}
use sovereign_flow.Domain.Security.Visibility.{Visible}
use sovereign_flow.Domain.Chunk.{DocumentChunk, SearchHit, AuthorizationContext}
use sovereign_flow.Domain.Profile.{DomainProfile}

-- `not chunk.acl_labels or set(chunk.acl_labels) & allowed_labels`
abbrev pub acl_open : List String → List String → Bool
acl_open labels allowed_labels =
    is_empty labels || not (is_empty (intersection labels allowed_labels))

-- One turn of the loop.
unfoldable pub verify_chunk :
    DomainProfile → AuthorizationContext → DocumentChunk → Result (Unit {0})
verify_chunk domain authorization chunk = do
  guard (chunk.domain == domain.name && chunk.tenant_id == authorization.tenant_id)
      (policy_violated "Retrieval provider crossed a domain or tenant boundary")
  guard (acl_open chunk.acl_labels authorization.acl_labels)
      (policy_violated "Retrieval provider returned a forbidden ACL label")
  decision ← document_visible_to_subject domain.security_model chunk.security authorization.security
  guard decision.allowed (policy_violated "Retrieval provider returned forbidden security metadata")

unfoldable pub verify_retrieval_boundary :
    DomainProfile → AuthorizationContext → List SearchHit → Result (Unit {0})
unfolding verify_chunk
verify_retrieval_boundary domain authorization [] = ok tt
verify_retrieval_boundary domain authorization (hit ∷ hits) = do
  verify_chunk domain authorization hit.chunk
  verify_retrieval_boundary domain authorization hits

-- The chunk is the caller's to read: of the domain and the tenant, open by its ACL labels, and
-- visible under the domain's security model.
pub record IsReadable (domain : DomainProfile) (authorization : AuthorizationContext)
    (chunk : DocumentChunk) : Type 0 where
  pub same_domain : chunk.domain ≡ domain.name
  pub same_tenant : chunk.tenant_id ≡ authorization.tenant_id
  pub acl : acl_open chunk.acl_labels authorization.acl_labels ≡ true
  pub visible : Visible domain.security_model chunk.security authorization.security

verify_chunk-IsReadable :
    (domain : DomainProfile) (authorization : AuthorizationContext) (chunk : DocumentChunk)
    → verify_chunk domain authorization chunk ≡ ok tt
    → IsReadable domain authorization chunk
unfolding verify_chunk
verify_chunk-IsReadable domain authorization chunk h =
    let (same, h₁) =
      guard-eq-ok (chunk.domain == domain.name && chunk.tenant_id == authorization.tenant_id) _ _
        h in
    let (acl, h₂) = guard-eq-ok (acl_open chunk.acl_labels authorization.acl_labels) _ _ h₁ in
    let (decision, decided, h₃) =
      >>=-eq-ok
        (document_visible_to_subject domain.security_model chunk.security authorization.security) _
        h₂ in
    record {
      same_domain = (eq_iff chunk.domain domain.name).0 (ground arith);
      same_tenant = (eq_iff chunk.tenant_id authorization.tenant_id).0 (ground arith);
      acl = acl;
      visible = record {
        decision = decision;
        decided = decided;
        granted = guard-true decision.allowed _ h₃;
      };
    }

IsReadable-verify_chunk :
    (domain : DomainProfile) (authorization : AuthorizationContext) (chunk : DocumentChunk)
    → IsReadable domain authorization chunk
    → verify_chunk domain authorization chunk ≡ ok tt
unfolding verify_chunk
IsReadable-verify_chunk domain authorization chunk r =
    rw ((eq_iff chunk.domain domain.name).1 r.same_domain) (
      rw ((eq_iff chunk.tenant_id authorization.tenant_id).1 r.same_tenant)
        (rw (r.acl) (rw (r.visible.decided) (rw (r.visible.granted)))))

-- The check passes only hits that the caller may read.
pub verify-IsReadable :
    (domain : DomainProfile) (authorization : AuthorizationContext) (hits : List SearchHit)
    → verify_retrieval_boundary domain authorization hits ≡ ok tt
    → All (λ hit. IsReadable domain authorization hit.chunk) hits
unfolding verify_retrieval_boundary
verify-IsReadable domain authorization [] h = tt
verify-IsReadable domain authorization (hit ∷ hits) h =
    let (_, first, rest) = >>=-eq-ok (verify_chunk domain authorization hit.chunk) _ h in
    (
      verify_chunk-IsReadable domain authorization hit.chunk first,
      verify-IsReadable domain authorization hits rest,
    )

-- The check passes all of them.
pub IsReadable-verify :
    (domain : DomainProfile) (authorization : AuthorizationContext) (hits : List SearchHit)
    → All (λ hit. IsReadable domain authorization hit.chunk) hits
    → verify_retrieval_boundary domain authorization hits ≡ ok tt
unfolding verify_retrieval_boundary
IsReadable-verify domain authorization [] h = refl
IsReadable-verify domain authorization (hit ∷ hits) h =
    rw (IsReadable-verify_chunk domain authorization hit.chunk h.0)
      (IsReadable-verify domain authorization hits h.1)
