-- ===== src/Domain/Server/Soundness.antt =====
-- A server that satisfies the requirement of a context may see every document of it.
use sovereign_flow.Prelude.{◌≡◌, true, List, [], ◌∷◌, Option, none, some, arith, All, All-map}
use sovereign_flow.Prelude.Int.{negsuc}
use sovereign_flow.Result.{ok, >>=-eq-ok}
use sovereign_flow.Domain.Security.{
  SecurityModelKind, none_kind, clearance_kind, labels_kind, SecurityModel, SubjectSecurity,
  SecurityDecision, required_model,
}
use sovereign_flow.Domain.Security.Visibility.{Visible, Visible-iff, Permits}
use sovereign_flow.Domain.Chunk.{SearchHit}
use sovereign_flow.Domain.Server.{
  ModelServerSecurityProfile, ModelServerDefinition, ContextSecurityRequirement, highest_clearance,
  required_labels, requirement_by_kind, context_security_requirement, satisfies_by_kind,
  model_server_satisfies_requirement,
}
use sovereign_flow.Domain.Server.ClearanceCover.{clearance_covers}
use sovereign_flow.Domain.Server.LabelCover.{labels_cover}

-- The subject that a server stands for: its profile read as a clearance.
abbrev pub profile_subject : ModelServerSecurityProfile → SubjectSecurity
profile_subject profile = record {
  clearance_label = profile.clearance_label;
  classification_labels = profile.classification_labels;
}

All-always :
    (P : SearchHit → Type 0) (hits : List SearchHit) → ((hit : SearchHit) → P hit) → All P hits
All-always P [] f = tt
All-always P (hit ∷ hits) f = (f hit, All-always P hits f)

required_model-eq-ok {ℓ} :
    {A : Type ℓ} (o : Option A) (a : A) → required_model o ≡ ok a → o ≡ some a
unfolding required_model
required_model-eq-ok none a h = cc
required_model-eq-ok (some b) a h = cc

covers_by_kind :
    (kind : SecurityModelKind) (model : SecurityModel) (profile : ModelServerSecurityProfile)
    (hits : List SearchHit) (requirement : ContextSecurityRequirement) (d : SecurityDecision)
    → requirement_by_kind kind model hits ≡ ok requirement
    → satisfies_by_kind kind model profile requirement ≡ ok d
    → d.allowed ≡ true
    → All (λ hit. Permits kind model hit.chunk.security (profile_subject profile)) hits
unfolding requirement_by_kind satisfies_by_kind
covers_by_kind none_kind model profile hits requirement d h s g = All-always _ hits (λ hit. tt)
covers_by_kind clearance_kind model profile hits requirement d h s g =
    let (c, ec, h') = >>=-eq-ok (required_model model.clearance_level) _ h in
    let named = required_model-eq-ok model.clearance_level c ec in
    let (result, er, h'') = >>=-eq-ok (highest_clearance c hits none (negsuc 0)) _ h' in
    All-map _ _ hits (λ hit k. (c, named, k))
      (clearance_covers c hits profile result requirement d er h'' (rw named at s) g)
covers_by_kind labels_kind model profile hits requirement d h s g =
    let (m, em, h') = >>=-eq-ok (required_model model.classification_labels) _ h in
    let named = required_model-eq-ok model.classification_labels m em in
    let (found, ef, h'') = >>=-eq-ok (required_labels m hits []) _ h' in
    All-map _ _ hits (λ hit k. (m, named, k))
      (labels_cover m hits profile found requirement d ef h'' (rw named at s) g)

same_kind-satisfies :
    (model : SecurityModel) (server : ModelServerDefinition)
    (requirement : ContextSecurityRequirement) (d : SecurityDecision)
    → model_server_satisfies_requirement model server requirement ≡ ok d
    → d.allowed ≡ true
    → satisfies_by_kind model.kind model server.security_profile requirement ≡ ok d
unfolding model_server_satisfies_requirement
same_kind-satisfies model server requirement d h g = ground arith

-- If a server satisfies the requirement computed from the hits of a context, then a subject with
-- the server's own profile may see the document of every hit.
pub context-Visible :
    (model : SecurityModel) (server : ModelServerDefinition) (hits : List SearchHit)
    (requirement : ContextSecurityRequirement) (d : SecurityDecision)
    → context_security_requirement model hits ≡ ok requirement
    → model_server_satisfies_requirement model server requirement ≡ ok d
    → d.allowed ≡ true
    → All (λ hit. Visible model hit.chunk.security (profile_subject server.security_profile)) hits
unfolding context_security_requirement
context-Visible model server hits requirement d h s g =
    All-map _ _ hits (λ hit k. (Visible-iff model hit.chunk.security _).1 k)
      (covers_by_kind model.kind model server.security_profile hits requirement d h
        (same_kind-satisfies model server requirement d s g) g)
