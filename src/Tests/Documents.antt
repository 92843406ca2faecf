-- ===== src/Tests/Documents.antt =====
-- The theorems on documents and servers, at concrete inputs.
use sovereign_flow.Prelude.{
  String, ◌≡◌, refl, true, [], some, none, All, ◌↔◌, List, keys, ℕ, ◌∷◌, mem, lookup, ◌≤◌,
}
use sovereign_flow.Prelude.Int.{pos}
use sovereign_flow.Value.{Value}
use sovereign_flow.Text.Normal.{IsLabel}
use sovereign_flow.Pipeline.Registry.{distinct}
use sovereign_flow.Result.{ok}
use sovereign_flow.Text.Strip.{strip, required}
use sovereign_flow.Domain.Security.{
  clearance_kind, document_visible_to_subject, visible_by_kind, clearance_decision, clearance_value,
  level_at, required_model, required_option, SecurityDecision, allowed_document_labels,
  labels_up_to, new_clearance_level_model, normalized_levels, level_of,
}
use sovereign_flow.Domain.Security.Visibility.{Visible, Visible-iff, Permits}
use sovereign_flow.Domain.Server.{
  ContextSecurityRequirement, new_context_security_requirement, highest_clearance,
  requirement_by_kind, context_security_requirement, server_clearance_decision, satisfies_by_kind,
  model_server_satisfies_requirement, present_label,
}
use sovereign_flow.Domain.Server.Soundness.{context-Visible}
use sovereign_flow.Pipeline.Actions.Boundary.{
  verify_chunk, verify_retrieval_boundary, IsReadable, verify-IsReadable, IsReadable-verify,
}
use sovereign_flow.Text.Order.{sorted_set, set_insert}
use sovereign_flow.Domain.Security.Levels.{new_clearance_level_model-distinct}
use sovereign_flow.Domain.Security.Accepted.{HasLevel}
use sovereign_flow.Domain.Security.Allowed.{allowed_document_labels_iff}
use sovereign_flow.Tests.Data.{clearance, security, labelled, cleared, hits, caller, domain, server}

Visible-iff_example :
    Visible security (labelled "public") (cleared "secret")
    ↔ Permits clearance_kind security (labelled "public") (cleared "secret")
Visible-iff_example = Visible-iff security (labelled "public") (cleared "secret")

abbrev secret_requirement : ContextSecurityRequirement
secret_requirement = record {
  security_model_kind = clearance_kind;
  clearance_label = some "secret";
  classification_labels = [];
}

abbrev allowed_decision : SecurityDecision
allowed_decision = record { allowed = true; reason_code = "clearance_allowed" }

hits_requirement : context_security_requirement security hits ≡ ok secret_requirement
unfolding context_security_requirement requirement_by_kind highest_clearance present_label
    required_model new_context_security_requirement required_option required strip clearance_value
    level_at
hits_requirement = refl

closed_satisfies :
    model_server_satisfies_requirement security (server "closed" "secret" none) secret_requirement
    ≡ ok (record { allowed = true; reason_code = "model_server_allowed" })
unfolding model_server_satisfies_requirement satisfies_by_kind server_clearance_decision
    required_model clearance_value level_at required strip
closed_satisfies = refl

context-Visible_example : All (λ hit. Visible security hit.chunk.security (cleared "secret")) hits
context-Visible_example =
    context-Visible security (server "closed" "secret" none) hits secret_requirement _
      hits_requirement closed_satisfies refl

hits_pass : verify_retrieval_boundary domain caller hits ≡ ok tt
unfolding verify_retrieval_boundary verify_chunk document_visible_to_subject visible_by_kind
    clearance_decision clearance_value level_at required strip
hits_pass = refl

verify-IsReadable_example : All (λ hit. IsReadable domain caller hit.chunk) hits
verify-IsReadable_example = verify-IsReadable domain caller hits hits_pass

IsReadable-verify_example : verify_retrieval_boundary domain caller hits ≡ ok tt
IsReadable-verify_example =
    IsReadable-verify domain caller hits (verify-IsReadable domain caller hits hits_pass)

secret_allowed : allowed_document_labels clearance "secret" ≡ ok ("public" ∷ "secret" ∷ [])
unfolding allowed_document_labels labels_up_to clearance_value level_at required strip sorted_set
    set_insert
secret_allowed = refl

allowed_document_labels_iff_example :
    (n : ℕ) × HasLevel clearance "secret" n
    × ((x : String)
        → (mem x ("public" ∷ "secret" ∷ []) ≡ true)
          ↔ ((m : ℕ) × (lookup x clearance.levels ≡ some m) × (m ≤ n)))
allowed_document_labels_iff_example =
    allowed_document_labels_iff clearance "secret" ("public" ∷ "secret" ∷ []) refl secret_allowed

abbrev raw_levels : List (String × Value)
raw_levels = (" public", Value.int (pos 0)) ∷ ("secret ", Value.int (pos 5)) ∷ []

clearance_made : new_clearance_level_model raw_levels ≡ ok clearance
unfolding new_clearance_level_model normalized_levels level_of required strip
clearance_made = refl

new_clearance_level_model-distinct_example :
    (distinct (keys clearance.levels) ≡ true) × All IsLabel (keys clearance.levels)
new_clearance_level_model-distinct_example =
    new_clearance_level_model-distinct raw_levels clearance clearance_made
