-- ===== src/Services/Payload.antt =====
-- `_payload_hash` of sovereignflow/application/ingestion.py: the text that stands for the content of
-- a command, and its hash.
use Prim.Native.Nat.{Ordering}
use sovereign_flow.Prelude.{String, Bool, List, [], ◌∷◌, Option, none, some, map, if◌then◌else◌}
use sovereign_flow.Result.{Result, ok, err, validation}
use sovereign_flow.Text.Order.{text_compare}
use sovereign_flow.Value.{Value, from_entries, from_list}
use sovereign_flow.Library.{Library}
use sovereign_flow.Domain.Security.{DocumentSecurity}
use sovereign_flow.Domain.Chunk.{DocumentChunk}
use sovereign_flow.Domain.Ingestion.{GraphRelationship, IngestionCommand}

-- `sorted(items, key=...)`: an item is put before the first one that it does not stand after.
module _ {A : Type 0} (after : A → A → Bool) where
  unfoldable pub insert_by : A → List A → List A
  insert_by x [] = x ∷ []
  insert_by x (y ∷ ys) = let rest = insert_by x ys in if after x y then y ∷ rest else x ∷ y ∷ ys

  unfoldable pub sorted_by : List A → List A
  unfolding insert_by
  sorted_by [] = []
  sorted_by (x ∷ xs) = insert_by x (sorted_by xs)

-- One key of a comparison of tuples: the next key decides where it is equal.
abbrev pub then_by : Ordering → Bool → Bool
then_by Ordering.lt next = Bool.false
then_by Ordering.eq next = next
then_by Ordering.gt next = Bool.true

unfoldable pub chunk_after : DocumentChunk → DocumentChunk → Bool
chunk_after c d = then_by (text_compare c.chunk_id d.chunk_id) Bool.false

unfoldable pub relationship_after : GraphRelationship → GraphRelationship → Bool
relationship_after r s = then_by (text_compare r.from_node.source_id s.from_node.source_id) (
    then_by (text_compare r.from_node.chunk_id s.from_node.chunk_id) (
      then_by (text_compare r.to_node.source_id s.to_node.source_id) (
        then_by (text_compare r.to_node.chunk_id s.to_node.chunk_id)
          (then_by (text_compare r.relationship_type s.relationship_type) Bool.false))))

abbrev pub text_or_null : Option String → Value
text_or_null none = Value.null
text_or_null (some text) = Value.str text

abbrev pub texts : List String → Value
texts labels = Value.sequence (from_list (map Value.str labels))

abbrev pub dictionary : List (String × Value) → Value
dictionary items = Value.mapping (from_entries items)

unfoldable pub security_payload : DocumentSecurity → Value
security_payload security = dictionary (
    ("clearance_label", text_or_null security.clearance_label)
    ∷ ("classification_labels", texts security.classification_labels)
    ∷ [])

unfoldable pub chunk_payload : DocumentChunk → Value
unfolding security_payload
chunk_payload chunk = dictionary (
    ("chunk_id", Value.str chunk.chunk_id)
    ∷ ("text", Value.str chunk.text)
    ∷ ("source_uri", text_or_null chunk.source_uri)
    ∷ ("metadata", dictionary chunk.metadata)
    ∷ ("acl_labels", texts chunk.acl_labels)
    ∷ ("security", security_payload chunk.security)
    ∷ [])

unfoldable pub relationship_payload : GraphRelationship → Value
relationship_payload r = dictionary (
    ("from_source_id", Value.str r.from_node.source_id)
    ∷ ("from_chunk_id", Value.str r.from_node.chunk_id)
    ∷ ("to_source_id", Value.str r.to_node.source_id)
    ∷ ("to_chunk_id", Value.str r.to_node.chunk_id)
    ∷ ("relationship_type", Value.str r.relationship_type)
    ∷ ("metadata", dictionary r.metadata)
    ∷ [])

unfoldable pub payload : IngestionCommand → Value
unfolding chunk_payload relationship_payload sorted_by chunk_after relationship_after
payload c = dictionary (
    ("domain", Value.str c.domain)
    ∷ ("tenant_id", Value.str c.tenant_id)
    ∷ ("source_id", Value.str c.source_id)
    ∷ ("source_version", Value.str c.source_version)
    ∷ ("source_uri", text_or_null c.source_uri)
    ∷ ("metadata", dictionary c.metadata)
    ∷ ("chunks", Value.sequence (from_list (map chunk_payload (sorted_by chunk_after c.chunks))))
    ∷ (
      "relationships",
      Value.sequence
          (from_list (map relationship_payload (sorted_by relationship_after c.relationships))),
    )
    ∷ [])

unfoldable pub hashed : Library → Option String → Result String
hashed lib none = err (validation "Ingestion metadata must be valid JSON")
hashed lib (some canonical) = ok (lib.sha256 canonical)

-- `_payload_hash`
unfoldable pub payload_hash : Library → IngestionCommand → Result String
unfolding payload hashed
payload_hash lib command = hashed lib (lib.json_canonical (payload command))
