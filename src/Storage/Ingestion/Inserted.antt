-- ===== src/Storage/Ingestion/Inserted.antt =====
-- The INSERTs of a version keep what is said of the jobs and the sources alone.
use sovereign_flow.Prelude.{
  ℕ, suc, String, ◌≡◌, refl, Bool, not, ◌||◌, List, [], ◌∷◌, ◌++◌, Option, none, some, ◌==◌,
}
use sovereign_flow.Domain.Ingestion.{IngestionCommand, GraphRelationship}
use sovereign_flow.Domain.Chunk.{DocumentChunk}
use sovereign_flow.Storage.Tables.{VersionRow, Postgres, Tables, target_exists}
use sovereign_flow.Storage.Ingestion.{
  insert_chunks, chunk_row, relationship_row, version_row, insert_relationship,
  insert_relationships, insert_version, insert_unless_stored, change, conflict,
}
use sovereign_flow.Effect.Keeps.{
  Keeps, >>=-Keeps, >>-Keeps, require-Keeps, lift-Keeps, return-Keeps,
}
use sovereign_flow.Storage.Ingestion.Keeps.{change-Keeps, select-Keeps, On}

module _ (I : Tables → Type 0) where
  -- The predicate does not look at the other tables.
  abbrev pub IsAside : Type 0
  IsAside =
      (f : Tables → Tables)
      → ((t : Tables) → (f t).jobs ≡ t.jobs)
      → ((t : Tables) → (f t).sources ≡ t.sources)
      → (t : Tables) → I t
      → I (f t)

module _ (I : Tables → Type 0) (closed : IsAside I) where
  pub aside :
      (f : Tables → Tables)
      → ((t : Tables) → (f t).jobs ≡ t.jobs)
      → ((t : Tables) → (f t).sources ≡ t.sources)
      → Keeps (On I) (change f)
  aside f j s = change-Keeps I f (closed f j s)

  insert_chunks-Keeps :
      (db : Postgres) (command : IngestionCommand) (chunks : List DocumentChunk) (position : ℕ)
      → Keeps (On I) (insert_chunks db command chunks position)
  unfolding insert_chunks
  insert_chunks-Keeps db command [] position = return-Keeps (On I) tt
  insert_chunks-Keeps db command (chunk ∷ chunks) position =
      >>=-Keeps (On I) _ _ (lift-Keeps (On I) (db.jsonb chunk.metadata)) (λ metadata.
        >>-Keeps (On I) _ _
          (aside
            (λ t. record t { chunks = t.chunks ++ chunk_row command chunk position metadata ∷ [] })
            (λ t. refl) (λ t. refl))
          (insert_chunks-Keeps db command chunks (suc position)))

  insert_relationship-Keeps :
      (db : Postgres) (command : IngestionCommand) (r : GraphRelationship)
      → Keeps (On I) (insert_relationship db command r)
  unfolding insert_relationship
  insert_relationship-Keeps db command r =
      >>=-Keeps (On I) _ _ (lift-Keeps (On I) (db.jsonb r.metadata)) (λ metadata.
        aside
          (λ t. record t {
            relationships = t.relationships ++ relationship_row command r metadata ∷ [];
          })
          (λ t. refl) (λ t. refl))

  pub insert_relationships-Keeps :
      (db : Postgres) (external : GraphRelationship → Bool) (command : IngestionCommand)
      (rs : List GraphRelationship)
      → Keeps (On I) (insert_relationships db external command rs)
  unfolding insert_relationships
  insert_relationships-Keeps db external command [] = return-Keeps (On I) tt
  insert_relationships-Keeps db external command (r ∷ rs) =
      >>=-Keeps (On I) _ _ (select-Keeps I (λ t. target_exists t command r)) (λ known.
        >>-Keeps (On I) _ _
          (require-Keeps (On I) (not (external r) || known)
            (conflict "Relationship target does not exist in the current graph"))
          (>>-Keeps (On I) _ _ (insert_relationship-Keeps db command r)
            (insert_relationships-Keeps db external command rs)))

  insert_version-Keeps :
      (db : Postgres) (command : IngestionCommand) (payload_hash : String)
      → Keeps (On I) (insert_version db command payload_hash)
  unfolding insert_version
  insert_version-Keeps db command payload_hash =
      >>=-Keeps (On I) _ _ (lift-Keeps (On I) (db.jsonb command.metadata)) (λ metadata.
        >>-Keeps (On I) _ _
          (aside
            (λ t. record t {
              source_versions = t.source_versions ++ version_row command payload_hash metadata ∷ [];
            })
            (λ t. refl) (λ t. refl))
          (>>-Keeps (On I) _ _ (insert_chunks-Keeps db command command.chunks 0) (
            insert_relationships-Keeps db (λ r. not (r.to_node.source_id == command.source_id))
              command command.relationships)))

  pub insert_unless_stored-Keeps :
      (db : Postgres) (version : Option VersionRow) (command : IngestionCommand)
      (payload_hash : String)
      → Keeps (On I) (insert_unless_stored db version command payload_hash)
  unfolding insert_unless_stored
  insert_unless_stored-Keeps db none command payload_hash =
      insert_version-Keeps db command payload_hash
  insert_unless_stored-Keeps db (some version) command payload_hash = return-Keeps (On I) tt
