-- ===== src/Storage/Ingestion/Repeated.antt =====
-- A command that is staged again, under its idempotency key and with the same content.
use mathlib.Core.Path.{subst}
use sovereign_flow.Prelude.{
  String, ◌≡◌, refl, sym, ap, ◌∙◌, Bool, true, not, List, [], ◌∷◌, ◌++◌, Option, none, some, ◌==◌,
  eq_refl, arith, Bool-cases, inl, inr,
}
use sovereign_flow.Result.{Error, Result, ok, err, ok_injective}
use sovereign_flow.Effect.{
  Effect, lift, ◌>>=◌, ◌>>◌, caught, modify, throw, bind-eq-ok, seq-eq-ok, require-eq-ok,
}
use sovereign_flow.Effect.Keeps.{
  Keeps, >>=-Keeps, >>=-Keeps_when, >>-Keeps, require-Keeps, lift-Keeps, return-Keeps,
}
use sovereign_flow.Domain.Ingestion.{IngestionCommand, IngestionJob}
use sovereign_flow.Storage.Tables.{
  JobRow, Tables, Postgres, first_row, any_row, has_id, of_idempotency_key, find_version,
  source_key, staged_job,
}
use sovereign_flow.Storage.Ingestion.{
  Store, transaction, passed_on, change, select, conflict, insert_unless_stored, same_content,
  insert_job, stage_new, stage_rows, Staged, staged_result, stage, load_with_cursor,
  is_conflict_or_ingestion,
}
use sovereign_flow.Storage.Ingestion.Keeps.{transaction-Keeps, select-Keeps, On}
use sovereign_flow.Storage.Ingestion.Inserted.{insert_unless_stored-Keeps}

transaction-eq-ok :
    {A : Type 0} (known : Error → Bool) (message : String) (m : Effect Store A) (s s' : Store)
    (a : A)
    → transaction known message m s ≡ (ok a, s')
    → m s ≡ (ok a, s')
unfolding transaction
transaction-eq-ok {A} known message m s s' a h = go (m s).0 (m s).1 refl h
  where
    go :
        (r : Result A) (t : Store)
        → m s ≡ (r, t)
        → caught
            (λ e. modify (λ u. record u { tables = s.tables }) >> throw (passed_on known message e))
            r
            t
          ≡ (ok a, s')
        → m s ≡ (ok a, s')
    go (ok b) t e k = e ∙ k
    go (err x) t e k = absurd (cc (ap (λ (z : Result A × Store). z.0) k))

insert_job-eq-ok :
    (row : JobRow) (s s' : Store)
    → insert_job row s ≡ (ok tt, s')
    → s'.tables.jobs ≡ s.tables.jobs ++ row ∷ []
unfolding insert_job
insert_job-eq-ok row s s' h =
    let (_, k) =
      require-eq-ok (not (any_row (has_id row.job_id) s.tables.jobs)) _
        (change (λ t. record t { jobs = t.jobs ++ row ∷ [] })) h in
    sym (ap (λ (z : Result (Unit {0}) × Store). z.1.tables.jobs) k)

stage_new-eq-ok :
    (db : Postgres) (c : IngestionCommand) (payload_hash id : String) (s s' : Store)
    → stage_new db c payload_hash s ≡ (ok id, s')
    → (job_id : String) × (s'.tables.jobs ≡ s.tables.jobs ++ staged_job job_id c payload_hash ∷ [])
unfolding stage_new
stage_new-eq-ok db c payload_hash id s s' h =
    let version = find_version (source_key c) c.source_version s.tables.source_versions in
    let (_, h₁) = require-eq-ok (same_content version payload_hash) _ _ h in
    let job_id = db.job_id_factory s.issued in
    let (s₂, e₂, h₂) = seq-eq-ok (insert_unless_stored db version c payload_hash) _ _ h₁ in
    let (s₃, e₃, h₃) = seq-eq-ok (insert_job (staged_job job_id c payload_hash)) _ s₂ h₂ in
    let kept =
      (insert_unless_stored-Keeps (λ t. t.jobs ≡ s.tables.jobs) (λ f j k t e. j t ∙ e) db version c
          payload_hash).after
        _ refl in
    let same : s₂.tables.jobs ≡ s.tables.jobs =
      sym (ap (λ (z : Result (Unit {0}) × Store). z.1.tables.jobs) e₂) ∙ kept in
    let last : s₃ ≡ s' = ap (λ (z : Result String × Store). z.1) h₃ in
    (
      job_id,
      sym (ap (λ (z : Store). z.tables.jobs) last)
          ∙ insert_job-eq-ok (staged_job job_id c payload_hash) s₂ s₃ e₃
          ∙ ap (λ rows. rows ++ staged_job job_id c payload_hash ∷ []) same,
    )

first_row-append :
    {A : Type 0} (p : A → Bool) (xs : List A) (x : A)
    → first_row p xs ≡ none
    → p x ≡ true
    → first_row p (xs ++ x ∷ []) ≡ some x
first_row-append p [] x h e = rw e refl
first_row-append p (y ∷ xs) x h e = elim (Bool-cases (p y)) [
  | inl holds ↦ absurd (ground arith)
  | inr fails ↦ rw fails (first_row-append p xs x (rw fails at h) e)
]

-- The row of the idempotency key has the content of the command.
abbrev IsStaged : IngestionCommand → String → List JobRow → Type 0
IsStaged c payload_hash rows =
    (row : JobRow) × (first_row (of_idempotency_key c) rows ≡ some row)
    × (row.payload_hash == payload_hash ≡ true)

stage_rows-IsStaged :
    (db : Postgres) (row : Option JobRow) (c : IngestionCommand) (payload_hash : String)
    (s s' : Store) (staged : Staged)
    → first_row (of_idempotency_key c) s.tables.jobs ≡ row
    → stage_rows db row c payload_hash s ≡ (ok staged, s')
    → IsStaged c payload_hash s'.tables.jobs
unfolding stage_rows load_with_cursor staged_job
stage_rows-IsStaged db (some row) c payload_hash s s' staged e h =
    let (same, h₁) = require-eq-ok (row.payload_hash == payload_hash) _ _ h in
    let (job, s₁, e₁, h₂) = bind-eq-ok (load_with_cursor db row.job_id none) _ s h₁ in
    let here : s ≡ s' =
      ap (λ (z : Result IngestionJob × Store). z.1) e₁
      ∙ ap (λ (z : Result Staged × Store). z.1) h₂ in
    (
      row,
      subst (λ (z : Store). first_row (of_idempotency_key c) z.tables.jobs ≡ some row) here e,
      same,
    )
stage_rows-IsStaged db none c payload_hash s s' staged e h =
    let (id, s₁, e₁, h₁) = bind-eq-ok (stage_new db c payload_hash) _ s h in
    let (job_id, jobs) = stage_new-eq-ok db c payload_hash id s s₁ e₁ in
    let last : s₁ ≡ s' = ap (λ (z : Result Staged × Store). z.1) h₁ in
    let named : of_idempotency_key c (staged_job job_id c payload_hash) ≡ true =
      rw (eq_refl c.tenant_id) (rw (eq_refl c.domain) (rw (eq_refl c.idempotency_key) refl)) in
    (
      staged_job job_id c payload_hash,
      ap (λ (z : Store). first_row (of_idempotency_key c) z.tables.jobs) (sym last)
          ∙ ap (first_row (of_idempotency_key c)) jobs
          ∙ first_row-append (of_idempotency_key c) s.tables.jobs (staged_job job_id c payload_hash)
              e named,
      eq_refl payload_hash,
    )

module _ (db : Postgres) (c : IngestionCommand) (payload_hash : String) where
  abbrev existing_row : Effect Store (Option JobRow)
  existing_row = select (λ t. first_row (of_idempotency_key c) t.jobs)

  abbrev in_block : Effect Store Staged
  in_block = existing_row >>= (λ existing. stage_rows db existing c payload_hash)

  abbrev staging : Effect Store Staged
  staging = transaction is_conflict_or_ingestion "PostgreSQL ingestion stage failed" in_block

  stage-IsStaged :
      (s s' : Store) (job : IngestionJob)
      → stage db c payload_hash s ≡ (ok job, s')
      → IsStaged c payload_hash s'.tables.jobs
  unfolding stage
  stage-IsStaged s s' job h =
      let (staged, s₁, e₁, h₁) =
        bind-eq-ok staging (λ staged. lift (staged_result c payload_hash staged)) s h in
      let (row, s₂, e₂, h₂) =
        bind-eq-ok existing_row (λ existing. stage_rows db existing c payload_hash) s
          (transaction-eq-ok is_conflict_or_ingestion "PostgreSQL ingestion stage failed" in_block s
            s₁ staged e₁) in
      let here : s ≡ s₂ = ap (λ (z : Result (Option JobRow) × Store). z.1) e₂ in
      let found : first_row (of_idempotency_key c) s.tables.jobs ≡ row =
        ok_injective (ap (λ (z : Result (Option JobRow) × Store). z.0) e₂) in
      let last : s₁ ≡ s' = ap (λ (z : Result IngestionJob × Store). z.1) h₁ in
      subst (λ (z : Store). IsStaged c payload_hash z.tables.jobs) last
        (stage_rows-IsStaged db row c payload_hash s₂ s₁ staged
          (subst (λ (z : Store). first_row (of_idempotency_key c) z.tables.jobs ≡ row) here found)
          h₂)

  stage_rows-Keeps :
      (T : Tables) (row : JobRow)
      → Keeps (On (λ t. t ≡ T)) (stage_rows db (some row) c payload_hash)
  unfolding stage_rows load_with_cursor
  stage_rows-Keeps T row =
      >>-Keeps (On (λ t. t ≡ T)) _ _
        (require-Keeps (On (λ t. t ≡ T)) (row.payload_hash == payload_hash)
          (conflict "Idempotency key was already used for a different payload"))
        (>>=-Keeps (On (λ t. t ≡ T)) (load_with_cursor db row.job_id none) _
          (record { after = λ s h. h }) (λ job. return-Keeps (On (λ t. t ≡ T)) (Staged.before job)))

  stage-Keeps :
      (T : Tables)
      → IsStaged c payload_hash T.jobs
      → Keeps (On (λ t. t ≡ T)) (stage db c payload_hash)
  unfolding stage
  stage-Keeps T (row, found, same) =
      >>=-Keeps (On (λ t. t ≡ T)) _ _
        (transaction-Keeps (λ t. t ≡ T) is_conflict_or_ingestion "PostgreSQL ingestion stage failed"
          _
          (>>=-Keeps_when (On (λ t. t ≡ T)) _ _
            (select-Keeps (λ t. t ≡ T) (λ t. first_row (of_idempotency_key c) t.jobs))
            (λ existing s s' h e.
              subst (λ r. Keeps (On (λ t. t ≡ T)) (stage_rows db r c payload_hash))
                (sym found
                  ∙ ap (λ (t : Tables). first_row (of_idempotency_key c) t.jobs) (sym h)
                  ∙ ok_injective (ap (λ (z : Result (Option JobRow) × Store). z.0) e))
                (stage_rows-Keeps T row))))
        (λ staged. lift-Keeps (On (λ t. t ≡ T)) (staged_result c payload_hash staged))

  -- A command that was staged is staged again, with the same content, without any change of
  -- the tables: no second job, version, chunk or relationship is written.
  pub stage-repeated :
      (s s' : Store) (job : IngestionJob)
      → stage db c payload_hash s ≡ (ok job, s')
      → ((stage db c payload_hash s').1).tables ≡ s'.tables
  stage-repeated s s' job h = (stage-Keeps s'.tables (stage-IsStaged s s' job h)).after s' refl
