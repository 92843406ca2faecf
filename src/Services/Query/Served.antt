-- ===== src/Services/Query/Served.antt =====
-- `RagQueryService.execute` with `PipelineEngine.execute` as its engine.
use sovereign_flow.Prelude.{ℕ, String, ◌≡◌, refl, ap, List, Option}
use sovereign_flow.Result.{Result, ok, err}
use sovereign_flow.Effect.{Effect}
use sovereign_flow.Text.Normal.{IsNormalized}
use sovereign_flow.Library.{Library}
use sovereign_flow.Domain.Profile.{QueryCommand}
use sovereign_flow.Pipeline.Registry.{PipelineAction}
use sovereign_flow.Pipeline.Validator.{validate}
use sovereign_flow.Pipeline.Context.{PipelineContext, ActionState, Action}
use sovereign_flow.Pipeline.Run.{QueryResult}
use sovereign_flow.Pipeline.Engine.{ExecutionAudit, execute}
use sovereign_flow.Pipeline.Engine.Outcome.{IsAnswered, execute-IsAnswered}
use sovereign_flow.Services.Query.{QueryService, prepare, run_prepared, query}
use sovereign_flow.Services.Query.Admitted.{IsPrepared, prepare-IsPrepared}

module _ {W : Type 0} (lib : Library) (audit : ExecutionAudit W) (monotonic : Effect W ℕ)
    (registry : List (PipelineAction (Action W (Option String)))) (run_id_factory : Effect W String)
    (service : QueryService W) (command : QueryCommand) where
  -- How a query that was answered went: the context that the command was prepared to, and the
  -- state that the engine left.
  pub record IsServed (result : QueryResult) (w w' : W) : Type 0 where
    pub context : PipelineContext W
    pub prepared : IsPrepared service command context
    pub s' : ActionState W
    pub ran :
        execute lib audit monotonic registry service.pipeline run_id_factory
          (record { context = context; world = w })
        ≡ (ok result, s')
    pub answered :
        IsAnswered lib audit monotonic registry service.pipeline result
          (record { context = context; world = w })
          s'
    pub world : s'.world ≡ w'

  run_prepared-IsServed :
      (r : Result (PipelineContext W)) (result : QueryResult) (w w' : W)
      → prepare service command ≡ r
      → IsNormalized command.authorization.acl_labels
      → validate registry service.pipeline ≡ ok tt
      → run_prepared (λ p. execute lib audit monotonic registry p run_id_factory) service r w
        ≡ (ok result, w')
      → IsServed result w w'
  unfolding run_prepared
  run_prepared-IsServed (err e) result w w' p n v h =
      absurd (cc (ap (λ (t : Result QueryResult × W). t.0) h))
  run_prepared-IsServed (ok context) result w w' p n v h =
      let s : ActionState W = record { context = context; world = w } in
      let out = execute lib audit monotonic registry service.pipeline run_id_factory s in
      let returned : out.0 ≡ ok result = ap (λ (t : Result QueryResult × W). t.0) h in
      let ran : out ≡ (ok result, out.1) = λ i. (returned i, out.1) in
      record {
        context = context;
        prepared = prepare-IsPrepared service command context n p;
        s' = out.1;
        ran = ran;
        answered =
            execute-IsAnswered lib audit monotonic registry service.pipeline run_id_factory s out.1
              result v ran;
        world = ap (λ (t : Result QueryResult × W). t.1) h;
      }

  -- A query that is answered by the engine on a validated pipeline was admitted, with the caller's
  -- ACL labels normalized: it fits the domain, and its pipeline ran under the subject, tenant, roles
  -- and groups of the caller and no label or access that the caller lacks, on a context without hits
  -- whose transmission was not checked. The loop of the engine, entered with that context, went pass
  -- by pass to a terminal step that leaves a result, and the answer reports what the loop left.
  pub query-IsServed :
      (result : QueryResult) (w w' : W)
      → IsNormalized command.authorization.acl_labels
      → validate registry service.pipeline ≡ ok tt
      → query (λ p. execute lib audit monotonic registry p run_id_factory) service command w
        ≡ (ok result, w')
      → IsServed result w w'
  unfolding query
  query-IsServed result w w' n v h =
      run_prepared-IsServed (prepare service command) result w w' refl n v h
