-- ===== src/Pipeline/Engine/Outcome.antt =====
-- What `PipelineEngine.execute` returns.
use sovereign_flow.Prelude.{ℕ, zero, String, ◌≡◌, ◌≢◌, refl, ap, List, Option, some, ◌∙◌, sym}
use sovereign_flow.Result.{Error, Result, ok, err, ok_injective, error_code, error_message}
use sovereign_flow.Library.{Library}
use sovereign_flow.Effect.{Effect, lift, throw, bind-eq-ok, seq-eq-ok, rescue, caught}
use sovereign_flow.Pipeline.Definition.{PipelineDefinition}
use sovereign_flow.Pipeline.Registry.{PipelineAction}
use sovereign_flow.Pipeline.Validator.{validate}
use sovereign_flow.Pipeline.Context.{PipelineContext, ActionState, Action, call}
use sovereign_flow.Pipeline.Run.{QueryResult, QueryDiagnostics, PipelineRun, new_run}
use sovereign_flow.Pipeline.Diagnostics.{diagnostics}
use sovereign_flow.Pipeline.Engine.{
  ExecutionAudit, run_from, conclude, attempted, report, recover, execute, close_turn, turn_open,
}
use sovereign_flow.Pipeline.Engine.Ending.{IsFinal, run_from-IsFinal}

module _ {W : Type 0} (audit : ExecutionAudit W) where
  report_raises :
      (run_id : String) (e : Error) (closed : Result (Unit {0})) (s s' : ActionState W)
      (result : QueryResult)
      → report audit run_id e closed s ≢ (ok result, s')
  unfolding report
  report_raises run_id e (ok closed) s s' result h =
      let (s₁, _, h₁) =
        seq-eq-ok
          (call (
            audit.fail run_id (error_code e)
              (error_message "Unhandled pipeline execution failure" e)))
          (throw e) s h in
      cc (ap (λ (t : Result QueryResult × ActionState W). t.0) h₁)
  report_raises run_id e (err x) s s' result h =
      let (s₁, _, h₁) =
        seq-eq-ok
          (call (audit.fail run_id (error_code x) (error_message "Conversation history failure" x)))
          (throw x) s h in
      cc (ap (λ (t : Result QueryResult × ActionState W). t.0) h₁)

  recover_raises :
      (run_id : String) (e : Error) (s s' : ActionState W) (result : QueryResult)
      → recover audit run_id e s ≢ (ok result, s')
  unfolding recover
  recover_raises run_id e s s' result h =
      report_raises run_id e (close_turn (error_code e) (turn_open s.context) s).0
        (close_turn (error_code e) (turn_open s.context) s).1 s' result h

  rescue-recover :
      (run_id : String) (m : Action W QueryResult) (s s' : ActionState W) (result : QueryResult)
      → rescue m (recover audit run_id) s ≡ (ok result, s')
      → m s ≡ (ok result, s')
  rescue-recover run_id m s s' result h = go (m s).0 (m s).1 refl h
    where
      go :
          (r : Result QueryResult) (s₁ : ActionState W)
          → m s ≡ (r, s₁)
          → caught (recover audit run_id) r s₁ ≡ (ok result, s')
          → m s ≡ (ok result, s')
      go (ok a) s₁ e k = e ∙ k
      go (err x) s₁ e k = absurd (recover_raises run_id x s₁ s' result k)

-- The result reports the context as the engine left it.
pub record IsReported {W : Type 0} (result : QueryResult) (c : PipelineContext W) : Type 0 where
  pub answer : result.answer ≡ c.answer
  pub citations : result.citations ≡ c.citations
  pub pipeline_trace : result.pipeline_trace ≡ c.trace
  pub conversation_id : result.conversation_id ≡ c.conversation_id
  pub turn_id : result.turn_id ≡ c.conversation_turn_id

conclude-IsReported :
    {W : Type 0} (lib : Library) (audit : ExecutionAudit W) (run_id : String) (s s' : ActionState W)
    (result : QueryResult)
    → conclude lib audit run_id s ≡ (ok result, s')
    → IsReported result s.context
unfolding conclude
conclude-IsReported {W} lib audit run_id s s' result h =
    let (d, s₁, e, h₁) = bind-eq-ok (lift (diagnostics lib s.context)) _ s h in
    let (s₂, e₂, h₂) = seq-eq-ok (call (audit.succeed run_id _ _ _ _ _)) _ s₁ h₁ in
    let made = ok_injective (ap (λ (t : Result QueryResult × ActionState W). t.0) h₂) in
    record {
      answer = sym (ap (λ (r : QueryResult). r.answer) made);
      citations = sym (ap (λ (r : QueryResult). r.citations) made);
      pipeline_trace = sym (ap (λ (r : QueryResult). r.pipeline_trace) made);
      conversation_id = sym (ap (λ (r : QueryResult). r.conversation_id) made);
      turn_id = sym (ap (λ (r : QueryResult). r.turn_id) made);
    }

conclude-context :
    {W : Type 0} (lib : Library) (audit : ExecutionAudit W) (run_id : String) (s s' : ActionState W)
    (result : QueryResult)
    → conclude lib audit run_id s ≡ (ok result, s')
    → s.context ≡ s'.context
unfolding conclude
conclude-context {W} lib audit run_id s s' result h =
    let (d, s₁, e, h₁) = bind-eq-ok (lift (diagnostics lib s.context)) _ s h in
    let (s₂, e₂, h₂) = seq-eq-ok (call (audit.succeed run_id _ _ _ _ _)) _ s₁ h₁ in
    ap (λ (t : Result QueryDiagnostics × ActionState W). t.1.context) e
    ∙ ap (λ (t : Result (Unit {0}) × ActionState W). t.1.context) e₂
    ∙ ap (λ (t : Result QueryResult × ActionState W). t.1.context) h₂

module _ {W : Type 0} (lib : Library) (audit : ExecutionAudit W) (monotonic : Effect W ℕ)
    (registry : List (PipelineAction (Action W (Option String)))) (p : PipelineDefinition) where
  -- How a run that returned has gone: from the given context through the loop to a terminal step, and
  -- what the loop left is reported.
  pub record IsAnswered (result : QueryResult) (s s' : ActionState W) : Type 0 where
    pub run_id : String
    pub entered : ActionState W
    pub left : ActionState W
    pub same_context : entered.context ≡ s.context
    pub final : IsFinal audit monotonic registry p run_id entered left
    pub reported : IsReported result left.context
    pub kept : left.context ≡ s'.context

  attempted-IsAnswered :
      (run_id : String) (begun s s' : ActionState W) (result : QueryResult)
      → s.context ≡ begun.context
      → validate registry p ≡ ok tt
      → attempted lib audit monotonic registry p run_id s ≡ (ok result, s')
      → IsAnswered result begun s'
  unfolding attempted
  attempted-IsAnswered run_id begun s s' result c v h =
      let (s₁, e, h₁) =
        seq-eq-ok
          (run_from audit monotonic registry p run_id p.max_steps zero (some p.entry_step_id))
          (conclude lib audit run_id) s h in
      record {
        run_id = run_id;
        entered = s;
        left = s₁;
        same_context = c;
        final = run_from-IsFinal audit monotonic registry p run_id s s₁ v e;
        reported = conclude-IsReported lib audit run_id s₁ s' result h₁;
        kept = conclude-context lib audit run_id s₁ s' result h₁;
      }

  -- If the engine returns a result for a validated pipeline, then its loop, entered with the given
  -- context, went pass by pass to a terminal step, whose pass left a result and the step at the end of
  -- the trace, and the result reports the answer, the citations, the trace, the conversation and the
  -- turn of the context that the loop left.
  pub execute-IsAnswered :
      (run_id_factory : Effect W String) (s s' : ActionState W) (result : QueryResult)
      → validate registry p ≡ ok tt
      → execute lib audit monotonic registry p run_id_factory s ≡ (ok result, s')
      → IsAnswered result s s'
  unfolding execute
  execute-IsAnswered run_id_factory s s' result v h =
      let (run_id, s₁, a, h₁) = bind-eq-ok (call run_id_factory) _ s h in
      let (run, s₂, b, h₂) = bind-eq-ok (lift (new_run _)) _ _ h₁ in
      let (s₃, c, h₃) =
        seq-eq-ok (call (audit.start run))
          (rescue (attempted lib audit monotonic registry p run_id) (recover audit run_id)) s₂ h₂ in
      let same : s.context ≡ s₃.context =
        ap (λ (t : Result String × ActionState W). t.1.context) a
        ∙ ap (λ (t : Result PipelineRun × ActionState W). t.1.context) b
        ∙ ap (λ (t : Result (Unit {0}) × ActionState W). t.1.context) c in
      attempted-IsAnswered run_id s s₃ s' result (sym same) v (
        rescue-recover audit run_id (attempted lib audit monotonic registry p run_id) s₃ s' result
          h₃)
