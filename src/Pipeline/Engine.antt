-- ===== src/Pipeline/Engine.antt =====
-- `PipelineEngine` of sovereignflow/application/pipeline.py, with `_fail_conversation_turn` of
-- application/actions/_conversation.py. The clock gives milliseconds.
pub mod Limit
pub mod Ending
pub mod Outcome
use sovereign_flow.Prelude.{
  ℕ, zero, suc, ◌-◌, String, Bool, not, ◌&&◌, List, [], ◌∷◌, ◌++◌, Option, none, some, length,
  is_some, if◌then◌else◌,
}
use sovereign_flow.Result.{
  Error, raised, foreign, class_code, Result, ok, err, bad_execution, error_code, error_message,
}
use sovereign_flow.Value.{Value, Float}
use sovereign_flow.Library.{Library}
use sovereign_flow.Effect.{Effect, return, throw, lift, ◌>>=◌, ◌>>◌, caught, rescue, attempt}
use sovereign_flow.Pipeline.Definition.{PipelineDefinition, pipeline_step}
use sovereign_flow.Pipeline.Registry.{PipelineAction, get_action}
use sovereign_flow.Pipeline.Transition.{next_step}
use sovereign_flow.Pipeline.Context.{
  PipelineContext, ActionState, Action, HistoryService, call, ask, assign,
}
use sovereign_flow.Pipeline.Run.{
  PipelineRun, new_run, PipelineStepAudit, new_step_audit, QueryResult,
}
use sovereign_flow.Pipeline.Diagnostics.{diagnostics}

-- The methods of `ExecutionAuditPort` that the engine calls.
pub record ExecutionAudit (W : Type 0) : Type 0 where
  pub start : PipelineRun → Effect W (Unit {0})
  pub record_step : PipelineStepAudit → Effect W (Unit {0})
  pub succeed :
      (run_id answer : String)
      → (citation_count prompt_tokens completion_tokens : ℕ) → Float
      → Effect W (Unit {0})
  pub fail : (run_id error_code error_message : String) → Effect W (Unit {0})

module _ {W : Type 0} where
  unfoldable pub turn_failure :
      PipelineContext W
      → String
      → Option (HistoryService W)
      → Option String
      → Option String
      → Action W (Unit {0})
  turn_failure context code (some history) (some conversation_id) (some turn_id) = do
    turn ← call (
        history.fail_turn context.command.authorization conversation_id turn_id code
          (("request_id", Value.str context.command.request_id) ∷ []))
    assign (λ c. record c { conversation_turn_finalized = Bool.true })
  turn_failure context code none (some conversation_id) (some turn_id) =
      throw (bad_execution "Conversation history service is not configured")
  turn_failure context code history conversation_id turn_id =
      throw (bad_execution "Conversation turn must be started before marking failure")

  -- `_fail_conversation_turn`
  unfoldable pub fail_conversation_turn : String → Action W (Unit {0})
  unfolding turn_failure
  fail_conversation_turn code = do
    c ← ask (λ c. c)
    turn_failure c code c.conversation_history c.conversation_id c.conversation_turn_id

  -- A turn that was started and not finalized.
  unfoldable pub turn_open : PipelineContext W → Bool
  turn_open c = is_some c.conversation_turn_id && not c.conversation_turn_finalized

  unfoldable pub close_turn : String → Bool → Action W (Unit {0})
  unfolding fail_conversation_turn
  close_turn code Bool.true = fail_conversation_turn code
  close_turn code Bool.false = return tt

module _ {W : Type 0} (audit : ExecutionAudit W) (monotonic : Effect W ℕ)
    (registry : List (PipelineAction (Action W (Option String)))) (p : PipelineDefinition) where
  -- One pass of the loop, which comes to the next step.
  unfoldable pub take_step :
      (run_id : String) (sequence : ℕ) (current : String) → Action W (Option String)
  take_step run_id sequence current = do
    step ← lift (pipeline_step p current)
    action ← lift (get_action registry step.action)
    begun ← call monotonic
    route ← action.execute step
    done ← call monotonic
    assign (λ c. record c { trace = c.trace ++ step.step_id ∷ [] })
    next_step_id ← lift (next_step step route)
    entry ← lift (
        new_step_audit (record {
          run_id = run_id;
          sequence_number = sequence;
          step_id = step.step_id;
          action = step.action;
          action_version = step.action_version;
          duration_ms = done - begun;
          next_step_id = next_step_id;
        }))
    call (audit.record_step entry)
    return next_step_id

  -- The loop: `left` steps may still be taken, and `sequence` were.
  unfoldable pub run_from : (run_id : String) → ℕ → ℕ → Option String → Action W (Unit {0})
  unfolding take_step
  run_from run_id left sequence none = return tt
  run_from run_id zero sequence (some current) =
      throw (bad_execution "Pipeline exceeded its configured step limit")
  run_from run_id (suc left) sequence (some current) = do
    next_step_id ← take_step run_id (suc sequence) current
    run_from run_id left (suc sequence) next_step_id

module _ {W : Type 0} (lib : Library) (audit : ExecutionAudit W) where
  -- What the engine returns once the loop has ended.
  unfoldable pub conclude : (run_id : String) → Action W QueryResult
  conclude run_id = do
    c ← ask (λ c. c)
    d ← lift (diagnostics lib c)
    call (
        audit.succeed run_id c.answer (length c.citations) c.prompt_tokens c.completion_tokens
          c.estimated_cost)
    return (record {
      request_id = c.command.request_id;
      answer = c.answer;
      domain = c.domain.name;
      session_id = c.command.session_id;
      citations = c.citations;
      pipeline_trace = c.trace;
      diagnostics = d;
      conversation_id = c.conversation_id;
      turn_id = c.conversation_turn_id;
    })

module _ {W : Type 0} (audit : ExecutionAudit W) where
  -- The failure is written to the log and raised: that of closing the turn where there was one.
  unfoldable pub report : (run_id : String) → Error → Result (Unit {0}) → Action W QueryResult
  unfolding error_code error_message
  report run_id e (ok closed) = do
    call (audit.fail run_id (error_code e) (error_message "Unhandled pipeline execution failure" e))
    throw e
  report run_id e (err h) = do
    call (audit.fail run_id (error_code h) (error_message "Conversation history failure" h))
    throw h

  -- The `except` branch.
  unfoldable pub recover : (run_id : String) → Error → Action W QueryResult
  unfolding report turn_open close_turn error_code
  recover run_id e = do
    c ← ask (λ c. c)
    closed ← attempt (close_turn (error_code e) (turn_open c))
    report run_id e closed

module _ {W : Type 0} (lib : Library) (audit : ExecutionAudit W) (monotonic : Effect W ℕ)
    (registry : List (PipelineAction (Action W (Option String)))) (p : PipelineDefinition) where
  unfoldable pub attempted : (run_id : String) → Action W QueryResult
  unfolding conclude
  attempted run_id = do
    run_from audit monotonic registry p run_id p.max_steps zero (some p.entry_step_id)
    conclude lib audit run_id

  -- `PipelineEngine.execute`
  unfoldable pub execute : (run_id_factory : Effect W String) → Action W QueryResult
  unfolding attempted recover
  execute run_id_factory = do
    run_id ← call run_id_factory
    c ← ask (λ c. c)
    run ← lift (
        new_run (record {
          run_id = run_id;
          request_id = c.command.request_id;
          session_id = c.command.session_id;
          domain = c.domain.name;
          tenant_id = c.command.authorization.tenant_id;
          pipeline_name = p.name;
          pipeline_version = p.behavior_version;
          pipeline_checksum = p.checksum;
          query = c.command.query;
        }))
    call (audit.start run)
    rescue (attempted run_id) (recover audit run_id)
