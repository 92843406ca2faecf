-- ===== src/Pipeline/Engine/Limit.antt =====
-- The step limit of a validated pipeline is never met.
use sovereign_flow.Prelude.{
  ℕ, zero, suc, ◌+◌, ◌≤◌, String, ◌≡◌, refl, ap, List, ◌++◌, Option, none, some, arith,
}
use sovereign_flow.Result.{Result, ok, ok_injective}
use sovereign_flow.Effect.{Effect, lift, bind-cong, bind-eq-ok, seq-eq-ok}
use sovereign_flow.Pipeline.Definition.{
  PipelineStepDefinition, PipelineDefinition, find_step, step_found, pipeline_step,
}
use sovereign_flow.Pipeline.Registry.{PipelineAction, get_action}
use sovereign_flow.Pipeline.Validator.{initial_state, validate}
use sovereign_flow.Pipeline.Transition.{Reaches, start, next, next_step}
use sovereign_flow.Pipeline.Reached.{Reaches-IsSound}
use sovereign_flow.Pipeline.Context.{ActionState, Action, call}
use sovereign_flow.Pipeline.Run.{new_step_audit}
use sovereign_flow.Pipeline.Engine.{ExecutionAudit, take_step, run_from}

pub pipeline_step-eq-ok :
    (p : PipelineDefinition) (id : String) (step : PipelineStepDefinition)
    → pipeline_step p id ≡ ok step
    → find_step id p.steps ≡ some step
unfolding pipeline_step step_found
pipeline_step-eq-ok p id step h = ground arith

pub lift-eq-ok : {S A : Type 0} {r : Result A} {s s' : S} {a : A} → lift r s ≡ (ok a, s') → r ≡ ok a
lift-eq-ok {S} {A} h = ap (λ (t : Result A × S). t.0) h

module _ {W : Type 0} (audit : ExecutionAudit W) (monotonic : Effect W ℕ)
    (registry : List (PipelineAction (Action W (Option String)))) (p : PipelineDefinition)
    (run_id : String) where
  -- The engine is at a step that it can come to, or has ended.
  pub data Comes : ℕ → List String → Option String → Type 0 where
    ended : {k : ℕ} {available : List String} → Comes k available none
    at_step :
        {k : ℕ} {available : List String} {id : String}
        → Reaches registry p k available id
        → Comes k available (some id)

  pub Comes-next :
      {k : ℕ} {available : List String} {id : String} (step : PipelineStepDefinition)
      (action : PipelineAction (Action W (Option String))) (route target : Option String)
      → Reaches registry p k available id
      → pipeline_step p id ≡ ok step
      → get_action registry step.action ≡ ok action
      → next_step step route ≡ ok target
      → Comes (suc k) (available ++ action.provides) target
  Comes-next step action route none r f g n = ended
  Comes-next {id = id} step action route (some target) r f g n =
      at_step (next route r (pipeline_step-eq-ok p id step f) g n)

  -- The step that a pass has taken, and the action of it.
  pub record IsTaken (current : String) (target : Option String) : Type 0 where
    pub step : PipelineStepDefinition
    pub found : pipeline_step p current ≡ ok step
    pub action : PipelineAction (Action W (Option String))
    pub got : get_action registry step.action ≡ ok action
    pub route : Option String
    pub routed : next_step step route ≡ ok target

  pub take_step-IsTaken :
      (sequence : ℕ) (current : String) (s s' : ActionState W) (target : Option String)
      → take_step audit monotonic registry p run_id sequence current s ≡ (ok target, s')
      → IsTaken current target
  unfolding take_step
  take_step-IsTaken sequence current s s' target h =
      let (step, _, f, h₁) = bind-eq-ok (lift (pipeline_step p current)) _ s h in
      let (action, s₂, g, h₂) = bind-eq-ok (lift (get_action registry step.action)) _ _ h₁ in
      let (_, s₃, _, h₃) = bind-eq-ok (call monotonic) _ s₂ h₂ in
      let (route, s₄, _, h₄) = bind-eq-ok (action.execute step) _ s₃ h₃ in
      let (_, s₅, _, h₅) = bind-eq-ok (call monotonic) _ s₄ h₄ in
      let (t, s₇, n, h₇) = bind-eq-ok (lift (next_step step route)) _ _ h₅ in
      let (_, s₈, _, h₈) = bind-eq-ok (lift (new_step_audit _)) _ s₇ h₇ in
      let (s₉, _, h₉) = seq-eq-ok (call (audit.record_step _)) _ s₈ h₈ in
      let same : t ≡ target =
        ok_injective (ap (λ (r : Result (Option String) × ActionState W). r.0) h₉) in
      record {
        step = step;
        found = lift-eq-ok f;
        action = action;
        got = lift-eq-ok g;
        route = route;
        routed = rw same at (lift-eq-ok n);
      }

  pub IsTaken-Comes :
      {k : ℕ} {available : List String} {id : String} (target : Option String)
      (w : IsTaken id target)
      → Reaches registry p k available id
      → Comes (suc k) (available ++ w.action.provides) target
  IsTaken-Comes target w r = Comes-next w.step w.action w.route target r w.found w.got w.routed

  same_run :
      (left more k : ℕ) (available : List String) (current : Option String)
      → validate registry p ≡ ok tt
      → k + left ≡ p.max_steps
      → left ≤ more
      → Comes k available current
      → (s : ActionState W)
      → run_from audit monotonic registry p run_id more k current s
        ≡ run_from audit monotonic registry p run_id left k current s
  unfolding run_from
  same_run left more k available none v e m c s = refl
  same_run zero more k available (some id) v e m (at_step r) s =
      let late = (Reaches-IsSound registry p v r).in_time in absurd (omega arith)
  same_run (suc left) zero k available (some id) v e m (at_step r) s = absurd (omega arith)
  same_run (suc left) (suc more) k available (some id) v e m (at_step r) s =
      bind-cong (take_step audit monotonic registry p run_id (suc k) id) _ _ s (λ target s' h.
        let w = take_step-IsTaken (suc k) id s s' target h in
        same_run left more (suc k) (available ++ w.action.provides) target v (omega arith)
          (omega arith) (IsTaken-Comes target w r) s')

  -- The engine runs a validated pipeline alike under its limit and under any greater one: the
  -- limit never stops a run.
  pub run_from-unlimited :
      (limit : ℕ) (s : ActionState W)
      → validate registry p ≡ ok tt
      → p.max_steps ≤ limit
      → run_from audit monotonic registry p run_id limit zero (some p.entry_step_id) s
        ≡ run_from audit monotonic registry p run_id p.max_steps zero (some p.entry_step_id) s
  run_from-unlimited limit s v m =
      same_run p.max_steps limit zero initial_state (some p.entry_step_id) v (omega arith) m
        (at_step start) s
