-- ===== src/Pipeline/Engine/Ending.antt =====
-- Where a run of the engine ends.
use sovereign_flow.Prelude.{
  ℕ, zero, suc, String, ◌≡◌, true, List, ◌++◌, Option, none, some, arith, mem, ap, ◌∙◌, sym,
  some_injective, [], ◌∷◌,
}
use sovereign_flow.Result.{Result, ok}
use sovereign_flow.Pipeline.Definition.{
  pipeline_step, PipelineStepDefinition, PipelineDefinition, find_step,
}
use sovereign_flow.Pipeline.Transition.{next, Reaches, start, next_step, chosen, routed, followed}
use sovereign_flow.Pipeline.Context.{call, ActionState, Action}
use sovereign_flow.Pipeline.Run.{PipelineStepAudit, new_step_audit}
use sovereign_flow.Effect.{lift, seq-eq-ok, Effect, bind-eq-ok}
use sovereign_flow.Pipeline.Engine.Limit.{
  lift-eq-ok, IsTaken, take_step-IsTaken, pipeline_step-eq-ok,
}
use sovereign_flow.Pipeline.Registry.{PipelineAction, get_action}
use sovereign_flow.Pipeline.Validator.{initial_state, validate}
use sovereign_flow.Pipeline.Reached.{Reaches-IsSound}
use sovereign_flow.Pipeline.Engine.{ExecutionAudit, take_step, run_from}

-- Only a terminal step has no next one.
next_step-eq-none :
    (step : PipelineStepDefinition) (route : Option String)
    → next_step step route ≡ ok none
    → step.terminal ≡ true
unfolding next_step chosen routed followed
next_step-eq-none step route h = ground arith

module _ {W : Type 0} (audit : ExecutionAudit W) (monotonic : Effect W ℕ)
    (registry : List (PipelineAction (Action W (Option String)))) (p : PipelineDefinition)
    (run_id : String) where
  -- A pass writes its step at the end of the trace.
  record IsTraced (current : String) (s' : ActionState W) : Type 0 where
    step : PipelineStepDefinition
    found : find_step current p.steps ≡ some step
    earlier : List String
    trace : s'.context.trace ≡ earlier ++ step.step_id ∷ []

  take_step-IsTraced :
      (sequence : ℕ) (current : String) (s s' : ActionState W) (target : Option String)
      → take_step audit monotonic registry p run_id sequence current s ≡ (ok target, s')
      → IsTraced current s'
  unfolding take_step
  take_step-IsTraced sequence current s s' target h =
      let (step, _, f, h₁) = bind-eq-ok (lift (pipeline_step p current)) _ s h in
      let (action, s₂, g, h₂) = bind-eq-ok (lift (get_action registry step.action)) _ _ h₁ in
      let (_, s₃, _, h₃) = bind-eq-ok (call monotonic) _ s₂ h₂ in
      let (route, s₄, _, h₄) = bind-eq-ok (action.execute step) _ s₃ h₃ in
      let (_, s₅, _, h₅) = bind-eq-ok (call monotonic) _ s₄ h₄ in
      let (t, s₇, n, h₇) = bind-eq-ok (lift (next_step step route)) _ _ h₅ in
      let (_, s₈, a, h₈) = bind-eq-ok (lift (new_step_audit _)) _ s₇ h₇ in
      let (s₉, b, h₉) = seq-eq-ok (call (audit.record_step _)) _ s₈ h₈ in
      record {
        step = step;
        found = pipeline_step-eq-ok p current step (lift-eq-ok f);
        earlier = s₅.context.trace;
        trace = sym (
            ap (λ (r : Result (Option String) × ActionState W). r.1.context.trace) n
            ∙ ap (λ (r : Result PipelineStepAudit × ActionState W). r.1.context.trace) a
            ∙ ap (λ (r : Result (Unit {0}) × ActionState W). r.1.context.trace) b
            ∙ ap (λ (r : Result (Option String) × ActionState W). r.1.context.trace) h₉);
      }

  -- The passes that a run has made from the state `s` on: how many, what its actions provide, the
  -- step that comes next, and the state they left.
  pub data Went (s : ActionState W) : ℕ → List String → String → ActionState W → Type 0 where
    begun : Went s zero initial_state p.entry_step_id s
    passed :
        {k : ℕ} {available : List String} {id next_id : String} {m m' : ActionState W}
        → Went s k available id m
        → (w : IsTaken audit monotonic registry p run_id id (some next_id))
        → take_step audit monotonic registry p run_id (suc k) id m ≡ (ok (some next_id), m')
        → Went s (suc k) (available ++ w.action.provides) next_id m'

  -- The run from `s` went to a terminal step, which the validator reaches too, and the pass of that
  -- step left `s'`, with a result after its action and the step at the end of the trace.
  pub record IsFinal (s s' : ActionState W) : Type 0 where
    pub taken : ℕ
    pub available : List String
    pub step_id : String
    pub before : ActionState W
    pub went : Went s taken available step_id before
    pub last_pass :
        take_step audit monotonic registry p run_id (suc taken) step_id before ≡ (ok none, s')
    pub reached : Reaches registry p taken available step_id
    pub step : PipelineStepDefinition
    pub found : find_step step_id p.steps ≡ some step
    pub terminal : step.terminal ≡ true
    pub action : PipelineAction (Action W (Option String))
    pub got : get_action registry step.action ≡ ok action
    pub result : mem "result" (available ++ action.provides) ≡ true
    pub earlier : List String
    pub trace : s'.context.trace ≡ earlier ++ step.step_id ∷ []

  IsTaken-IsFinal :
      {k : ℕ} {available : List String} {id : String} (s m s' : ActionState W)
      → validate registry p ≡ ok tt
      → Reaches registry p k available id
      → Went s k available id m
      → IsTaken audit monotonic registry p run_id id none
      → take_step audit monotonic registry p run_id (suc k) id m ≡ (ok none, s')
      → IsFinal s s'
  IsTaken-IsFinal {k} {available} {id} s m s' v r g w e =
      let sound = Reaches-IsSound registry p v r in
      let found = pipeline_step-eq-ok p id w.step w.found in
      let same : sound.step ≡ w.step = some_injective sound.step w.step (sym sound.found ∙ found) in
      let last = next_step-eq-none w.step w.route w.routed in
      let terminal = ap (λ (s : PipelineStepDefinition). s.terminal) same ∙ last in
      let traced = take_step-IsTraced (suc k) id m s' none e in
      let at : traced.step ≡ sound.step =
        some_injective traced.step sound.step (sym traced.found ∙ sound.found) in
      record {
        taken = k;
        available = available;
        step_id = id;
        before = m;
        went = g;
        last_pass = e;
        reached = r;
        step = sound.step;
        found = sound.found;
        terminal = terminal;
        action = sound.action;
        got = sound.got;
        result = sound.produces terminal;
        earlier = traced.earlier;
        trace =
            traced.trace ∙ ap (λ (x : PipelineStepDefinition). traced.earlier ++ x.step_id ∷ []) at;
      }

  -- What follows a pass: the end, or the rest of the run.
  passed-IsFinal :
      (left : ℕ) {k : ℕ} {available : List String} {id : String} (target : Option String)
      (s m s₁ s' : ActionState W)
      → validate registry p ≡ ok tt
      → Reaches registry p k available id
      → Went s k available id m
      → take_step audit monotonic registry p run_id (suc k) id m ≡ (ok target, s₁)
      → run_from audit monotonic registry p run_id left (suc k) target s₁ ≡ (ok tt, s')
      → ((available' : List String) (next_id : String)
          → Reaches registry p (suc k) available' next_id
          → Went s (suc k) available' next_id s₁
          → run_from audit monotonic registry p run_id left (suc k) (some next_id) s₁ ≡ (ok tt, s')
          → IsFinal s s')
      → IsFinal s s'
  unfolding run_from
  passed-IsFinal left {k} {available} {id} none s m s₁ s' v r g e h further =
      let here : s₁ ≡ s' = ap (λ (t : Result (Unit {0}) × ActionState W). t.1) h in
      IsTaken-IsFinal s m s' v r g
        (take_step-IsTaken audit monotonic registry p run_id (suc k) id m s₁ none e)
        (e ∙ ap (λ (z : ActionState W). (ok none, z)) here)
  passed-IsFinal left {k} {available} {id} (some next_id) s m s₁ s' v r g e h further =
      let w =
        take_step-IsTaken audit monotonic registry p run_id (suc k) id m s₁ (some next_id) e in
      further (available ++ w.action.provides) next_id
        (next w.route r (pipeline_step-eq-ok p id w.step w.found) w.got w.routed)
        (Went.passed g w e) h

  run_from-IsFinal_at :
      (left k : ℕ) (available : List String) (id : String) (s m s' : ActionState W)
      → validate registry p ≡ ok tt
      → Reaches registry p k available id
      → Went s k available id m
      → run_from audit monotonic registry p run_id left k (some id) m ≡ (ok tt, s')
      → IsFinal s s'
  unfolding run_from
  run_from-IsFinal_at zero k available id s m s' v r g h =
      absurd (cc (ap (λ (t : Result (Unit {0}) × ActionState W). t.0) h))
  run_from-IsFinal_at (suc left) k available id s m s' v r g h =
      let (target, s₁, e, h') =
        bind-eq-ok (take_step audit monotonic registry p run_id (suc k) id) _ m h in
      passed-IsFinal left target s m s₁ s' v r g e h' (λ available' next_id r' g' h''.
        run_from-IsFinal_at left (suc k) available' next_id s s₁ s' v r' g' h'')

  -- A run of a validated pipeline that returns has ended at a terminal step, after an action that
  -- leaves a result.
  pub run_from-IsFinal :
      (s s' : ActionState W)
      → validate registry p ≡ ok tt
      → run_from audit monotonic registry p run_id p.max_steps zero (some p.entry_step_id) s
        ≡ (ok tt, s')
      → IsFinal s s'
  run_from-IsFinal s s' v h =
      run_from-IsFinal_at p.max_steps zero initial_state p.entry_step_id s s s' v start Went.begun h
