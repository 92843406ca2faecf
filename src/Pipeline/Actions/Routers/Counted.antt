-- ===== src/Pipeline/Actions/Routers/Counted.antt =====
-- How often a loop guard lets its step pass.
use mathlib.Core.Path.{subst}
use sovereign_flow.Prelude.{
  ℕ, suc, ◌≤◌, ◌<◌, arith, none, ◌⊎◌, lookup, le→leb, Option-cases, String, ◌≡◌, refl, sym, ap,
  true, List, Option, some, insert, lookup-insert, eq_refl, leb, Bool-cases, inl, inr, ◌∙◌,
}
use sovereign_flow.Result.{Result, ok, ok_injective, >>=-eq-ok, guard-eq-ok}
use sovereign_flow.Effect.{lift-bind-eq-ok}
use sovereign_flow.Pipeline.Definition.{PipelineStepDefinition}
use sovereign_flow.Pipeline.Context.{PipelineContext, ActionState}
use sovereign_flow.Pipeline.Actions.Config.{
  declared, reject_unknown_config_keys, required_config_string, positive_config_integer,
}
use sovereign_flow.Pipeline.Actions.Routers.{
  LoopGuardConfig, loop_guard_config, count_or_zero, loop_count, loop_route,
}
use sovereign_flow.Pipeline.Actions.Routers.Guard.{loop_guard}

-- What the configuration of a step says, where it is read without an error.
record HasRoutes (step : PipelineStepDefinition) (config : LoopGuardConfig) : Type 0 where
  allow : declared step.routes config.on_allow ≡ true
  deny : declared step.routes config.on_deny ≡ true
  allow_read : required_config_string step.config "on_allow" ≡ ok config.on_allow
  deny_read : required_config_string step.config "on_deny" ≡ ok config.on_deny
  limit_read : positive_config_integer step.config "max_loops" ≡ ok config.max_loops

loop_guard_config-HasRoutes :
    (step : PipelineStepDefinition) (config : LoopGuardConfig)
    → loop_guard_config step ≡ ok config
    → HasRoutes step config
unfolding loop_guard_config
loop_guard_config-HasRoutes step config h =
    let (_, _, h₁) = >>=-eq-ok (reject_unknown_config_keys step.config _) _ h in
    let (a, ea, h₂) = >>=-eq-ok (required_config_string step.config "on_allow") _ h₁ in
    let (d, ed, h₃) = >>=-eq-ok (required_config_string step.config "on_deny") _ h₂ in
    let (allow, h₄) = guard-eq-ok (declared step.routes a) _ _ h₃ in
    let (deny, h₅) = guard-eq-ok (declared step.routes d) _ _ h₄ in
    let (n, en, h₆) = >>=-eq-ok (positive_config_integer step.config "max_loops") _ h₅ in
    subst (HasRoutes step) (ok_injective h₆)
      (record { allow = allow; deny = deny; allow_read = ea; deny_read = ed; limit_read = en })

loop_route-allow :
    (config : LoopGuardConfig) (n : ℕ)
    → n ≤ config.max_loops
    → loop_route config n ≡ config.on_allow
unfolding loop_route
loop_route-allow config n h = rw (le→leb n config.max_loops h) refl

loop_route-deny :
    (config : LoopGuardConfig) (n : ℕ) → config.max_loops < n → loop_route config n ≡ config.on_deny
unfolding loop_route
loop_route-deny config n h = ground arith

HasRoutes-loop_route :
    (step : PipelineStepDefinition) (config : LoopGuardConfig) (current : ℕ)
    → HasRoutes step config
    → declared step.routes (loop_route config current) ≡ true
unfolding loop_route
HasRoutes-loop_route step config current r = elim (Bool-cases (leb current config.max_loops)) [
  | inl yes_ ↦ rw yes_ r.allow
  | inr no_ ↦ rw no_ r.deny
]

-- How often the counters say that the step was run: not at all where it has no entry.
abbrev pub HasCount : String → List (String × ℕ) → ℕ → Type 0
HasCount step_id counters n =
    ((lookup step_id counters ≡ none) × (n ≡ 0)) ⊎ (lookup step_id counters ≡ some n)

loop_count-HasCount :
    (step_id : String) (counters : List (String × ℕ))
    → (n : ℕ) × HasCount step_id counters n × (loop_count step_id counters ≡ suc n)
unfolding loop_count count_or_zero
loop_count-HasCount step_id counters = elim (Option-cases (lookup step_id counters)) [
  | inl missing ↦ (0, inl (missing, refl), rw missing refl)
  | inr (n, found) ↦ (n, inr found, rw found refl)
]

lookup-insert_self :
    (id : String) (n : ℕ) (m : List (String × ℕ)) → lookup id (insert id n m) ≡ some n
lookup-insert_self id n m = rw lookup-insert (rw eq_refl refl)

module _ {W : Type 0} where
  -- What a loop guard has done when it returned.
  pub record IsCounted (step : PipelineStepDefinition) (before after : PipelineContext W)
      (route : Option String) : Type 0 where
    pub config : LoopGuardConfig
    pub allow_read : required_config_string step.config "on_allow" ≡ ok config.on_allow
    pub deny_read : required_config_string step.config "on_deny" ≡ ok config.on_deny
    pub limit_read : positive_config_integer step.config "max_loops" ≡ ok config.max_loops
    pub name : String
    pub returned : route ≡ some name
    pub known : declared step.routes name ≡ true
    pub runs : ℕ
    pub before_it : HasCount step.step_id before.loop_counters runs
    pub counted : lookup step.step_id after.loop_counters ≡ some (suc runs)
    pub within : suc runs ≤ config.max_loops → name ≡ config.on_allow
    pub beyond : config.max_loops < suc runs → name ≡ config.on_deny

  -- A loop guard that returns has counted its step once more, from no run where it had no counter,
  -- and its route is a declared one: `on_allow` of its configuration while the count is not above
  -- `max_loops`, and `on_deny` from then on.
  pub loop_guard-IsCounted :
      (step : PipelineStepDefinition) (s s' : ActionState W) (route : Option String)
      → loop_guard step s ≡ (ok route, s')
      → IsCounted step s.context s'.context route
  unfolding loop_guard
  loop_guard-IsCounted step s s' route h =
      let (config, e, h₁) = lift-bind-eq-ok (loop_guard_config step) _ s h in
      let n = loop_count step.step_id s.context.loop_counters in
      let after =
        ap (λ (t : Result (Option String) × ActionState W). t.1.context.loop_counters) h₁ in
      let out : some (loop_route config n) ≡ route =
        ok_injective (ap (λ (t : Result (Option String) × ActionState W). t.0) h₁) in
      let (runs, had, next) = loop_count-HasCount step.step_id s.context.loop_counters in
      let read = loop_guard_config-HasRoutes step config e in
      record {
        config = config;
        allow_read = read.allow_read;
        deny_read = read.deny_read;
        limit_read = read.limit_read;
        name = loop_route config n;
        returned = sym out;
        known = HasRoutes-loop_route step config n read;
        runs = runs;
        before_it = had;
        counted =
            sym (ap (lookup step.step_id) after)
            ∙ lookup-insert_self step.step_id n s.context.loop_counters
            ∙ ap some next;
        within = λ k. ap (loop_route config) next ∙ loop_route-allow config (suc runs) k;
        beyond = λ k. ap (loop_route config) next ∙ loop_route-deny config (suc runs) k;
      }
