-- ===== src/Pipeline/Actions/CallModel/Guarded.antt =====
-- No model is called before the transmission policy has allowed it.
use sovereign_flow.Prelude.{◌≡◌, false, ◌&&◌, Bool-cases, inl, inr, if◌then◌else◌, ℕ}
use sovereign_flow.Result.{err, policy_violated, bad_execution}
use sovereign_flow.Effect.{Effect}
use sovereign_flow.Library.{Library}
use sovereign_flow.Pipeline.Definition.{PipelineStepDefinition}
use sovereign_flow.Pipeline.Context.{ActionState}
use sovereign_flow.Pipeline.Actions.CallModel.{call_model}

-- Unless the policy was enforced and allowed the transmission, the action fails with the error of
-- the check that was not passed, and the context and the world stay as they are: no prompt is
-- loaded and no model is called.
pub call_model_guarded :
    {W : Type 0} (lib : Library) (monotonic : Effect W ℕ) (step : PipelineStepDefinition)
    (s : ActionState W)
    → (s.context.model_transmission_checked && s.context.model_transmission_allowed) ≡ false
    → call_model lib monotonic step s ≡ (
      err (
          if s.context.model_transmission_checked
          then policy_violated "Model transmission policy blocked the model call"
          else bad_execution "Model transmission policy has not been enforced"),
      s,
    )
unfolding call_model
call_model_guarded lib monotonic step s h = elim (Bool-cases s.context.model_transmission_checked) [
  | inl c ↦
      let refused : s.context.model_transmission_allowed ≡ false = rw c at h in rw c (rw refused)
  | inr u ↦ rw u
]
