-- ===== src/Pipeline/Actions/Conversation/Recalled.antt =====
-- What the history that a pipeline loads holds.
use mathlib.Core.Path.{subst}
use sovereign_flow.Prelude.{String, ◌≡◌, ◌≤◌, refl, sym, ap, ◌∙◌, List, Option, none, some}
use sovereign_flow.Result.{Result, ok, err}
use sovereign_flow.Effect.{and_then, lift-bind-eq-ok, return, ◌>>=◌, ◌>>◌}
use sovereign_flow.Text.Words.{text_length}
use sovereign_flow.Domain.Conversation.{ConversationTurn}
use sovereign_flow.Pipeline.Definition.{PipelineStepDefinition}
use sovereign_flow.Pipeline.Context.{ActionState, Action, HistoryService, assign}
use sovereign_flow.Pipeline.Actions.ConversationConfig.{
  LoadConversationHistoryConfig, load_conversation_history_config,
}
use sovereign_flow.Pipeline.Actions.Dialog.{
  format_conversation_history, format_conversation_history-fits,
}
use sovereign_flow.Pipeline.Actions.Conversation.{
  history_service_of, present, load_conversation_history,
}

module _ {W : Type 0} where
  -- What a context with the history in it has got, and from whom.
  pub record IsRecalled (step : PipelineStepDefinition) (s s' : ActionState W) : Type 0 where
    pub conversation_id : String
    pub resolved : s.context.conversation_id ≡ some conversation_id
    pub service : HistoryService W
    pub configured : s.context.conversation_history ≡ some service
    pub config : LoadConversationHistoryConfig
    pub accepted : load_conversation_history_config step ≡ ok config
    pub turns : List ConversationTurn
    pub answered :
        service.recent_finalized_turns s.context.command.authorization conversation_id config.limit
          s.world
        ≡ (ok turns, s'.world)
    pub kept : s'.context.conversation_history_turns ≡ turns
    pub fits : text_length s'.context.conversation_history_text ≤ config.max_characters

  present-bind-eq-ok :
      {A B : Type 0} (message : String) (o : Option A) (f : A → Action W B) (s s' : ActionState W)
      {b : B}
      → (present message o >>= f) s ≡ (ok b, s')
      → (a : A) × (o ≡ some a) × (f a s ≡ (ok b, s'))
  unfolding present
  present-bind-eq-ok {A} {B} message none f s s' h =
      absurd (cc (ap (λ (t : Result B × ActionState W). t.0) h))
  present-bind-eq-ok message (some a) f s s' h = (a, refl, h)

  service-bind-eq-ok :
      {B : Type 0} (o : Option (HistoryService W)) (f : HistoryService W → Action W B)
      (s s' : ActionState W) {b : B}
      → (history_service_of o >>= f) s ≡ (ok b, s')
      → (a : HistoryService W) × (o ≡ some a) × (f a s ≡ (ok b, s'))
  unfolding history_service_of
  service-bind-eq-ok {B} none f s s' h = absurd (cc (ap (λ (t : Result B × ActionState W). t.0) h))
  service-bind-eq-ok (some a) f s s' h = (a, refl, h)

  -- If the action returns, then the turns of the context are those that the history service gave
  -- for the resolved conversation of the caller, within the configured number, and the text for the
  -- prompt has at most the configured number of characters.
  pub load-IsRecalled :
      (step : PipelineStepDefinition) (s s' : ActionState W) (route : Option String)
      → load_conversation_history step s ≡ (ok route, s')
      → IsRecalled step s s'
  unfolding load_conversation_history
  load-IsRecalled step s s' route h =
      let c = s.context in
      let (conversation_id, is_resolved, h₁) =
        present-bind-eq-ok "Conversation must be resolved before loading history" c.conversation_id
          _ s s' h in
      let (config, accepted, h₂) = lift-bind-eq-ok (load_conversation_history_config step) _ s h₁ in
      let (service, configured, h₃) = service-bind-eq-ok c.conversation_history _ s s' h₂ in
      let asked =
        service.recent_finalized_turns c.command.authorization conversation_id config.limit
          s.world in
      go conversation_id is_resolved config accepted service configured asked.0 asked.1 refl h₃
    where
      go :
          (conversation_id : String)
          → s.context.conversation_id ≡ some conversation_id
          → (config : LoadConversationHistoryConfig)
          → load_conversation_history_config step ≡ ok config
          → (service : HistoryService W) → s.context.conversation_history ≡ some service
          → (r : Result (List ConversationTurn)) (w : W)
          → service.recent_finalized_turns s.context.command.authorization conversation_id
              config.limit s.world
            ≡ (r, w)
          → (and_then r
              (λ turns.
                assign (λ c. record c {
                  conversation_history_turns = turns;
                  conversation_history_text =
                      format_conversation_history config.max_characters turns;
                })
                >> return none)
              (record s { world = w }))
            ≡ (ok route, s')
          → IsRecalled step s s'
      go conversation_id is_resolved config accepted service configured (err e) w k h =
          absurd (cc (ap (λ (t : Result (Option String) × ActionState W). t.0) h))
      go conversation_id is_resolved config accepted service configured (ok turns) w k h =
          let same = ap (λ (t : Result (Option String) × ActionState W). t.1) h in
          record {
            conversation_id = conversation_id;
            resolved = is_resolved;
            service = service;
            configured = configured;
            config = config;
            accepted = accepted;
            turns = turns;
            answered = k ∙ ap (λ (z : ActionState W). (ok turns, z.world)) same;
            kept = sym (ap (λ (z : ActionState W). z.context.conversation_history_turns) same);
            fits =
                subst
                  (λ (z : ActionState W).
                    text_length z.context.conversation_history_text ≤ config.max_characters)
                  same (format_conversation_history-fits config.max_characters turns);
          }
