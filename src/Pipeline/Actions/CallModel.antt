-- ===== src/Pipeline/Actions/CallModel.antt =====
-- sovereignflow/application/actions/call_model.py: the prompt, and the call of the model.
pub mod Guarded
use sovereign_flow.Prelude.{
  ℕ, suc, ◌+◌, ◌-◌, String, Bool, true, false, List, [], ◌∷◌, Option, none, some, ◌==◌,
  if◌then◌else◌,
}
use sovereign_flow.Result.{Result, ok, err, policy_violated, bad_execution}
use sovereign_flow.Effect.{Effect, return, lift, require, ◌>>=◌, ◌>>◌}
use sovereign_flow.Library.{Library}
use sovereign_flow.Text.Words.{join}
use sovereign_flow.Value.{Float}
use sovereign_flow.Domain.Chunk.{SearchHit, Citation}
use sovereign_flow.Domain.Profile.{ModelGeneration}
use sovereign_flow.Pipeline.Definition.{PipelineStepDefinition}
use sovereign_flow.Pipeline.Context.{PipelineContext, Action, call, ask, assign}
use sovereign_flow.Pipeline.Actions.CallModelConfig.{
  UserPromptPart, CallModelConfig, call_model_config,
}
use sovereign_flow.Pipeline.Actions.Budget.{concat_all}

unfoldable pub uri_text : Option String → String
uri_text none = "None"
uri_text (some uri) = uri

-- The lines of `_citations_text`, numbered from `index`.
unfoldable pub citation_lines : Library → ℕ → List Citation → List String
unfolding uri_text
citation_lines lib index [] = []
citation_lines lib index (c ∷ rest) =
    concat_all (
      lib.format_number index
      ∷ ". source_id="
      ∷ c.source_id
      ∷ "; chunk_id="
      ∷ c.chunk_id
      ∷ "; "
      ∷ c.score_type
      ∷ "="
      ∷ lib.format_score c.score
      ∷ "; uri="
      ∷ uri_text c.source_uri
      ∷ [])
    ∷ citation_lines lib (suc index) rest

unfoldable pub citations_text : Library → List Citation → String
unfolding citation_lines
citations_text lib citations = join "\n" (citation_lines lib 1 citations)

-- The lines of `_retrieval_trace_summary`, numbered from `index`.
unfoldable pub hit_lines : Library → ℕ → List SearchHit → List String
hit_lines lib index [] = []
hit_lines lib index (hit ∷ rest) =
    concat_all (
      lib.format_number index
      ∷ ". source_id="
      ∷ hit.chunk.source_id
      ∷ "; chunk_id="
      ∷ hit.chunk.chunk_id
      ∷ "; "
      ∷ hit.score_type
      ∷ "="
      ∷ lib.format_score hit.score
      ∷ [])
    ∷ hit_lines lib (suc index) rest

unfoldable pub retrieval_trace_summary : Library → List SearchHit → String
unfolding hit_lines
retrieval_trace_summary lib hits = join "\n" (hit_lines lib 1 hits)

module _ {W : Type 0} (lib : Library) where
  -- `_source_value`
  unfoldable pub source_value : PipelineContext W → String → Result String
  unfolding citations_text retrieval_trace_summary
  source_value context source =
      if source == "normalized_query"
      then ok context.normalized_query
      else if source == "evidence"
      then ok context.evidence
      else if source == "context_chunk_ids"
      then ok (join "\n" context.context_chunk_ids)
      else if source == "citations_text"
      then ok (citations_text lib context.citations)
      else if source == "retrieval_trace_summary"
      then ok (retrieval_trace_summary lib context.hits)
      else if source == "conversation_history"
      then ok context.conversation_history_text
      else err (bad_execution "Unsupported call_model source")

  -- The texts of the parts, in order; the first failure wins.
  unfoldable pub rendered_parts : PipelineContext W → List UserPromptPart → Action W (List String)
  unfolding source_value
  rendered_parts context [] = return []
  rendered_parts context (part ∷ parts) = do
    value ← lift (source_value context part.source)
    text ← lift (lib.format_template part.template value)
    rest ← rendered_parts context parts
    return (text ∷ rest)

  -- The clock is read in milliseconds before and after; a clock that went back counts as no time.
  unfoldable pub call_model : Effect W ℕ → PipelineStepDefinition → Action W (Option String)
  unfolding rendered_parts
  call_model monotonic step = do
    context ← ask (λ c. c)
    require context.model_transmission_checked
        (bad_execution "Model transmission policy has not been enforced")
    require context.model_transmission_allowed
        (policy_violated "Model transmission policy blocked the model call")
    config ← lift (call_model_config step)
    system_prompt ← call (context.prompts config.prompt_key)
    parts ← rendered_parts context config.user_parts
    assign (λ c. record c {
      prompt_key = config.prompt_key;
      system_prompt_hash = lib.sha256 system_prompt;
    })
    begun ← call monotonic
    generation ←
        call (context.model.generate system_prompt (concat_all parts) config.generation_parameters)
    done ← call monotonic
    assign (λ c. record c {
      model_duration_ms = done - begun;
      answer = generation.text;
      last_model_response = generation.text;
      prompt_tokens = generation.prompt_tokens;
      completion_tokens = generation.completion_tokens;
      estimated_cost = generation.estimated_cost;
    })
    return none
