-- ===== src/Pipeline/Diagnostics.antt =====
-- `_diagnostics` of sovereignflow/application/pipeline.py. `int` and `tuple` of Python, which may
-- raise on a value of a chunk's metadata, are the library's.
use sovereign_flow.Prelude.{
  ℕ, suc, String, List, [], ◌∷◌, Option, none, some, lookup, insert, keys, mem, if◌then◌else◌,
}
use sovereign_flow.Result.{Result, ok, ◌>>=◌}
use sovereign_flow.Text.Words.{text_length}
use sovereign_flow.Value.{Value}
use sovereign_flow.Library.{Library}
use sovereign_flow.Domain.Chunk.{SearchHit}
use sovereign_flow.Pipeline.Context.{PipelineContext}
use sovereign_flow.Pipeline.Run.{RetrievalDiagnostic, QueryDiagnostics}

-- `origins.update(...)` with one origin for each hit.
unfoldable pub with_origin :
    String → List SearchHit → List (String × String) → List (String × String)
with_origin origin [] origins = origins
with_origin origin (hit ∷ hits) origins =
    with_origin origin hits (insert hit.chunk.chunk_id origin origins)

-- The hits that have no origin so far.
unfoldable pub without_origin : List (String × String) → List SearchHit → List SearchHit
without_origin origins [] = []
without_origin origins (hit ∷ hits) =
    let rest = without_origin origins hits in
    if mem hit.chunk.chunk_id (keys origins) then rest else hit ∷ rest

unfoldable pub chunk_origins : List SearchHit → List SearchHit → List (String × String)
unfolding with_origin without_origin
chunk_origins seed_hits graph_hits =
    let seeds = with_origin "seed" seed_hits [] in
    with_origin "graph" (without_origin seeds graph_hits) seeds

-- `origins.get(chunk_id, "seed")`
unfoldable pub origin_or_seed : Option String → String
origin_or_seed none = "seed"
origin_or_seed (some origin) = origin

unfoldable pub graph_depth_of : Library → Option Value → Result (Option Value)
graph_depth_of lib none = ok none
graph_depth_of lib (some v) = do depth ← lib.to_int v; ok (some depth)

unfoldable pub graph_path_of : Library → Option Value → Result (List Value)
graph_path_of lib none = ok []
graph_path_of lib (some v) = lib.to_tuple v

unfoldable pub retrieval_diagnostics :
    Library → List (String × String) → ℕ → List SearchHit → Result (List RetrievalDiagnostic)
unfolding graph_depth_of graph_path_of origin_or_seed
retrieval_diagnostics lib origins index [] = ok []
retrieval_diagnostics lib origins index (hit ∷ hits) = do
  depth ← graph_depth_of lib (lookup "graph_depth" hit.chunk.metadata)
  path ← graph_path_of lib (lookup "graph_path" hit.chunk.metadata)
  rest ← retrieval_diagnostics lib origins (suc index) hits
  ok (
      record {
        chunk_id = hit.chunk.chunk_id;
        source_id = hit.chunk.source_id;
        score = hit.score;
        score_type = hit.score_type;
        rank = index;
        origin = origin_or_seed (lookup hit.chunk.chunk_id origins);
        graph_depth = depth;
        graph_path = path;
      }
      ∷ rest)

module _ {W : Type 0} where
  unfoldable pub diagnostics : Library → PipelineContext W → Result QueryDiagnostics
  unfolding chunk_origins retrieval_diagnostics
  diagnostics lib c = do
    let authorization = c.command.authorization
    retrieval ← retrieval_diagnostics lib (chunk_origins c.seed_hits c.graph_hits) 1 c.hits
    ok (record {
      contract_version = "1.0";
      subject_hash = lib.sha256 authorization.subject;
      tenant_id = authorization.tenant_id;
      allowed_acl_labels = authorization.acl_labels;
      security_model_kind = c.domain.security_model.kind;
      search_mode = c.domain.retrieval.mode;
      retrieval = retrieval;
      omitted_chunk_ids = c.omitted_chunk_ids;
      context_chunk_ids = c.context_chunk_ids;
      context_characters = text_length c.evidence;
      provider = c.model.name;
      model = c.model.model_id;
      prompt_key = c.prompt_key;
      model_transmission = record {
        checked = c.model_transmission_checked;
        allowed = c.model_transmission_allowed;
        reason_code = c.model_transmission_reason_code;
        selected_model_server_id = c.model_transmission_selected_server_id;
        final_model_server_id = c.model_transmission_final_server_id;
        rerouted = c.model_transmission_rerouted;
        trust_boundary = c.model_transmission_trust_boundary;
        external_transmission = c.model_transmission_external_policy;
        context_security_requirement = c.model_transmission_context_requirement;
        checked_chunk_ids = c.model_transmission_checked_chunk_ids;
        blocked_chunk_ids = c.model_transmission_blocked_chunk_ids;
      };
      system_prompt_hash = c.system_prompt_hash;
      prompt_tokens = c.prompt_tokens;
      completion_tokens = c.completion_tokens;
      model_duration_ms = c.model_duration_ms;
      pipeline_trace = c.trace;
    })
