-- ===== src/Pipeline/Actions/Retrieve/Readable.antt =====
-- The hits that a retrieval leaves in the context are the caller's to read.
use mathlib.Core.Path.{subst}
use sovereign_flow.Prelude.{
  String, ◌≡◌, ap, true, false, List, [], ◌∷◌, Option, ◌==◌, All, insert, keys, values, mem,
  Bool-cases, inl, inr, Bool, not, ◌||◌, is_empty,
}
use sovereign_flow.Result.{Result, ok}
use sovereign_flow.Effect.{bind-eq-ok, lift-bind-eq-ok}
use sovereign_flow.Library.{Library}
use sovereign_flow.Domain.Chunk.{SearchHit}
use sovereign_flow.Domain.Profile.{new_search_request, new_graph_request}
use sovereign_flow.Pipeline.Definition.{PipelineStepDefinition}
use sovereign_flow.Pipeline.Context.{PipelineContext, ActionState, call}
use sovereign_flow.Pipeline.Actions.Boundary.{
  IsReadable, verify_retrieval_boundary, verify-IsReadable,
}
use sovereign_flow.Pipeline.Actions.RetrieveConfig.{
  ExpandGraphConfig, retrieve_config, expand_graph_config,
}
use sovereign_flow.Pipeline.Actions.Retrieve.{
  by_chunk_id, with_defaults, united, retrieval_query, search_request, retrieve, graph_request,
  expanded, expand_unless, expand_graph,
}

-- A property of every value of a dictionary that both replacing and adding keep.
All-insert :
    (P : SearchHit → Type 0) (key : String) (hit : SearchHit) (m : List (String × SearchHit))
    → P hit
    → All P (values m)
    → All P (values (insert key hit m))
All-insert P key hit [] p h = (p, tt)
All-insert P key hit ((j, other) ∷ m) p h = elim (Bool-cases (key == j)) [
  | inl same ↦ rw same (p, h.1)
  | inr different ↦ rw different (h.0, All-insert P key hit m p h.1)
]

All-by_chunk_id :
    (P : SearchHit → Type 0) (hits : List SearchHit) (m : List (String × SearchHit))
    → All P hits
    → All P (values m)
    → All P (values (by_chunk_id hits m))
unfolding by_chunk_id
All-by_chunk_id P [] m h k = k
All-by_chunk_id P (hit ∷ hits) m h k =
    All-by_chunk_id P hits (insert hit.chunk.chunk_id hit m) h.1
      (All-insert P hit.chunk.chunk_id hit m h.0 k)

All-with_defaults :
    (P : SearchHit → Type 0) (hits : List SearchHit) (m : List (String × SearchHit))
    → All P hits
    → All P (values m)
    → All P (values (with_defaults hits m))
unfolding with_defaults
All-with_defaults P [] m h k = k
All-with_defaults P (hit ∷ hits) m h k = elim (Bool-cases (mem hit.chunk.chunk_id (keys m))) [
  | inl known ↦ rw known (All-with_defaults P hits m h.1 k)
  | inr new ↦ rw new (
      All-with_defaults P hits (insert hit.chunk.chunk_id hit m) h.1
        (All-insert P hit.chunk.chunk_id hit m h.0 k))
]

All-united :
    (P : SearchHit → Type 0) (seed_hits expanded : List SearchHit)
    → All P seed_hits
    → All P expanded
    → All P (united seed_hits expanded)
unfolding united
All-united P seed_hits expanded h k =
    All-with_defaults P expanded (by_chunk_id seed_hits []) k (All-by_chunk_id P seed_hits [] h tt)

module _ {W : Type 0} where
  -- The caller of the context may read these hits in its domain.
  abbrev pub Readable : PipelineContext W → List SearchHit → Type 0
  Readable c hits = All (λ hit. IsReadable c.domain c.command.authorization hit.chunk) hits

  -- If the retrieval returns, then the caller may read every hit and every seed that it leaves.
  pub retrieve-Readable :
      (lib : Library) (step : PipelineStepDefinition) (s s' : ActionState W) (route : Option String)
      → retrieve lib step s ≡ (ok route, s')
      → Readable s'.context s'.context.seed_hits × Readable s'.context s'.context.hits
  unfolding retrieve
  retrieve-Readable lib step s s' route h =
      let (config, _, h₁) = lift-bind-eq-ok (retrieve_config step) _ s h in
      let (query, _, h₂) = lift-bind-eq-ok (retrieval_query config.query_source s.context) _ s h₁ in
      let (request, _, h₃) =
        lift-bind-eq-ok (new_search_request (search_request config s.context query)) _ s h₂ in
      let (found, s₄, e, h₄) = bind-eq-ok (call (s.context.retrieval request)) _ s h₃ in
      let (_, k, h₅) =
        lift-bind-eq-ok
          (verify_retrieval_boundary s.context.domain s.context.command.authorization found) _ _
          h₄ in
      let here = verify-IsReadable s.context.domain s.context.command.authorization found k in
      let same = ap (λ (t : Result (List SearchHit) × ActionState W). t.1.context) e in
      let there = subst (λ c. Readable c found) same here in
      let after = ap (λ (t : Result (Option String) × ActionState W). t.1.context) h₅ in
      subst (λ c. Readable c c.seed_hits × Readable c c.hits) after (there, there)

  expanded-Readable :
      (config : ExpandGraphConfig) (s s' : ActionState W) (route : Option String)
      → expanded config s.context s ≡ (ok route, s')
      → Readable s.context s.context.seed_hits
      → Readable s'.context s'.context.hits
  unfolding expanded
  expanded-Readable config s s' route h r =
      let (request, _, h₁) =
        lift-bind-eq-ok (new_graph_request (graph_request config s.context)) _ s h in
      let (found, s₂, e, h₂) = bind-eq-ok (call (s.context.graph request)) _ s h₁ in
      let (_, k, h₃) =
        lift-bind-eq-ok
          (verify_retrieval_boundary s.context.domain s.context.command.authorization found) _ s₂
          h₂ in
      let here = verify-IsReadable s.context.domain s.context.command.authorization found k in
      let same = ap (λ (t : Result (List SearchHit) × ActionState W). t.1.context) e in
      let there =
        subst (λ c. Readable c (united c.seed_hits found)) same
          (All-united (λ hit. IsReadable s.context.domain s.context.command.authorization hit.chunk)
            s.context.seed_hits found r here) in
      let after = ap (λ (t : Result (Option String) × ActionState W). t.1.context) h₃ in
      subst (λ c. Readable c c.hits) after there

  expand_unless-Readable :
      (skip : Bool) (config : ExpandGraphConfig) (s s' : ActionState W) (route : Option String)
      → expand_unless skip config s.context s ≡ (ok route, s')
      → Readable s.context s.context.seed_hits
      → Readable s.context s.context.hits
      → Readable s'.context s'.context.hits
  unfolding expand_unless
  expand_unless-Readable true config s s' route h r hits =
      subst (λ c. Readable c c.hits)
        (ap (λ (t : Result (Option String) × ActionState W). t.1.context) h) hits
  expand_unless-Readable false config s s' route h r hits = expanded-Readable config s s' route h r

  -- If the caller may read the seeds and the hits of a context, then it may read every hit that a
  -- graph expansion leaves when it returns.
  pub expand_graph-Readable :
      (step : PipelineStepDefinition) (s s' : ActionState W) (route : Option String)
      → expand_graph step s ≡ (ok route, s')
      → Readable s.context s.context.seed_hits
      → Readable s.context s.context.hits
      → Readable s'.context s'.context.hits
  unfolding expand_graph
  expand_graph-Readable step s s' route h r hits =
      let (config, _, h₁) = lift-bind-eq-ok (expand_graph_config step) _ s h in
      expand_unless-Readable (not config.enabled || is_empty s.context.hits) config s s' route h₁ r
        hits
