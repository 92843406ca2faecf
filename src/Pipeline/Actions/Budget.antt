-- ===== src/Pipeline/Actions/Budget.antt =====
-- `_build_context` of sovereignflow/application/actions/_retrieval.py: the evidence that fits the
-- character budget, with its citations.
pub mod Fits
use Prim.Native.String.{◌++◌ as append_text}
use sovereign_flow.Prelude.{
  ℕ, zero, suc, ◌+◌, ◌-◌, ◌*◌, ◌≤◌, ◌<◌, String, ◌≡◌, refl, ap, ◌∙◌, Bool, true, false, List, [],
  ◌∷◌, ◌++◌, ◌==◌, ltb, arith, if◌then◌else◌, length, is_empty, Bool-cases, inl, inr,
}
use sovereign_flow.Result.{Result, ok, err, ◌>>=◌, ◌>>◌, >>=-eq-ok}
use sovereign_flow.Library.{Library}
use sovereign_flow.Text.Words.{text_length, text_take, text_length-take, text_length-append, join}
use sovereign_flow.Domain.Chunk.{SearchHit, chunk_ids, Citation, new_citation}

pub record Built : Type 0 where
  pub blocks : List String
  pub citations : List Citation
  pub included : List String
  pub omitted : List String

abbrev pub concat_all : List String → String
concat_all [] = ""
concat_all (s ∷ rest) = append_text s (concat_all rest)

-- The block of a hit: its reference and its text.
unfoldable pub block_of : Library → SearchHit → String
block_of lib hit = concat_all (
    "[source_id="
    ∷ hit.chunk.source_id
    ∷ "; chunk_id="
    ∷ hit.chunk.chunk_id
    ∷ "; "
    ∷ hit.score_type
    ∷ "="
    ∷ lib.format_score hit.score
    ∷ "]\n"
    ∷ hit.chunk.text
    ∷ [])

unfoldable pub citation_of : SearchHit → Result Citation
citation_of hit = new_citation (record {
  source_id = hit.chunk.source_id;
  chunk_id = hit.chunk.chunk_id;
  source_uri = hit.chunk.source_uri;
  score = hit.score;
  score_type = hit.score_type;
  metadata = hit.chunk.metadata;
})

-- Put a block, its citation and its chunk in front of what follows.
unfoldable pub with_block : String → Citation → String → Built → Built
with_block selected citation chunk_id b = record {
  blocks = selected ∷ b.blocks;
  citations = citation ∷ b.citations;
  included = chunk_id ∷ b.included;
  omitted = b.omitted;
}

-- The loop, with the characters used so far.
unfoldable pub build_from : Library → ℕ → ℕ → List SearchHit → Result Built
unfolding block_of citation_of with_block
build_from lib maximum used [] =
    ok (record { blocks = []; citations = []; included = []; omitted = [] })
build_from lib maximum used (hit ∷ hits) = do
  let block = block_of lib hit
  let selected = text_take (maximum - used) block
  citation ← citation_of hit
  let last = ok (record { blocks = []; citations = []; included = []; omitted = chunk_ids hits })
  rest ←
      if ltb (text_length selected) (text_length block)
      then last
      else build_from lib maximum (used + text_length selected) hits
  ok (with_block selected citation hit.chunk.chunk_id rest)

abbrev pub separator : String
separator = "\n\n---\n\n"

unfoldable pub evidence_of : List String → String
evidence_of blocks =
    let joined = join separator blocks in
    if joined == "" then "No relevant evidence was retrieved." else joined

-- What `_build_context` returns: evidence, citations, and the chunks included and omitted.
unfoldable pub build_context :
    Library → List SearchHit → ℕ → Result (String × List Citation × List String × List String)
unfolding build_from evidence_of
build_context lib hits maximum = do
  b ← build_from lib maximum 0 hits
  ok (evidence_of b.blocks, b.citations, b.included, b.omitted)
