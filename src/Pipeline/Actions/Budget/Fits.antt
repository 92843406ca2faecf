-- ===== src/Pipeline/Actions/Budget/Fits.antt =====
-- What `_build_context` keeps of the hits, and how long the evidence gets.
use sovereign_flow.Prelude.{
  ℕ, suc, ◌+◌, ◌-◌, ◌*◌, ◌≤◌, ◌<◌, String, ◌≡◌, refl, ap, ◌∙◌, true, List, [], ◌∷◌, ◌++◌, ◌==◌, ltb,
  arith, length, Bool-cases, inl, inr, ◌⊎◌, sym,
}
use mathlib.Core.Path.{subst}
use sovereign_flow.Result.{ok, ok_injective, >>=-eq-ok}
use sovereign_flow.Text.Strip.{strip, required, required-eq-ok}
use sovereign_flow.Library.{Library}
use sovereign_flow.Text.Words.{text_length, text_take, text_length-take, text_length-append, join}
use sovereign_flow.Domain.Chunk.{SearchHit, chunk_ids, Citation, new_citation}
use sovereign_flow.Pipeline.Actions.Budget.{
  Built, block_of, citation_of, with_block, build_from, separator, evidence_of, build_context,
}

abbrev pub total_length : List String → ℕ
total_length [] = 0
total_length (s ∷ rest) = text_length s + total_length rest

-- The citation is that of the hit, its identifiers and its type stripped.
pub record IsCitation (c : Citation) (hit : SearchHit) : Type 0 where
  pub source_id : c.source_id ≡ strip hit.chunk.source_id
  pub chunk_id : c.chunk_id ≡ strip hit.chunk.chunk_id
  pub source_uri : c.source_uri ≡ hit.chunk.source_uri
  pub score : c.score ≡ hit.score
  pub score_type : c.score_type ≡ strip hit.score_type
  pub metadata : c.metadata ≡ hit.chunk.metadata

citation_of-IsCitation :
    (hit : SearchHit) (c : Citation) → citation_of hit ≡ ok c → IsCitation c hit
unfolding citation_of new_citation
citation_of-IsCitation hit c h =
    let (a, ea, h₁) = >>=-eq-ok (required hit.chunk.source_id "Citation.source_id") _ h in
    let (b, eb, h₂) = >>=-eq-ok (required hit.chunk.chunk_id "Citation.chunk_id") _ h₁ in
    let (d, ed, h₃) = >>=-eq-ok (required hit.score_type "Citation.score_type") _ h₂ in
    subst (λ x. IsCitation x hit) (ok_injective h₃)
      (record {
        source_id = (required-eq-ok hit.chunk.source_id _ a ea).0;
        chunk_id = (required-eq-ok hit.chunk.chunk_id _ b eb).0;
        source_uri = refl;
        score = refl;
        score_type = (required-eq-ok hit.score_type _ d ed).0;
        metadata = refl;
      })

-- The citations are those of the first hits, in their order.
abbrev pub CitesFirst : List Citation → List SearchHit → Type 0
CitesFirst [] hits = Unit
CitesFirst (c ∷ citations) [] = ⊥
CitesFirst (c ∷ citations) (hit ∷ hits) = IsCitation c hit × CitesFirst citations hits

-- What the loop keeps of the hits, from `used` characters on.
pub record Keeps (maximum used : ℕ) (hits : List SearchHit) (b : Built) : Type 0 where
  pub within : used + total_length b.blocks ≤ maximum
  pub partition : b.included ++ b.omitted ≡ chunk_ids hits
  pub cited : length b.citations ≡ length b.included
  pub named : CitesFirst b.citations hits
  pub shown : length b.blocks ≡ length b.included

Keeps-with_block :
    (maximum used : ℕ) (hit : SearchHit) (hits : List SearchHit) (selected : String)
    (citation : Citation) (rest : Built)
    → IsCitation citation hit
    → Keeps maximum (used + text_length selected) hits rest
    → Keeps maximum used (hit ∷ hits) (with_block selected citation hit.chunk.chunk_id rest)
unfolding with_block
Keeps-with_block maximum used hit hits selected citation rest c k = record {
  within = omega (arith, k.within);
  partition = ap (◌∷◌ hit.chunk.chunk_id) k.partition;
  cited = ap suc k.cited;
  named = (c, k.named);
  shown = ap suc k.shown;
}

build_from-Keeps :
    (lib : Library) (maximum used : ℕ) (hits : List SearchHit) (b : Built)
    → used ≤ maximum
    → build_from lib maximum used hits ≡ ok b
    → Keeps maximum used hits b
unfolding build_from
build_from-Keeps lib maximum used [] b u h =
    subst (Keeps maximum used []) (ok_injective h)
      (record { within = omega arith; partition = refl; cited = refl; named = tt; shown = refl })
build_from-Keeps lib maximum used (hit ∷ hits) b u h =
    let block = block_of lib hit in
    let selected = text_take (maximum - used) block in
    let short = text_length-take (maximum - used) block in
    let (citation, ec, h₁) = >>=-eq-ok (citation_of hit) _ h in
    elim (Bool-cases (ltb (text_length selected) (text_length block))) [
      | inl cut ↦ subst (Keeps maximum used (hit ∷ hits)) (ok_injective (rw cut at h₁)) (
          Keeps-with_block maximum used hit hits selected citation _
            (citation_of-IsCitation hit citation ec)
            (record {
              within = omega arith;
              partition = refl;
              cited = refl;
              named = tt;
              shown = refl;
            }))
      | inr whole ↦
          let h₂ = rw whole at h₁ in
          let (rest, er, h₃) =
            >>=-eq-ok (build_from lib maximum (used + text_length selected) hits) _ h₂ in
          subst (Keeps maximum used (hit ∷ hits)) (ok_injective h₃) (
            Keeps-with_block maximum used hit hits selected citation rest
              (citation_of-IsCitation hit citation ec)
              (build_from-Keeps lib maximum (used + text_length selected) hits rest (omega arith)
                er))
    ]

join-length :
    (blocks : List String)
    → text_length (join separator blocks) ≤ total_length blocks + 7 * (length blocks - 1)
unfolding join text_length
join-length [] = omega arith
join-length (s ∷ []) = omega arith
join-length (s ∷ t ∷ rest) =
    rw text_length-append (rw text_length-append (omega (arith, join-length (t ∷ rest))))

abbrev pub no_evidence : String
no_evidence = "No relevant evidence was retrieved."

evidence_length :
    (blocks : List String)
    → (evidence_of blocks ≡ no_evidence)
      ⊎ (text_length (evidence_of blocks) ≤ total_length blocks + 7 * (length blocks - 1))
unfolding evidence_of
evidence_length blocks = elim (Bool-cases (join separator blocks == "")) [
  | inl nothing ↦ inl (rw nothing)
  | inr something ↦ inr (rw something (join-length blocks))
]

-- The budget of a context: the chunks that are included, followed by those that are omitted, are
-- the chunks of the hits in their order; there are as many citations as included chunks, and the
-- i-th citation is that of the i-th hit, with its identifiers; and the evidence is the notice that
-- there is none, or its blocks have at most `maximum` characters, beside the separators of seven
-- characters between them.
pub build_context-fits :
    (lib : Library) (hits : List SearchHit) (maximum : ℕ) (evidence : String)
    (citations : List Citation) (included omitted : List String)
    → build_context lib hits maximum ≡ ok (evidence, citations, included, omitted)
    → (included ++ omitted ≡ chunk_ids hits)
      × (length citations ≡ length included)
      × CitesFirst citations hits
      × ((evidence ≡ no_evidence) ⊎ (text_length evidence ≤ maximum + 7 * (length included - 1)))
unfolding build_context
build_context-fits lib hits maximum evidence citations included omitted h =
    let (b, e, h') = >>=-eq-ok (build_from lib maximum 0 hits) _ h in
    let k = build_from-Keeps lib maximum 0 hits b (omega arith) e in
    let same = ok_injective h' in
    let evidence_eq : evidence_of b.blocks ≡ evidence = ap (λ r. r.0) same in
    let citations_eq : b.citations ≡ citations = ap (λ r. r.1) same in
    let included_eq : b.included ≡ included = ap (λ r. r.2) same in
    let omitted_eq : b.omitted ≡ omitted = ap (λ r. r.3) same in
    (
      cc (k.partition),
      cc (k.cited),
      subst (λ cs. CitesFirst cs hits) citations_eq k.named,
      bound b k (evidence_length b.blocks) evidence_eq included_eq,
    )
  where
    bound :
        (b : Built)
        → Keeps maximum 0 hits b
        → (evidence_of b.blocks ≡ no_evidence)
          ⊎ (text_length (evidence_of b.blocks) ≤ total_length b.blocks + 7 * (length b.blocks - 1))
        → evidence_of b.blocks ≡ evidence
        → b.included ≡ included
        → (evidence ≡ no_evidence) ⊎ (text_length evidence ≤ maximum + 7 * (length included - 1))
    bound b k (inl nothing) e i = inl (cc)
    bound b k (inr fits) e i =
        inr (omega (arith, k.within, k.shown, ap text_length e, ap (length {A = String}) i))

block-pos : (lib : Library) (hit : SearchHit) → 0 < text_length (block_of lib hit)
unfolding block_of text_length
block-pos lib hit = rw text_length-append (omega arith)

take_none : (maximum : ℕ) (s : String) → text_take (maximum - maximum) s ≡ ""
unfolding text_take
take_none maximum s = let e : maximum - maximum ≡ 0 = omega arith in rw e

-- Once the budget is used up exactly, the next hit is still included, with an empty block and its own
-- citation, the only one, and the hits after it are omitted.
pub exhausted_cites :
    (lib : Library) (maximum : ℕ) (hit : SearchHit) (hits : List SearchHit) (b : Built)
    → build_from lib maximum maximum (hit ∷ hits) ≡ ok b
    → (b.blocks ≡ "" ∷ [])
      × (b.included ≡ hit.chunk.chunk_id ∷ [])
      × ((c : Citation) × (b.citations ≡ c ∷ []) × IsCitation c hit)
      × (b.omitted ≡ chunk_ids hits)
unfolding build_from with_block text_length
exhausted_cites lib maximum hit hits b h =
    let block = block_of lib hit in
    let nothing = take_none maximum block in
    let cut : ltb (text_length (text_take (maximum - maximum) block)) (text_length block) ≡ true =
      rw nothing (ground (arith, block-pos lib hit)) in
    let (citation, ec, h₁) = >>=-eq-ok (citation_of hit) _ h in
    let same = ok_injective (rw cut at h₁) in
    (
      sym (ap (λ (b : Built). b.blocks) same) ∙ ap (λ s. s ∷ []) nothing,
      sym (ap (λ (b : Built). b.included) same),
      (
        citation,
        sym (ap (λ (b : Built). b.citations) same),
        citation_of-IsCitation hit citation ec,
      ),
      sym (ap (λ (b : Built). b.omitted) same),
    )
