-- ===== src/Domain/Server/ClearanceCover.antt =====
-- Clearance levels: a server that is allowed for a context is cleared for every document of it.
use sovereign_flow.Prelude.{
  ℕ, String, ◌≡◌, refl, ap, true, ◌≤◌, List, [], ◌∷◌, Option, none, some, arith, lookup, All,
  All-map, Bool-cases, inl, inr, if◌then◌else◌,
}
use mathlib.Core.Option
use sovereign_flow.Prelude.Int.{ℤ, pos, negsuc, ltb_ℤ}
use sovereign_flow.Result.{ok, >>=-eq-ok}
use sovereign_flow.Text.Strip.{strip, required, required-eq-ok}
use sovereign_flow.Domain.Security.{
  clearance_kind, ClearanceLevelModel, clearance_value, SecurityDecision, required_option,
}
use sovereign_flow.Domain.Security.Accepted.{HasLevel, HasLevel-strip, clearance_value-eq-ok}
use sovereign_flow.Domain.Security.Visibility.{Cleared}
use sovereign_flow.Domain.Chunk.{SearchHit}
use sovereign_flow.Domain.Server.{
  ModelServerSecurityProfile, ContextSecurityRequirement, new_context_security_requirement,
  present_label, highest_clearance, server_clearance_decision,
}

-- The label has a level of at least `n`.
record Top (c : ClearanceLevelModel) (label : Option String) (n : ℕ) : Type 0 where
  name : String
  level : ℕ
  named : label ≡ some name
  has : HasLevel c name level
  above : n ≤ level

-- The loop's state: the value is that of the label.
abbrev Held : ClearanceLevelModel → Option String → ℤ → Type 0
Held c label (pos n) = (t : String) × (label ≡ some t) × HasLevel c t n
Held c label (negsuc n) = Unit

Top-le :
    (c : ClearanceLevelModel) (label : Option String) (m n : ℕ)
    → m ≤ n
    → Top c label n
    → Top c label m
Top-le c label m n h t = record {
  name = t.name;
  level = t.level;
  named = t.named;
  has = t.has;
  above = omega (arith, t.above);
}

record Taken (c : ClearanceLevelModel) (label : Option String) (value : ℤ) (old : ℤ) (v : ℕ)
    : Type 0 where
  next : ℕ
  is_next : value ≡ pos next
  held : Held c label value
  at_least : v ≤ next
  grows : (n : ℕ) → old ≡ pos n → n ≤ next

take_hit :
    (c : ClearanceLevelModel) (l : String) (v : ℕ) (label : Option String) (value : ℤ)
    → HasLevel c l v
    → Held c label value
    → Taken c
        (if ltb_ℤ value (pos v) then some l else label)
        (if ltb_ℤ value (pos v) then pos v else value)
        value
        v
take_hit c l v label (pos k) has h = elim (Bool-cases (ltb_ℤ (pos k) (pos v))) [
  | inl less ↦ rw less (record {
    next = v;
    is_next = refl;
    held = (l, refl, has);
    at_least = omega arith;
    grows = λ n e. ground arith;
  })
  | inr more ↦ rw more (record {
    next = k;
    is_next = refl;
    held = h;
    at_least = ground arith;
    grows = λ n e. ground arith;
  })
]
take_hit c l v label (negsuc k) has h =
    let first : ltb_ℤ (negsuc k) (pos v) ≡ true = ground arith in
    rw first (record {
      next = v;
      is_next = refl;
      held = (l, refl, has);
      at_least = omega arith;
      grows = λ n e. cc;
    })

-- The hit's document has a label with a level.
record Levelled (c : ClearanceLevelModel) (hit : SearchHit) (result : Option String) : Type 0 where
  label : String
  level : ℕ
  labelled : hit.chunk.security.clearance_label ≡ some label
  has : HasLevel c label level
  topped : Top c result level

present_label-eq-ok :
    (label : Option String) (l : String) → present_label label ≡ ok l → label ≡ some l
unfolding present_label
present_label-eq-ok label l h = ground arith

highest_clearance-Top :
    (c : ClearanceLevelModel) (hits : List SearchHit) (label : Option String) (value : ℤ)
    (result : Option String)
    → Held c label value
    → highest_clearance c hits label value ≡ ok result
    → All (λ hit. Levelled c hit result) hits × ((n : ℕ) → value ≡ pos n → Top c result n)
unfolding highest_clearance
highest_clearance-Top c [] label (pos k) result (t, named, has) h = (
  tt,
  λ n e. record { name = t; level = k; named = ground arith; has = has; above = ground arith },
)
highest_clearance-Top c [] label (negsuc k) result held h = (tt, λ n e. cc)
highest_clearance-Top c (hit ∷ hits) label value result held h =
    let (l, el, h') = >>=-eq-ok (present_label hit.chunk.security.clearance_label) _ h in
    let (v, ev, h'') = >>=-eq-ok (clearance_value c l _) _ h' in
    let has = clearance_value-eq-ok c l _ v ev in
    let taken = take_hit c l v label value has held in
    let (rest, kept) = highest_clearance-Top c hits _ _ result taken.held h'' in
    let top = kept taken.next taken.is_next in
    (
      (
        record {
          label = l;
          level = v;
          labelled = present_label-eq-ok _ l el;
          has = has;
          topped = Top-le c result v taken.next taken.at_least top;
        },
        rest,
      ),
      λ n e. Top-le c result n taken.next (taken.grows n e) top,
    )

HasLevel-unique :
    (c : ClearanceLevelModel) (s t : String) (m n : ℕ)
    → HasLevel c s m
    → HasLevel c t n
    → s ≡ t
    → m ≡ n
HasLevel-unique c s t m n h k e = cc (h.1, k.1, ap (λ x. lookup (strip x) c.levels) e)

-- What a server with clearance `profile` that is allowed for `needed` dominates.
cover_clearance :
    (c : ClearanceLevelModel) (profile needed : Option String) (d : SecurityDecision) (t : String)
    (m : ℕ)
    → server_clearance_decision (some c) profile needed ≡ ok d
    → d.allowed ≡ true
    → needed ≡ some t
    → HasLevel c t m
    → Top c profile m
unfolding server_clearance_decision
cover_clearance c profile none d t m h g e has = cc
cover_clearance c none (some n) d t m h g e has = absurd (ground arith)
cover_clearance c (some s) (some n) d t m h g e has =
    let (sv, es, h') = >>=-eq-ok (clearance_value c s _) _ h in
    let (nv, en, h'') = >>=-eq-ok (clearance_value c n _) _ h' in
    let equal = HasLevel-unique c n t nv m (clearance_value-eq-ok c n _ nv en) has (cc) in
    record {
      name = s;
      level = sv;
      named = refl;
      has = clearance_value-eq-ok c s _ sv es;
      above = ground arith;
    }

required_option-eq-ok :
    (label : Option String) (field_name t : String) (result : Option String)
    → required_option label field_name ≡ ok result
    → label ≡ some t
    → result ≡ some (strip t)
unfolding required_option
required_option-eq-ok none field_name t result h e = cc
required_option-eq-ok (some l) field_name t result h e =
    let (x, ex, h') = >>=-eq-ok (required l field_name) _ h in
    cc ((required-eq-ok l field_name x ex).0, ap (Option.map strip) e)

requirement_label :
    (label : Option String) (requirement : ContextSecurityRequirement) (t : String)
    → new_context_security_requirement clearance_kind label [] ≡ ok requirement
    → label ≡ some t
    → requirement.clearance_label ≡ some (strip t)
unfolding new_context_security_requirement
requirement_label label requirement t h e =
    let (x, ex, h') = >>=-eq-ok (required_option label _) _ h in
    let e' = required_option-eq-ok label _ t x ex e in ground arith

pub clearance_covers :
    (c : ClearanceLevelModel) (hits : List SearchHit) (profile : ModelServerSecurityProfile)
    (result : Option String) (requirement : ContextSecurityRequirement) (d : SecurityDecision)
    → highest_clearance c hits none (negsuc 0) ≡ ok result
    → new_context_security_requirement clearance_kind result [] ≡ ok requirement
    → server_clearance_decision (some c) profile.clearance_label requirement.clearance_label ≡ ok d
    → d.allowed ≡ true
    → All (λ hit. Cleared c hit.chunk.security.clearance_label profile.clearance_label) hits
clearance_covers c hits profile result requirement d h k s g =
    All-map (λ hit. Levelled c hit result) _ hits
      (λ hit lv.
        let top = lv.topped in
        let needed = requirement_label result requirement top.name k top.named in
        let server =
          cover_clearance c profile.clearance_label requirement.clearance_label d (strip top.name)
            top.level s g needed (HasLevel-strip c top.name top.level top.has) in
        record {
          document_label = lv.label;
          subject_label = server.name;
          document_level = lv.level;
          subject_level = server.level;
          document_named = lv.labelled;
          subject_named = server.named;
          document_has = lv.has;
          subject_has = server.has;
          below = omega (arith, top.above, server.above);
        })
      (highest_clearance-Top c hits none (negsuc 0) result tt h).0
