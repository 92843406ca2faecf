-- ===== src/Text/Strip.antt =====
-- `str.strip`, and `_required` of sovereignflow/domain/models.py.
pub mod Length
use Prim.Native.Char.{Char, code}
use Prim.Native.String.{◌++◌ as append_text}
use sovereign_flow.Prelude.{
  ℕ, String, ◌≡◌, ◌≢◌, refl, ap, ◌∙◌, Bool, false, ◌&&◌, ◌||◌, arith, ◌==◌, eq_iff, leb, eqb,
  if◌then◌else◌, Bool-cases, inl, inr,
}
use sovereign_flow.Result.{Result, ok, err, validation}

-- `str.isspace` of one character.
unfoldable pub is_space : ℕ → Bool
is_space c =
    leb 9 c && leb c 13
    || leb 28 c && leb c 32
    || leb 0x2000 c && leb c 0x200a
    || eqb c 0x85
    || eqb c 0xa0
    || eqb c 0x1680
    || eqb c 0x2028
    || eqb c 0x2029
    || eqb c 0x202f
    || eqb c 0x205f
    || eqb c 0x3000

lstrip : String → String
lstrip String.[] = String.[]
lstrip (String.◌∷◌ c s) = if is_space (code c) then lstrip s else String.◌∷◌ c s

-- What stands before the stripped rest of a text.
before : Char → String → String
before c String.[] = if is_space (code c) then String.[] else String.◌∷◌ c String.[]
before c (String.◌∷◌ d s) = String.◌∷◌ c (String.◌∷◌ d s)

rstrip : String → String
rstrip String.[] = String.[]
rstrip (String.◌∷◌ c s) = before c (rstrip s)

unfoldable pub strip : String → String
unfolding lstrip rstrip before is_space
strip s = rstrip (lstrip s)

before-before : (c : Char) (s : String) → rstrip s ≡ s → rstrip (before c s) ≡ before c s
unfolding before rstrip
before-before c String.[] h = elim (Bool-cases (is_space (code c))) [
  | inl space ↦ rw space
  | inr text ↦ rw (text, rstrip, before) (rw text)
]
before-before c (String.◌∷◌ d s) h = ground arith

rstrip-rstrip : (s : String) → rstrip (rstrip s) ≡ rstrip s
unfolding rstrip
rstrip-rstrip String.[] = refl
rstrip-rstrip (String.◌∷◌ c s) = before-before c (rstrip s) (rstrip-rstrip s)

-- A text with no space in front.
abbrev Leads : String → Type 0
Leads String.[] = Unit
Leads (String.◌∷◌ c s) = is_space (code c) ≡ false

Leads-lstrip : (s : String) → Leads (lstrip s)
unfolding lstrip
Leads-lstrip String.[] = tt
Leads-lstrip (String.◌∷◌ c s) = elim (Bool-cases (is_space (code c))) [
  | inl space ↦ rw space (Leads-lstrip s)
  | inr text ↦ rw text text
]

lstrip_of_Leads : (s : String) → Leads s → lstrip s ≡ s
unfolding lstrip
lstrip_of_Leads String.[] h = refl
lstrip_of_Leads (String.◌∷◌ c s) h = rw h

Leads-before : (c : Char) (s : String) → is_space (code c) ≡ false → Leads (before c s)
unfolding before
Leads-before c String.[] h = rw h h
Leads-before c (String.◌∷◌ d s) h = h

Leads-rstrip : (s : String) → Leads s → Leads (rstrip s)
unfolding rstrip
Leads-rstrip String.[] h = tt
Leads-rstrip (String.◌∷◌ c s) h = Leads-before c (rstrip s) h

pub strip-strip : (s : String) → strip (strip s) ≡ strip s
unfolding strip
strip-strip s =
    ap rstrip (lstrip_of_Leads (rstrip (lstrip s)) (Leads-rstrip (lstrip s) (Leads-lstrip s)))
    ∙ rstrip-rstrip (lstrip s)

-- `_required`: the stripped value, which must not be empty.
unfoldable pub required : String → String → Result String
required value field_name =
    let normalized = strip value in
    if normalized == ""
    then err (validation (append_text field_name " is required"))
    else ok normalized

pub required-eq-ok :
    (value field_name result : String)
    → required value field_name ≡ ok result
    → (result ≡ strip value) × (result ≢ "")
unfolding required
required-eq-ok value field_name result h =
    (ground arith, ground (arith, eq_iff (strip value) "", eq_iff result ""))

pub required-strip :
    (value field_name : String) → strip value ≢ "" → required value field_name ≡ ok (strip value)
unfolding required
required-strip value field_name h = ground (arith, eq_iff (strip value) "")

-- The name of the field shows in the error alone.
pub required_any_field :
    (value field_name other result : String)
    → required value field_name ≡ ok result
    → required value other ≡ ok result
unfolding required
required_any_field value field_name other result h = ground (arith, eq_iff (strip value) "")

strip_words : strip " two words\n" ≡ "two words"
unfolding strip
strip_words = refl
