-- ===== src/Text/Strip/Length.antt =====
-- Stripping makes no text longer.
use Prim.Native.Char.{Char, code}
use sovereign_flow.Prelude.{suc, ◌≤◌, String, arith, Bool-cases, inl, inr}
use sovereign_flow.Text.Strip.{strip, lstrip, rstrip, before, is_space}
use sovereign_flow.Text.Words.{text_length}

text_length-before : (c : Char) (s : String) → text_length (before c s) ≤ suc (text_length s)
unfolding before text_length
text_length-before c String.[] = elim (Bool-cases (is_space (code c))) [
  | inl space ↦ rw space (omega arith)
  | inr text ↦ rw text (omega arith)
]
text_length-before c (String.◌∷◌ d s) = omega arith

text_length-lstrip : (s : String) → text_length (lstrip s) ≤ text_length s
unfolding lstrip text_length
text_length-lstrip String.[] = omega arith
text_length-lstrip (String.◌∷◌ c s) = elim (Bool-cases (is_space (code c))) [
  | inl space ↦ rw space (omega (arith, text_length-lstrip s))
  | inr text ↦ rw text (omega arith)
]

text_length-rstrip : (s : String) → text_length (rstrip s) ≤ text_length s
unfolding rstrip text_length
text_length-rstrip String.[] = omega arith
text_length-rstrip (String.◌∷◌ c s) =
    omega (arith, text_length-before c (rstrip s), text_length-rstrip s)

pub text_length-strip : (s : String) → text_length (strip s) ≤ text_length s
unfolding strip
text_length-strip s = omega (arith, text_length-rstrip (lstrip s), text_length-lstrip s)
