-- ===== src/Text/Words.antt =====
-- The methods of Python's `str` that the actions use: `split`, `splitlines`, `join`, slices,
-- prefixes, and the replacement of each run of spaces by one.
use Prim.Native.Char.{code}
use Prim.Native.String.{◌++◌ as append_text}
use text.Mathlib.TextLemmas.{nil-append, cons-append}
use sovereign_flow.Prelude.{
  ℕ, zero, suc, ◌+◌, ◌≤◌, String, ◌≡◌, refl, ap, Bool, true, false, ◌&&◌, ◌||◌, List, [], ◌∷◌,
  arith, ◌==◌, leb, eqb, if◌then◌else◌,
}
use sovereign_flow.Text.Strip.{is_space, strip}

-- `len(text)`, in code points.
unfoldable pub text_length : String → ℕ
text_length String.[] = 0
text_length (String.◌∷◌ c s) = suc (text_length s)

-- `text[:n]`
unfoldable pub text_take : ℕ → String → String
text_take zero s = String.[]
text_take (suc n) String.[] = String.[]
text_take (suc n) (String.◌∷◌ c s) = String.◌∷◌ c (text_take n s)

pub text_length-take : (n : ℕ) (s : String) → text_length (text_take n s) ≤ n
unfolding text_length text_take
text_length-take zero s = omega arith
text_length-take (suc n) String.[] = omega arith
text_length-take (suc n) (String.◌∷◌ c s) = omega (arith, text_length-take n s)

pub text_length-take-le : (n : ℕ) (s : String) → text_length (text_take n s) ≤ text_length s
unfolding text_length text_take
text_length-take-le zero s = omega arith
text_length-take-le (suc n) String.[] = omega arith
text_length-take-le (suc n) (String.◌∷◌ c s) = omega (arith, text_length-take-le n s)

-- A slice that is as long as the text is the text.
pub text_take_whole :
    (n : ℕ) (s : String) → text_length s ≤ text_length (text_take n s) → text_take n s ≡ s
unfolding text_length text_take
text_take_whole zero String.[] h = refl
text_take_whole zero (String.◌∷◌ c s) h = absurd (omega arith)
text_take_whole (suc n) String.[] h = refl
text_take_whole (suc n) (String.◌∷◌ c s) h = ap (String.◌∷◌ c) (text_take_whole n s (omega arith))

pub text_length-append :
    (s t : String) → text_length (append_text s t) ≡ text_length s + text_length t
unfolding text_length
text_length-append String.[] t = rw nil-append (omega arith)
text_length-append (String.◌∷◌ c s) t = rw cons-append (omega (arith, text_length-append s t))

close_word : String → List String → List String
close_word word rest = if word == "" then rest else word ∷ rest

-- The word that the text begins with, and the words after it, where `ends` tells what ends a word.
open_words : (ℕ → Bool) → String → String × List String
open_words ends String.[] = ("", [])
open_words ends (String.◌∷◌ c s) =
    let (word, rest) = open_words ends s in
    if ends (code c) then ("", close_word word rest) else (String.◌∷◌ c word, rest)

words_by : (ℕ → Bool) → String → List String
words_by ends s = let (word, rest) = open_words ends s in close_word word rest

-- `text.split()`
unfoldable pub split : String → List String
unfolding words_by open_words close_word is_space
split s = words_by is_space s

is_line_end : ℕ → Bool
is_line_end c =
    leb 10 c && leb c 13 || leb 28 c && leb c 30 || eqb c 0x85 || eqb c 0x2028 || eqb c 0x2029

stripped_words : List String → List String
stripped_words [] = []
stripped_words (line ∷ lines) =
    let rest = stripped_words lines in if strip line == "" then rest else strip line ∷ rest

-- `[line.strip() for line in text.splitlines() if line.strip()]`; an empty line is dropped, so
-- "\r\n" may count as two ends.
pub stripped_lines : String → List String
unfolding stripped_words words_by open_words close_word is_line_end strip
stripped_lines s = stripped_words (words_by is_line_end s)

-- `separator.join(texts)`
unfoldable pub join : String → List String → String
join separator [] = ""
join separator (s ∷ []) = s
join separator (s ∷ t ∷ rest) = append_text s (append_text separator (join separator (t ∷ rest)))

-- `text.startswith(prefix)`
unfoldable pub starts_with : String → String → Bool
starts_with s String.[] = true
starts_with String.[] (String.◌∷◌ d prefix) = false
starts_with (String.◌∷◌ c s) (String.◌∷◌ d prefix) = eqb (code c) (code d) && starts_with s prefix

text_drop : ℕ → String → String
text_drop zero s = s
text_drop (suc n) String.[] = String.[]
text_drop (suc n) (String.◌∷◌ c s) = text_drop n s

-- `text.removeprefix(prefix)`
pub remove_prefix : String → String → String
unfolding text_drop starts_with text_length
remove_prefix s prefix = if starts_with s prefix then text_drop (text_length prefix) s else s

-- `piece in text`
unfoldable pub contains_text : String → String → Bool
contains_text piece String.[] = piece == ""
contains_text piece (String.◌∷◌ c s) = starts_with (String.◌∷◌ c s) piece || contains_text piece s

collapse_from : Bool → String → String
collapse_from in_space String.[] = String.[]
collapse_from in_space (String.◌∷◌ c s) = elim (is_space (code c)) [
  | true ↦ elim in_space [
    | true ↦ collapse_from true s
    | false ↦ append_text " " (collapse_from true s)
  ]
  | false ↦ String.◌∷◌ c (collapse_from false s)
]

-- `re.sub(r"\s+", " ", text)`
unfoldable pub collapse_spaces : String → String
unfolding collapse_from is_space
collapse_spaces s = collapse_from false s

split_lem : split "  how  are\nyou " ≡ "how" ∷ "are" ∷ "you" ∷ []
unfolding split
split_lem = refl

collapse_lem : collapse_spaces "a \n b" ≡ "a b"
unfolding collapse_spaces
collapse_lem = refl
