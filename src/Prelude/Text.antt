-- ===== src/Prelude/Text.antt =====
-- Text as its code points, and what the program asks of it: `lower`, `in`, `split`, and regular
-- expressions of the form `\b(a|b|c)\b`. Texts are ASCII: case and word characters of other
-- scripts are not modelled.
use Prim.Native.Nat.{ℕ, zero, suc, ◌+◌}
use Prim.Native.Char.{code}
use Prim.Native.String.{String}
use mathlib.Core.Path.{◌≡◌, refl}
use mathlib.Core.Bool.{Bool, ◌||◌, true, false, ◌&&◌, xor}
use mathlib.Core.List.{List, [], ◌∷◌, ◌++◌, map}
use native.Mathlib.Omega.{arith}
use expense_reimbursement_ta.Prelude.Tests.{ltb, leb, ◌==◌, if◌then◌else◌}
use expense_reimbursement_ta.Prelude.Lists.{any}

abbrev pub Text : Type 0
Text = List ℕ

abbrev pub codes : String → Text
codes String.[] = []
codes (String.◌∷◌ c s) = code c ∷ codes s

abbrev pub text_eq : Text → Text → Bool
text_eq [] [] = true
text_eq [] (d ∷ t) = false
text_eq (c ∷ s) [] = false
text_eq (c ∷ s) (d ∷ t) = (c == d) && text_eq s t

pub text_eq→eq : (s t : Text) → text_eq s t ≡ true → s ≡ t
text_eq→eq [] [] h = refl
text_eq→eq [] (d ∷ t) h = ground arith
text_eq→eq (c ∷ s) [] h = ground arith
text_eq→eq (c ∷ s) (d ∷ t) h = ground (arith, text_eq→eq s t)

pub text_eq_refl : (s : Text) → text_eq s s ≡ true
text_eq_refl [] = refl
text_eq_refl (c ∷ s) = ground (arith, text_eq_refl s)

unfoldable pub is_empty : Text → Bool
is_empty [] = true
is_empty (_ ∷ _) = false

abbrev pub is_upper : ℕ → Bool
is_upper c = leb b'A' c && leb c b'Z'

abbrev pub is_lower : ℕ → Bool
is_lower c = leb b'a' c && leb c b'z'

abbrev pub is_digit : ℕ → Bool
is_digit c = leb b'0' c && leb c b'9'

abbrev pub lower_char : ℕ → ℕ
lower_char c = if is_upper c then c + 32 else c

-- `text.lower()`
unfoldable pub lower : Text → Text
lower = map lower_char

unfoldable pub starts_with : Text → Text → Bool
starts_with s [] = true
starts_with [] (d ∷ t) = false
starts_with (c ∷ s) (d ∷ t) = (c == d) && starts_with s t

-- `text[n:]`
abbrev pub drop : ℕ → Text → Text
drop zero s = s
drop (suc n) [] = []
drop (suc n) (_ ∷ s) = drop n s

-- `needle in text`
unfoldable pub is_in : Text → Text → Bool
unfolding starts_with
is_in needle [] = starts_with [] needle
is_in needle (c ∷ s) = starts_with (c ∷ s) needle || is_in needle s

-- `\w`
abbrev pub is_word : ℕ → Bool
is_word c = is_lower c || is_upper c || is_digit c || (c == b'_')

abbrev first_is_word : Text → Bool
first_is_word [] = false
first_is_word (c ∷ _) = is_word c

-- The word matches at the start of the text, and `\b` holds behind it. `before` says whether the
-- character in front is a word character.
match_word : Bool → Text → Text → Bool
unfolding xor
match_word before [] s = xor before (first_is_word s)
match_word before (d ∷ w) [] = false
match_word before (d ∷ w) (c ∷ s) = (c == d) && match_word (is_word c) w s

search_from : Bool → Text → Text → Bool
unfolding match_word xor
search_from before word [] = xor before false && match_word before word []
search_from before word (c ∷ s) =
    (xor before (is_word c) && match_word before word (c ∷ s)) || search_from (is_word c) word s

-- `re.search(r"\bword\b", text)`
unfoldable pub search_word : Text → Text → Bool
unfolding search_from
search_word = search_from false

-- `re.search(r"\b(a|b|c)\b", text, re.I)`, the words in lower case
unfoldable pub search_any : List Text → Text → Bool
unfolding search_word lower
search_any words text = any (λ w. search_word w (lower text)) words

-- The whitespace of ASCII text, as `split` and `strip` take it.
abbrev is_space : ℕ → Bool
is_space c = (leb 9 c && leb c 13) || (leb 28 c && leb c 32)

left_strip : Text → Text
left_strip [] = []
left_strip (c ∷ t) = let rest = left_strip t in if is_space c then rest else c ∷ t

right_strip : Text → Text
right_strip [] = []
right_strip (c ∷ t) = elim (right_strip t) [
  | [] ↦ if is_space c then [] else c ∷ []
  | d ∷ s ↦ c ∷ d ∷ s
]

-- `text.strip()`
unfoldable pub strip : Text → Text
unfolding left_strip right_strip
strip t = right_strip (left_strip t)

-- `text.split()`
split_from : Text → Text → List Text
split_from [] [] = []
split_from (a ∷ word) [] = (a ∷ word) ∷ []
split_from [] (c ∷ s) = if is_space c then split_from [] s else split_from (c ∷ []) s
split_from (a ∷ word) (c ∷ s) =
    let next = split_from [] s in
    let more = split_from ((a ∷ word) ++ c ∷ []) s in if is_space c then (a ∷ word) ∷ next else more

unfoldable pub split : Text → List Text
unfolding split_from
split = split_from []

dining : search_word (codes "room") (codes "in-room dining") ≡ true
unfolding search_word
dining = refl

barista : search_word (codes "bar") (codes "barista snack") ≡ false
unfolding search_word
barista = refl

split_name : split (codes " mr  asha rao") ≡ codes "mr" ∷ codes "asha" ∷ codes "rao" ∷ []
unfolding split
split_name = refl

-- `s < t`, by code points
unfoldable pub text_ltb : Text → Text → Bool
text_ltb [] [] = false
text_ltb [] (d ∷ t) = true
text_ltb (c ∷ s) [] = false
text_ltb (c ∷ s) (d ∷ t) = ltb c d || ((c == d) && text_ltb s t)

-- `word in words`
unfoldable pub is_member : Text → List Text → Bool
is_member word words = any (text_eq word) words
