-- ===== src/PlanReview/Words.antt =====
-- `_contains` of graph/subgraphs/planning/risk.py: a term as a word of its own in a text.
use mcp_software_factory.Prelude.{
  ℕ, zero, suc, Bool, true, false, not, ◌&&◌, ◌||◌, ◌≡◌, refl, List, [], ◌∷◌, String, ◌==◌, nat_eq,
  string_eq, any, leb, char_count,
}
use Prim.Native.Char.{code}
use text.Mathlib.Text.{starts_with}

-- `\w`, of the letters those of the Latin part
unfoldable pub is_word_char : ℕ → Bool
is_word_char n =
    (leb 48 n && leb n 57)
    || (leb 65 n && leb n 90)
    || n == 95
    || (leb 97 n && leb n 122)
    || (leb 192 n && leb n 591 && not (n == 215) && not (n == 247))

-- `\b` behind the next characters
abbrev pub ends_word : ℕ → String → Bool
unfolding is_word_char
ends_word n String.[] = true
ends_word zero (String.◌∷◌ c s) = not (is_word_char (code c))
ends_word (suc n) (String.◌∷◌ c s) = ends_word n s

-- `re.search(rf"\b{term}\b", text)`, of a term that begins and ends with a letter, behind a character
-- that may belong to a word
unfoldable pub finds_word : Bool → String → String → Bool
unfolding is_word_char char_count
finds_word behind_word term String.[] = false
finds_word behind_word term (String.◌∷◌ c s) =
    let later = finds_word (is_word_char (code c)) term s in
    (not behind_word
      && starts_with (String.◌∷◌ c s) term
      && ends_word (char_count term) (String.◌∷◌ c s))
    || later

unfoldable pub contains_word : String → List String → Bool
unfolding finds_word
contains_word text terms = any (λ term. finds_word false term text) terms

-- `s.endswith(suffix)`
unfoldable pub ends_with : String → String → Bool
ends_with String.[] suffix = suffix == ""
ends_with (String.◌∷◌ c s) suffix =
    let later = ends_with s suffix in String.◌∷◌ c s == suffix || later

finds_alone : contains_word "drop the dropdown" ("down" ∷ "drop" ∷ []) ≡ true
unfolding contains_word finds_word is_word_char char_count
finds_alone = refl

misses_inside : contains_word "backdrop and dropdown" ("drop" ∷ []) ≡ false
unfolding contains_word finds_word is_word_char char_count
misses_inside = refl
