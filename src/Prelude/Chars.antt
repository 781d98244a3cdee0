-- ===== src/Prelude/Chars.antt =====
-- Texts by their characters: Python's slices, `strip`, and membership of one text in another.
use Prim.Native.Nat.{ℕ, zero, suc, ◌-◌}
use Prim.Native.Char.{Char, code}
use Prim.Native.String.{String, ◌++◌ as append, char_at}
use mathlib.Core.Path.{◌≡◌, refl}
use mathlib.Core.Bool.{Bool, true, ◌&&◌, ◌||◌}
use text.Mathlib.Text.{find?, starts_with as text_starts_with}
use mcp_software_factory.Prelude.Tests.{leb, is_some, if◌then◌else◌}
use mcp_software_factory.Prelude.Text.{◌==◌, nat_eq, string_eq}

-- Texts by their characters. `s ++ t` is the library's, under a name apart from that of lists.
abbrev pub text_append : String → String → String
text_append s t = append s t

-- `s[:n]`
unfoldable pub take_chars : ℕ → String → String
take_chars zero s = ""
take_chars (suc n) String.[] = ""
take_chars (suc n) (String.◌∷◌ c s) = String.◌∷◌ c (take_chars n s)

-- `str.isspace` of one character
unfoldable pub is_space : ℕ → Bool
is_space n =
    (leb 9 n && leb n 13)
    || (leb 28 n && leb n 32)
    || n == 133
    || n == 160
    || n == 5760
    || (leb 8192 n && leb n 8202)
    || n == 8232
    || n == 8233
    || n == 8239
    || n == 8287
    || n == 12288

-- `not s.strip()`
unfoldable pub is_blank : String → Bool
unfolding is_space
is_blank String.[] = true
is_blank (String.◌∷◌ c s) = is_space (code c) && is_blank s

-- `s.rstrip()`, `s.lstrip()` and `s.strip()`
unfoldable pub rstrip : String → String
unfolding is_space
rstrip String.[] = ""
rstrip (String.◌∷◌ c s) =
    let rest = rstrip s in if is_space (code c) && rest == "" then "" else String.◌∷◌ c rest

unfoldable pub lstrip : String → String
unfolding is_space
lstrip String.[] = ""
lstrip (String.◌∷◌ c s) = let rest = lstrip s in if is_space (code c) then rest else String.◌∷◌ c s

unfoldable pub strip : String → String
unfolding rstrip lstrip
strip s = rstrip (lstrip s)

-- `sub in s`
abbrev pub occurs_in : String → String → Bool
occurs_in sub s = is_some (find? s sub)

-- the number of characters
unfoldable pub char_count : String → ℕ
char_count String.[] = 0
char_count (String.◌∷◌ c s) = suc (char_count s)

-- every character passes a test of its code
unfoldable pub all_chars : (ℕ → Bool) → String → Bool
all_chars p String.[] = true
all_chars p (String.◌∷◌ c s) = p (code c) && all_chars p s

-- `s.replace(pattern, "")`: `skip` characters of a match are still to be dropped.
unfoldable pub remove_from : String → ℕ → String → String
remove_from pattern skip String.[] = ""
remove_from pattern zero (String.◌∷◌ c s) =
    let dropped = remove_from pattern (char_count pattern - 1) s in
    let kept = remove_from pattern 0 s in
    if text_starts_with (String.◌∷◌ c s) pattern then dropped else String.◌∷◌ c kept
remove_from pattern (suc skip) (String.◌∷◌ c s) = remove_from pattern skip s

-- `s.casefold()`, which here changes the letters A to Z alone
unfoldable pub fold_char : Char → Char
fold_char c =
    if leb 65 (code c) && leb (code c) 90
    then char_at "abcdefghijklmnopqrstuvwxyz" (code c - 65)
    else c

unfoldable pub casefold : String → String
unfolding fold_char
casefold String.[] = ""
casefold (String.◌∷◌ c s) = String.◌∷◌ (fold_char c) (casefold s)

casefold_mixed : casefold "Timeout at PyPI-9" ≡ "timeout at pypi-9"
unfolding casefold
casefold_mixed = refl

remove_gate : remove_from "-gate" 0 "test-gate" ≡ "test"
unfolding remove_from char_count
remove_gate = refl

strip_both : strip " \t ab c\n " ≡ "ab c"
unfolding strip
strip_both = refl
