-- ===== src/Host/Paths.antt =====
-- Paths and the source file that belongs to a test: `normalize_project_relative_path`,
-- `infer_related_source_file` of host.py, and `project_name_to_python_package` and
-- `extract_related_source_path_from_test` of graph/nodes.py. pathlib, re, ast and keyword are a
-- parameter.
use Prim.Native.Char.{Char, code}
use mcp_software_factory.Prelude.{
  ℕ, String, Bool, true, false, not, ◌&&◌, ◌||◌, Option, none, some, List, [], ◌∷◌, ◌==◌, string_eq,
  option_eq, nat_eq, leb, get_or, or_else, all, dedup, last?, map, text_append, strip,
  if◌then◌else◌,
}
use text.Mathlib.Text.{starts_with}
use mcp_software_factory.Host.Types.{ExecutionState}

-- What the libraries give.
pub record Libraries : Type 0 where
  -- `Path(p).as_posix()`
  pub as_posix : String → String
  -- `Path(p).is_absolute()`
  pub is_absolute : String → Bool
  -- `".." in Path(p).parts`
  pub has_parent : String → Bool
  -- the parts of the modules of the absolute `from … import` lines of a text, as `ast.walk` meets
  -- them; none of a text that does not parse
  pub imported_modules : String → List (List String)
  -- `str.isidentifier` and `keyword.iskeyword`
  pub is_identifier : String → Bool
  pub is_keyword : String → Bool
  -- the paths that `PYTEST_FILE_RE` finds
  pub pytest_files : String → List String

abbrev pub is_slash : Char → Bool
is_slash c = code c == b'/'

abbrev pub is_underscore : Char → Bool
is_underscore c = code c == b'_'

-- `s.strip(c)` for one character
unfoldable pub lstrip_char : (Char → Bool) → String → String
lstrip_char p String.[] = ""
lstrip_char p (String.◌∷◌ c s) = let rest = lstrip_char p s in if p c then rest else String.◌∷◌ c s

unfoldable pub rstrip_char : (Char → Bool) → String → String
rstrip_char p String.[] = ""
rstrip_char p (String.◌∷◌ c s) =
    let rest = rstrip_char p s in if p c && rest == "" then "" else String.◌∷◌ c rest

abbrev pub strip_char : (Char → Bool) → String → String
strip_char p s = rstrip_char p (lstrip_char p s)

abbrev pub is_letter : ℕ → Bool
is_letter n = (leb b'A' n && leb n b'Z') || (leb b'a' n && leb n b'z')

abbrev pub is_digit : ℕ → Bool
is_digit n = leb b'0' n && leb n b'9'

-- `re.match(r"^[A-Za-z]:/", path)`
unfoldable pub has_drive : String → Bool
has_drive String.[] = false
has_drive (String.◌∷◌ c s) = is_letter (code c) && starts_with s ":/"

-- `path.replace("\\", "/")`
unfoldable pub to_slashes : String → String
to_slashes String.[] = ""
to_slashes (String.◌∷◌ c s) =
    if code c == 92 then text_append "/" (to_slashes s) else String.◌∷◌ c (to_slashes s)

abbrev pub normalize_pytest_path : Libraries → String → String
normalize_pytest_path l path = l.as_posix (to_slashes path)

-- `none` is a `ValueError`
unfoldable pub normalize_project_relative_path : Libraries → String → String → Option String
unfolding lstrip_char rstrip_char has_drive
normalize_project_relative_path l project path =
    let clean_project = strip_char is_slash (normalize_pytest_path l project) in
    let clean_path = strip (normalize_pytest_path l path) in
    let normalized = strip_char is_slash clean_path in
    if clean_project == "" || clean_path == ""
    then none
    else (if l.is_absolute clean_path || has_drive clean_path || l.has_parent clean_path
        then none
        else (if normalized == clean_project
              || starts_with normalized (text_append clean_project "/")
            then some normalized
            else some (text_append clean_project (text_append "/" normalized))))

-- `re.sub(r"[^A-Za-z0-9_]", "_", s)`, behind which `-` is `_` anyway
unfoldable pub to_words : String → String
to_words String.[] = ""
to_words (String.◌∷◌ c s) =
    let n = code c in
    if is_letter n || is_digit n then String.◌∷◌ c (to_words s) else text_append "_" (to_words s)

-- `re.sub(r"_+", "_", s)`: the flag tells whether the last character was `_`
unfoldable pub squeeze : Bool → String → String
squeeze seen String.[] = ""
squeeze seen (String.◌∷◌ c s) =
    let dropped = squeeze true s in
    let kept = squeeze (is_underscore c) s in
    if seen && is_underscore c then dropped else String.◌∷◌ c kept

abbrev pub starts_with_digit : String → Bool
starts_with_digit String.[] = false
starts_with_digit (String.◌∷◌ c s) = is_digit (code c)

unfoldable pub project_name_to_python_package : Libraries → String → Option String
unfolding to_words squeeze
project_name_to_python_package l name =
    let words = strip_char is_underscore (squeeze false (to_words (strip name))) in
    let prefixed = if starts_with_digit words then text_append "_" words else words in
    let package' = if l.is_keyword prefixed then text_append prefixed "_" else prefixed in
    if words == "" || not (l.is_identifier package') then none else some package'

-- A module with at least two parts, the last of which is `main`.
abbrev pub is_main_module : Libraries → List String → Bool
is_main_module l [] = false
is_main_module l (p ∷ []) = false
is_main_module l (p ∷ q ∷ ps) =
    last? (p ∷ q ∷ ps) == some "main" && all l.is_identifier (p ∷ q ∷ ps)

unfoldable pub join_slashes : List String → String
join_slashes [] = ""
join_slashes (p ∷ []) = p
join_slashes (p ∷ q ∷ ps) = text_append p (text_append "/" (join_slashes (q ∷ ps)))

unfoldable pub first_main : Libraries → List (List String) → Option String
unfolding join_slashes
first_main l [] = none
first_main l (m ∷ ms) =
    let later = first_main l ms in
    if is_main_module l m then some (text_append (join_slashes m) ".py") else later

unfoldable pub extract_related_source_path_from_test : Libraries → String → Option String
unfolding first_main
extract_related_source_path_from_test l content = first_main l (l.imported_modules content)

-- `state.created_project_name or state.requested_project_name or ""`
abbrev pub project_of : ExecutionState → String
project_of s = get_or (or_else s.created_project_name (or_else s.requested_project_name none)) ""

abbrev pub with_main : Option String → Option String
with_main none = none
with_main (some p) = some (text_append p "/main.py")

unfoldable pub infer_related_source_file : Libraries → ExecutionState → Option String
unfolding extract_related_source_path_from_test
infer_related_source_file l s = or_else s.related_source_file (
    or_else (extract_related_source_path_from_test l (get_or s.failing_test_content ""))
      (with_main (project_name_to_python_package l (project_of s))))

abbrev pub expected_project_relative_path : Libraries → ExecutionState → String → Option String
expected_project_relative_path l s path = normalize_project_relative_path l (project_of s) path

unfoldable pub extract_failing_test_files : Libraries → String → String → List String
extract_failing_test_files l stdout stderr =
    dedup (
      map (normalize_pytest_path l) (l.pytest_files (text_append stdout (text_append "\n" stderr))))
