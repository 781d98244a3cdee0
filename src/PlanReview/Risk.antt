-- ===== src/PlanReview/Risk.antt =====
-- graph/subgraphs/planning/risk.py: what a plan risks.
use mcp_software_factory.Prelude.{
  ℕ, ◌+◌, max, min, Bool, not, ◌&&◌, ◌||◌, List, [], ◌∷◌, ◌++◌, String, Eq, discrete_eq, string_eq,
  nat_eq, leb, contains, dedup, any, all, is_nonempty, if◌then◌else◌, casefold, occurs_in,
  text_append,
}
use text.Mathlib.Text.{starts_with}
use mcp_software_factory.Planning.Order.{Task}
use mcp_software_factory.PlanReview.Terms.{
  dependency_targets, config_terms, infra_terms, security_terms, database_terms, destructive_terms,
  create_terms, modify_terms,
}
use mcp_software_factory.PlanReview.Words.{contains_word, ends_with}

-- `ImplementationTask`
pub record PlanTask : Type 0 where
  pub task : Task
  pub role : String
  pub title : String
  pub description : String

pub data RiskLevel : Type 0 where
  low medium high critical : RiskLevel

-- The names of the impact areas.
pub data Area : Type 0 where
  application configuration database dependencies documentation filesystem infrastructure runtime
        security tests :
      Area

unfoldable pub Area-discrete : Discrete Area
Area-discrete = hlevel

instance abbrev pub area_eq : Eq Area
area_eq = discrete_eq Area-discrete

pub data Reason : Type 0 where
  documentation_change test_change application_change modifies_existing_files creates_files
        dependency_change configuration_change runtime_change infrastructure_change database_change
        security_change destructive_operation sensitive_credential_change broad_multi_area_impact
        multi_area_impact :
      Reason

unfoldable pub Reason-discrete : Discrete Reason
Reason-discrete = hlevel

instance abbrev pub reason_eq : Eq Reason
reason_eq = discrete_eq Reason-discrete

abbrev pub task_text : PlanTask → String
task_text t =
    casefold
      (text_append t.role (text_append " " (text_append t.title (text_append " " t.description))))

abbrev pub risk_level : ℕ → RiskLevel
risk_level score =
    if leb 75 score
    then critical
    else (if leb 50 score then high else (if leb 25 score then medium else low))

-- `impacts.add(area)` under a condition
abbrev pub add_if : {A : Type 0} → Bool → A → List A → List A
add_if b a xs = if b then a ∷ xs else xs

abbrev pub names_application : String → Bool
names_application text =
    any (λ token. occurs_in token text) ("api" ∷ "app" ∷ "endpoint" ∷ "fastapi" ∷ "main.py" ∷ [])

abbrev pub is_dependency_path : String → Bool
is_dependency_path path =
    contains (casefold path) dependency_targets || ends_with (casefold path) ".csproj"

-- The set without its last member.
abbrev pub named_areas : String → List String → List Area
named_areas text paths =
    add_if
      (occurs_in "test" text
        || occurs_in "pytest" text
        || any (λ path. occurs_in "/test" path || starts_with path "test") paths)
      tests
      (add_if
        (occurs_in "readme" text
          || occurs_in "documentation" text
          || occurs_in "documentacion" text)
        documentation
        (add_if (any is_dependency_path paths) dependencies (
          add_if (contains_word text config_terms) configuration (
            add_if (contains_word text database_terms) database (
              add_if (contains_word text security_terms) security (
                add_if (contains_word text infra_terms) infrastructure (
                  add_if
                    (occurs_in "runtime" text
                      || occurs_in "entrypoint" text
                      || occurs_in "main.py" text)
                    runtime (add_if (is_nonempty paths) filesystem []))))))))

unfoldable pub impact_for_task : String → List String → List Area
unfolding contains_word ends_with casefold
impact_for_task text paths =
    let impacts = named_areas text paths in
    add_if (not (is_nonempty impacts) || names_application text) application impacts

-- `not (impacts - areas)`
abbrev pub is_within : List Area → List Area → Bool
is_within impacts areas = all (λ a. contains a areas) impacts

-- A score with its reasons.
abbrev pub Scored : Type 0
Scored = ℕ × List Reason

abbrev pub first_score : List Area → Scored
first_score impacts =
    if (contains documentation impacts
        && contains filesystem impacts
        && is_within impacts (documentation ∷ filesystem ∷ []))
      || (contains documentation impacts && is_within impacts (documentation ∷ filesystem ∷ []))
    then (2, documentation_change ∷ [])
    else (if contains tests impacts && is_within impacts (tests ∷ filesystem ∷ [])
        then (3, test_change ∷ [])
        else (if contains application impacts then (8, application_change ∷ []) else (4, [])))

abbrev pub with_files : String → Scored → Scored
with_files text (score, reasons) =
    if contains_word text modify_terms
    then (score + 10, reasons ++ modifies_existing_files ∷ [])
    else (if contains_word text create_terms
        then (score + 2, reasons ++ creates_files ∷ [])
        else (score, reasons))

-- `score = max(score, least)` with a reason, under a condition
abbrev pub raise_if : Bool → ℕ → Reason → Scored → Scored
raise_if b least reason (score, reasons) =
    if b then (max score least, reasons ++ reason ∷ []) else (score, reasons)

abbrev pub names_secret : String → Bool
names_secret text = occurs_in "secret" text || occurs_in "credential" text

abbrev pub is_destructive : String → Bool
is_destructive text = contains_word text destructive_terms

abbrev pub with_areas : String → List Area → Scored → Scored
with_areas text impacts s = raise_if (contains security impacts) 60 security_change (
    raise_if (contains database impacts) (if occurs_in "migration" text then 58 else 45)
      database_change
      (raise_if (contains infrastructure impacts) 55 infrastructure_change (
        raise_if (contains runtime impacts) 25 runtime_change (
          raise_if (contains configuration impacts) 30 configuration_change
            (raise_if (contains dependencies impacts) 28 dependency_change s)))))

abbrev pub with_dangers : String → Scored → Scored
with_dangers text s = raise_if (names_secret text) 80 sensitive_credential_change (
    raise_if (is_destructive text)
      (if occurs_in "data" text || occurs_in "schema" text || names_secret text then 80 else 65)
      destructive_operation s)

unfoldable pub score_task : String → List Area → Scored
unfolding contains_word
score_task text impacts =
    let scored =
      with_dangers text (with_areas text impacts (with_files text (first_score impacts))) in
    (min scored.0 100, dedup scored.1)
