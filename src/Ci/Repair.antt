-- ===== src/Ci/Repair.antt =====
-- `classify_ci_failure_for_repair` of api/services/ci_service.py.
use mcp_software_factory.Prelude.{
  ℕ, String, Bool, true, false, not, ◌&&◌, ◌||◌, Option, none, some, List, [], ◌∷◌, ◌++◌, ◌==◌,
  string_eq, option_eq, any, contains, get_or, is_some, truthy, or_else, text_append, take_chars,
  strip, casefold, remove_from, occurs_in, if◌then◌else◌, Eq, discrete_eq,
}
use mcp_software_factory.Ci.Types.{
  StepType, StepStatus, PipelineStatus, Decision, StepRun, step_status_eq, pipeline_status_eq,
  decision_eq,
}

-- `CIRepairCategory`
pub data RepairCategory : Type 0 where
  repairable_code repairable_tests repairable_lint repairable_build : RepairCategory
  infrastructure configuration non_repairable unknown : RepairCategory

unfoldable pub RepairCategory-discrete : Discrete RepairCategory
RepairCategory-discrete = hlevel

instance abbrev pub repair_category_eq : Eq RepairCategory
repair_category_eq = discrete_eq RepairCategory-discrete

-- The keys of a run that the classification reads.
pub record FailedRun : Type 0 where
  pub decision : Option Decision
  pub status : PipelineStatus
  pub steps : List StepRun
  pub failed_step : Option String
  pub failure_type : Option String
  pub failure_message : Option String
  pub failed_gates : List String
  pub blocking_gate : Option String

-- `CIRepairability`; the confidence in thousandths
pub record Repairability : Type 0 where
  pub repairable : Bool
  pub category : RepairCategory
  pub confidence : ℕ
  pub reason_codes : List String
  pub failed_gate : Option String
  pub failed_step : Option String
  pub failure_type : Option String
  pub summary : Option String

abbrev pub infrastructure_ci_failures : List String
infrastructure_ci_failures =
    "ci_step_timeout" ∷ "ci_pipeline_timeout" ∷ "ci_environment_unavailable"
    ∷ "ci_execution_interrupted" ∷ []

abbrev pub configuration_ci_failures : List String
configuration_ci_failures =
    "ci_command_not_allowed" ∷ "ci_execution_context_invalid" ∷ "ci_path_violation"
    ∷ "ci_pipeline_stale" ∷ []

abbrev pub optional_in : Option String → List String → Bool
optional_in none xs = false
optional_in (some s) xs = contains s xs

-- the true ones of a list of texts
abbrev pub present : Option String → List String
present o = if truthy o then get_or o "" ∷ [] else []

-- `"\n".join(items)`
unfoldable pub join_lines : List String → String
join_lines [] = ""
join_lines (s ∷ []) = s
join_lines (s ∷ t ∷ ss) = text_append s (text_append "\n" (join_lines (t ∷ ss)))

-- `text[:1000] if text else None`
abbrev pub bounded : String → Option String
bounded text = if text == "" then none else some (take_chars 1000 text)

unfoldable pub bounded_failure_summary : Option StepRun → FailedRun → Option String
unfolding join_lines
bounded_failure_summary none run = bounded (get_or run.failure_message "")
bounded_failure_summary (some step) run = bounded (
    strip (
      join_lines (
        present step.failure_message
        ++ (present step.stdout_summary ++ present step.stderr_summary))))

-- `next((step for step in steps if …), None)`
unfoldable pub find_step : (StepRun → Bool) → List StepRun → Option StepRun
find_step p [] = none
find_step p (s ∷ ss) = let later = find_step p ss in if p s then some s else later

abbrev pub step_type_text : StepType → String
step_type_text StepType.build = "build"
step_type_text StepType.test = "test"
step_type_text StepType.lint = "lint"
step_type_text StepType.packaging = "package"
step_type_text StepType.custom = "custom"

-- `blocking_gate or next(iter(failed_gates), None)`
abbrev pub first_text : List String → Option String
first_text [] = none
first_text (s ∷ _) = some s

unfoldable pub failed_gate_of : FailedRun → Option String
failed_gate_of r = or_else r.blocking_gate (first_text r.failed_gates)

abbrev pub is_failed_of_type : String → StepRun → Bool
is_failed_of_type t s =
    step_type_text s.type == t
    && (s.status == StepStatus.failed
        || s.status == StepStatus.timed_out
        || s.status == StepStatus.interrupted)

abbrev pub without_suffix : Option String → String
without_suffix o = remove_from "-gate" 0 (get_or o "")

-- The step with the id of the failed one, or a failed step of the type of the failed gate.
unfoldable pub failed_step_of : FailedRun → Option StepRun
unfolding find_step failed_gate_of
failed_step_of r =
    let by_id = find_step (λ s. some s.step_id == r.failed_step) r.steps in
    let by_gate = find_step (is_failed_of_type (without_suffix (failed_gate_of r))) r.steps in
    if not (is_some by_id) && truthy (failed_gate_of r) then by_gate else by_id

abbrev pub type_of_step : Option StepRun → String → String
type_of_step none gate_type = gate_type
type_of_step (some s) gate_type = step_type_text s.type

unfoldable pub gate_type_of : FailedRun → String
unfolding failed_step_of
gate_type_of r = type_of_step (failed_step_of r) (without_suffix (failed_gate_of r))

abbrev pub id_of_step : Option StepRun → Option String → Option String
id_of_step none d = d
id_of_step (some s) _ = some s.step_id

-- A result that names the failed gate and step.
abbrev pub for_failed_step : FailedRun → Bool → RepairCategory → ℕ → List String → Repairability
for_failed_step r repairable category confidence codes = record {
  repairable = repairable;
  category = category;
  confidence = confidence;
  reason_codes = codes;
  failed_gate = failed_gate_of r;
  failed_step = id_of_step (failed_step_of r) r.failed_step;
  failure_type = r.failure_type;
  summary = bounded_failure_summary (failed_step_of r) r;
}

-- A result that names the gate and the step of the run itself.
abbrev pub for_run : FailedRun → RepairCategory → ℕ → List String → Repairability
for_run r category confidence codes = record {
  repairable = false;
  category = category;
  confidence = confidence;
  reason_codes = codes;
  failed_gate = r.blocking_gate;
  failed_step = r.failed_step;
  failure_type = r.failure_type;
  summary = bounded_failure_summary none r;
}

-- The build's summary points to the environment.
unfoldable pub has_infra_signal : FailedRun → Bool
unfolding bounded_failure_summary
has_infra_signal r =
    let summary = casefold (get_or (bounded_failure_summary (failed_step_of r) r) "") in
    any (λ token. occurs_in token summary) ("timeout" ∷ "unavailable" ∷ "network" ∷ "registry" ∷ [])

unfoldable pub classify_build : FailedRun → Repairability
unfolding has_infra_signal
classify_build r =
    if has_infra_signal r
    then for_failed_step r false infrastructure 800 ("ci_build_infrastructure_signal" ∷ [])
    else for_failed_step r true repairable_build 750 ("ci_build_gate_failed" ∷ [])

-- The classification by the type of the failed gate.
unfoldable pub classify_by_gate : FailedRun → Repairability
unfolding classify_build gate_type_of
classify_by_gate r =
    if gate_type_of r == "test"
      || optional_in r.failure_type ("ci_tests_failed" ∷ "ci_test_gate_failed" ∷ [])
    then for_failed_step r true repairable_tests 850
        ("ci_test_gate_failed" ∷ "ci_environment_executed" ∷ [])
    else (if gate_type_of r == "build"
          || optional_in r.failure_type ("ci_build_failed" ∷ "ci_build_gate_failed" ∷ [])
        then classify_build r
        else (if gate_type_of r == "lint"
              || optional_in r.failure_type ("ci_lint_failed" ∷ "ci_lint_gate_failed" ∷ [])
            then for_failed_step r true repairable_lint 800 ("ci_lint_gate_failed" ∷ [])
            else record (for_failed_step r false unknown 300 ("ci_failure_unknown" ∷ [])) {
              failed_step = r.failed_step;
            }))

abbrev pub not_rejected : FailedRun → Repairability
not_rejected r = record (for_run r non_repairable 1000 ("ci_decision_not_rejected" ∷ [])) {
  failed_gate = none;
  failed_step = none;
}

unfoldable pub classify_ci_failure_for_repair : FailedRun → Repairability
unfolding classify_by_gate
classify_ci_failure_for_repair r =
    if not (r.decision == some Decision.rejected)
    then not_rejected r
    else (if optional_in r.failure_type infrastructure_ci_failures
          || (r.status == PipelineStatus.timed_out || r.status == PipelineStatus.interrupted)
        then for_run r infrastructure 950 ("ci_infrastructure_failure" ∷ [])
        else (if optional_in r.failure_type configuration_ci_failures
            then for_run r configuration 900 ("ci_configuration_failure" ∷ [])
            else classify_by_gate r))
