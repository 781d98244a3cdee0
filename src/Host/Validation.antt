-- ===== src/Host/Validation.antt =====
-- `validate_call_against_state` and the dependency policy behind it (host.py).
use mcp_software_factory.Prelude.{
  String, Bool, true, false, not, ◌&&◌, ◌||◌, Option, none, some, List, [], ◌∷◌, ◌==◌, string_eq,
  option_eq, is_nonempty, truthy, or_else, get_or, contains, if◌then◌else◌,
}
use mcp_software_factory.Host.Types.{
  Tool, analyze_requirement, create_tasks, list_files, create_project_structure, read_file,
  update_project_files, detect_test_framework, prepare_test_environment, run_tests, tool_eq,
  RepairPhase, not_started, read_failing_test, ExecutionState, File, Arguments,
}
use mcp_software_factory.Host.Paths.{
  Libraries, normalize_pytest_path, expected_project_relative_path, infer_related_source_file,
}
use mcp_software_factory.Host.Actions.{Action, fix_failed_tests, determine_next_action, repair_tool}

-- What the validation gives: no objection, a payload with this status, or a `ValueError`.
pub data Verdict : Type 0 where
  accepted raised : Verdict
  rejected : (status : String) → Verdict

-- `verdict_a`, or, where it has no objection, what follows.
infixl 5 ◌orelse◌
abbrev pub ◌orelse◌ : Verdict → Verdict → Verdict
accepted orelse v = v
raised orelse v = raised
rejected s orelse v = rejected s

abbrev pub reject_if : Bool → String → Verdict
reject_if b status = if b then rejected status else accepted

abbrev pub is_completed_step : ExecutionState → Tool → Bool
is_completed_step s analyze_requirement = s.analysis_completed
is_completed_step s create_tasks = s.tasks_created
is_completed_step s _ = false

-- `blocked_after_infra_failure`
abbrev pub is_blocked_after_infra_failure : Tool → Bool
is_blocked_after_infra_failure list_files = true
is_blocked_after_infra_failure read_file = true
is_blocked_after_infra_failure update_project_files = true
is_blocked_after_infra_failure detect_test_framework = true
is_blocked_after_infra_failure prepare_test_environment = true
is_blocked_after_infra_failure run_tests = true
is_blocked_after_infra_failure _ = false

abbrev pub reads_test : RepairPhase → Bool
reads_test not_started = true
reads_test read_failing_test = true
reads_test _ = false

abbrev pub first_file : List String → Option String
first_file [] = none
first_file (f ∷ _) = some f

abbrev pub compare_paths : Option String → String → Verdict
compare_paths none received = raised
compare_paths (some expected) received =
    reject_if (not (received == expected)) "repair_read_path_not_allowed"

abbrev pub check_expected : Libraries → ExecutionState → Arguments → Option String → Verdict
check_expected l s a none = accepted
check_expected l s a (some relative) =
    let received = normalize_pytest_path l (get_or a.relative_path "") in
    let verdict = compare_paths (expected_project_relative_path l s relative) received in
    if relative == "" then accepted else verdict

unfoldable pub validate_read : Libraries → ExecutionState → Arguments → Verdict
unfolding infer_related_source_file
validate_read l s a =
    let expected =
      if reads_test s.repair_phase
      then first_file s.failing_test_files
      else infer_related_source_file l s in
    if reads_test s.repair_phase && not (is_nonempty s.failing_test_files)
    then rejected "missing_failing_test_file"
    else check_expected l s a expected

abbrev pub project_name_of : ExecutionState → Option String
project_name_of s = or_else s.created_project_name s.requested_project_name

abbrev pub conflicts : Option String → Arguments → Bool
conflicts name a = truthy name && not (a.project_name == name)

abbrev pub path_of : Libraries → Option File → String
path_of l none = ""
path_of l (some f) = normalize_pytest_path l f.path

abbrev pub validate_path : Libraries → List String → String → Verdict
validate_path l allowed path =
    reject_if (path == "" || l.is_absolute path || l.has_parent path) "invalid_tool_arguments"
    orelse reject_if (is_nonempty allowed && not (contains path allowed))
        "repair_update_path_not_allowed"

unfoldable pub validate_paths : Libraries → List String → List (Option File) → Verdict
validate_paths l allowed [] = accepted
validate_paths l allowed (f ∷ fs) =
    validate_path l allowed (path_of l f) orelse validate_paths l allowed fs

abbrev pub validate_files : Libraries → List String → Option (List (Option File)) → Verdict
validate_files l allowed none = rejected "invalid_tool_arguments"
validate_files l allowed (some []) = rejected "invalid_tool_arguments"
validate_files l allowed (some (f ∷ fs)) = validate_paths l allowed (f ∷ fs)

unfoldable pub validate_update : Libraries → ExecutionState → Arguments → Verdict
unfolding validate_paths
validate_update l s a =
    reject_if (conflicts (project_name_of s) a) "argument_conflict"
    orelse validate_files l s.failing_test_files a.files

-- The checks of the repair step that is expected.
abbrev pub validate_repair_tool : Libraries → ExecutionState → Tool → Arguments → Verdict
validate_repair_tool l s read_file a = validate_read l s a
validate_repair_tool l s update_project_files a = validate_update l s a
validate_repair_tool l s run_tests a =
    reject_if (conflicts (project_name_of s) a) "argument_conflict"
validate_repair_tool l s _ a = accepted

abbrev pub validate_repair : Libraries → ExecutionState → Tool → Arguments → Verdict
validate_repair l s t a =
    reject_if (not (some t == repair_tool s.repair_phase)) "repair_step_not_allowed"
    orelse validate_repair_tool l s t a

abbrev pub is_missing : Option (List (Option File)) → Bool
is_missing none = true
is_missing (some fs) = not (is_nonempty fs)

-- `policy` is what `dependency_policy_for_project_files` objects to.
abbrev pub validate_creation : (Arguments → Bool) → ExecutionState → Arguments → Verdict
validate_creation policy s a =
    reject_if (is_missing a.files) "invalid_tool_arguments"
    orelse reject_if (conflicts s.requested_project_name a) "argument_conflict"
    orelse reject_if s.project_created "project_already_created_in_current_run"
    orelse reject_if s.project_exists "project_already_exists"
    orelse reject_if (policy a) "dependency_policy_violation"

abbrev pub is_repair : Action → Bool
is_repair fix_failed_tests = true
is_repair _ = false

unfoldable pub validate_call_against_state :
    Libraries → (Arguments → Bool) → ExecutionState → Tool → Arguments → Verdict
unfolding validate_read validate_update determine_next_action
validate_call_against_state l policy s t a =
    reject_if (is_completed_step s t) "step_already_completed"
    orelse reject_if (s.test_infrastructure_failed && is_blocked_after_infra_failure t)
        "workflow_stopped_after_test_infrastructure_failure"
    orelse reject_if (t == prepare_test_environment && s.environment_prepared)
        "environment_already_prepared"
    orelse (if is_repair (determine_next_action s) then validate_repair l s t a else accepted)
    orelse (if t == create_project_structure then validate_creation policy s a else accepted)
