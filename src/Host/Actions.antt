-- ===== src/Host/Actions.antt =====
-- What the host does next: `determine_next_action`, `get_allowed_tools` and their tests.
use mcp_software_factory.Prelude.{
  String, Bool, not, ◌&&◌, ◌||◌, Option, none, some, List, [], ◌∷◌, ◌==◌, string_eq, option_eq,
  is_some, if◌then◌else◌,
}
use mcp_software_factory.Host.Types.{
  Tool, analyze_requirement, create_tasks, list_files, create_project_structure, read_file,
  update_project_files, detect_test_framework, prepare_test_environment, run_tests, Intent,
  create_project, review_existing_project, RepairPhase, not_started, read_failing_test,
  read_related_source, apply_fix, rerun_tests, completed, ExecutionState, repair_phase_eq,
}

unfoldable pub is_terminal_failure : ExecutionState → Bool
is_terminal_failure s =
    s.test_infrastructure_failed
    || s.retry_limit_reached
    || s.user_cancelled
    || s.terminal_status == some "project_not_found"

unfoldable pub is_terminal_state : ExecutionState → Bool
unfolding is_terminal_failure
is_terminal_state s = is_terminal_failure s || s.tests_passed

unfoldable pub terminal_status_for : ExecutionState → Option String
terminal_status_for s =
    if s.tests_passed
    then some "completed"
    else (if s.test_infrastructure_failed
        then some "infrastructure_failed"
        else (if s.user_cancelled
            then some "rejected_by_user"
            else (if s.retry_limit_reached then some "retry_limit_reached" else s.terminal_status)))

-- The name of a tool, or one of the two other actions.
pub data Action : Type 0 where
  finalize fix_failed_tests : Action
  calls : Tool → Action

abbrev pub after_tests : ExecutionState → Action
after_tests s =
    if s.tests_executed && not s.tests_passed && not s.test_infrastructure_failed
    then fix_failed_tests
    else finalize

-- The branch for `review_existing_project`.
unfoldable pub next_review_action : ExecutionState → Action
next_review_action s =
    if not s.workspace_inspected
    then calls list_files
    else (if not s.project_exists && not s.project_created
        then finalize
        else (if not (is_some s.detected_test_framework)
            then calls detect_test_framework
            else (if not s.environment_prepared
                then calls prepare_test_environment
                else (if s.tests_passed
                    then finalize
                    else (if not s.tests_executed || s.repair_phase == rerun_tests
                        then calls run_tests
                        else after_tests s)))))

unfoldable pub next_create_action : ExecutionState → Action
next_create_action s =
    if not s.analysis_completed
    then calls analyze_requirement
    else (if not s.tasks_created
        then calls create_tasks
        else (if not s.workspace_inspected
            then calls list_files
            else (if not s.project_created && not s.project_exists
                then calls create_project_structure
                else (if not (is_some s.detected_test_framework)
                    then calls detect_test_framework
                    else (if not s.environment_prepared
                        then calls prepare_test_environment
                        else (if s.tests_passed
                            then finalize
                            else (if not s.tests_executed
                                then calls run_tests
                                else after_tests s)))))))

abbrev pub next_by_intent : Intent → ExecutionState → Action
next_by_intent review_existing_project s = next_review_action s
next_by_intent create_project s = next_create_action s

unfoldable pub determine_next_action : ExecutionState → Action
unfolding is_terminal_state next_review_action next_create_action
determine_next_action s =
    if is_terminal_state s then finalize else next_by_intent s.workflow_intent s

-- `repair_phase_allowed_tool_name`; the empty text is `none`
abbrev pub repair_tool : RepairPhase → Option Tool
repair_tool not_started = some read_file
repair_tool read_failing_test = some read_file
repair_tool read_related_source = some read_file
repair_tool apply_fix = some update_project_files
repair_tool rerun_tests = some run_tests
repair_tool completed = none

abbrev pub tools_of : Option Tool → List Tool
tools_of none = []
tools_of (some t) = t ∷ []

-- The names that `get_allowed_tools` looks up.
abbrev pub allowed_for : Action → RepairPhase → Option Tool
allowed_for finalize phase = none
allowed_for fix_failed_tests phase = repair_tool phase
allowed_for (calls t) phase = some t

abbrev pub registered_only : (Tool → Bool) → Option Tool → List Tool
registered_only registered none = []
registered_only registered (some t) = if registered t then t ∷ [] else []

unfoldable pub get_allowed_tools : (Tool → Bool) → ExecutionState → List Tool
unfolding determine_next_action
get_allowed_tools registered s =
    registered_only registered (allowed_for (determine_next_action s) s.repair_phase)
