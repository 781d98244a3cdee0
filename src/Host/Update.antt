-- ===== src/Host/Update.antt =====
-- `reconcile_execution_result` and `_update_execution_state` of host.py. The sequence of tests on the
-- tool is one function of the tool for each part of the sequence that applies to it.
use mcp_software_factory.Prelude.{
  ℕ, ◌+◌, String, Bool, true, false, not, ◌&&◌, ◌||◌, Option, none, some, List, [], ◌∷◌, ◌++◌, ◌==◌,
  string_eq, bool_eq, option_eq, leb, truthy, or_else, get_or, contains, any, dedup, text_append,
  occurs_in, casefold, if◌then◌else◌,
}
use mcp_software_factory.Host.Types.{
  Tool, analyze_requirement, create_tasks, list_files, create_project_structure, read_file,
  update_project_files, detect_test_framework, prepare_test_environment, run_tests, git_init,
  other_testing, Intent, create_project, review_existing_project, RepairPhase, not_started,
  read_failing_test, read_related_source, apply_fix, rerun_tests, completed, repair_phase_eq,
  ExecutionState, File, Arguments, Entry, Payload, ToolExecutionResult,
}
use mcp_software_factory.Host.Paths.{
  Libraries, rstrip_char, is_slash, normalize_pytest_path, infer_related_source_file,
  extract_failing_test_files,
}

abbrev pub max_repair_attempts : ℕ
max_repair_attempts = 2

abbrev pub is_testing : Tool → Bool
is_testing detect_test_framework = true
is_testing prepare_test_environment = true
is_testing run_tests = true
is_testing other_testing = true
is_testing _ = false

-- `business_success`
abbrev pub succeeds : ToolExecutionResult → Option Payload → Bool
succeeds r none = false
succeeds r (some p) = not r.is_error && p.success == some true

abbrev pub reports_failure : Payload → Bool
reports_failure p = p.success == some false

abbrev pub empty_payload : Payload
empty_payload = record {
  success = none;
  status = none;
  failure_type = none;
  failure_stage = none;
  message = none;
  error = none;
  project_name = none;
  path = none;
  entries = none;
  framework = none;
  stdout = none;
  stderr = none;
  exit_code = none;
  timed_out = false;
}

abbrev pub texts_of : Option Payload → List (Option String)
texts_of none = []
texts_of (some p) = p.error ∷ p.message ∷ p.status ∷ []

-- `"\n".join(parts)` of the true ones, with a line behind each
unfoldable pub joined : List (Option String) → String
joined [] = ""
joined (t ∷ ts) =
    if truthy t then text_append (get_or t "") (text_append "\n" (joined ts)) else joined ts

unfoldable pub joined_lines : List String → String
joined_lines [] = ""
joined_lines (t ∷ ts) = text_append t (text_append "\n" (joined_lines ts))

-- `result_error_text`; no marker has a line break, so the last one does not matter
unfoldable pub result_error_text : ToolExecutionResult → String
unfolding joined joined_lines
result_error_text r = text_append (joined (texts_of r.payload)) (joined_lines r.content_text)

unfoldable pub indicates_project_already_exists : String → Bool
indicates_project_already_exists text =
    any (λ marker. occurs_in marker (casefold text))
      ("already exists" ∷ "ya existe" ∷ "fileexistserror" ∷ [])

abbrev pub is_test_timeout_payload : Option Payload → Bool
is_test_timeout_payload none = false
is_test_timeout_payload (some p) = p.timed_out

abbrev pub with_payload : ToolExecutionResult → Payload → ToolExecutionResult
with_payload r p = record { payload = some p; is_error = false; content_text = [] }

abbrev pub reconcile_creation :
    ExecutionState → Arguments → ToolExecutionResult → ToolExecutionResult
reconcile_creation s a r =
    if r.is_error && indicates_project_already_exists (result_error_text r)
    then with_payload r (record empty_payload {
      success = some false;
      status = some "project_already_exists";
      project_name = or_else a.project_name (or_else s.created_project_name (some "None"));
    })
    else r

abbrev pub timeout_payload : Option Payload → Payload
timeout_payload none = empty_payload
timeout_payload (some p) = record p {
  success = some false;
  status = some "test_infrastructure_failure";
}

abbrev pub reconcile_tests : ToolExecutionResult → ToolExecutionResult
reconcile_tests r =
    if not r.is_error && is_test_timeout_payload r.payload
    then with_payload r (timeout_payload r.payload)
    else r

-- `status_by_stage.get(stage, …)`
abbrev pub status_by_stage : String → String
status_by_stage stage =
    if stage == "validate_dependencies"
    then "dependency_policy_violation"
    else (if stage == "create_venv"
        then "create_venv_failure"
        else (if stage == "invalid_existing_environment"
            then "invalid_existing_environment"
            else (if stage == "upgrade_pip"
                then "pip_upgrade_failure"
                else (if stage == "pip_check"
                    then "pip_check_failure"
                    else (if stage == "inspect_versions"
                        then "version_inspection_failure"
                        else "dependency_installation_failure")))))

abbrev pub environment_payload : Payload → Payload
environment_payload p = record p {
  status = some (
      if p.timed_out
      then "installation_timeout"
      else status_by_stage (get_or p.failure_stage "None"));
}

abbrev pub reconcile_environment_payload :
    ToolExecutionResult → Option Payload → ToolExecutionResult
reconcile_environment_payload r none = r
reconcile_environment_payload r (some p) =
    if not r.is_error && reports_failure p then with_payload r (environment_payload p) else r

unfoldable pub reconcile_execution_result :
    ExecutionState → Tool → Arguments → ToolExecutionResult → ToolExecutionResult
unfolding result_error_text indicates_project_already_exists
reconcile_execution_result s create_project_structure a r = reconcile_creation s a r
reconcile_execution_result s run_tests a r = reconcile_tests r
reconcile_execution_result s prepare_test_environment a r =
    reconcile_environment_payload r r.payload
reconcile_execution_result s _ a r = r

-- `if not execution_result.is_error: …`
abbrev pub mark_done : Tool → ExecutionState → ExecutionState
mark_done analyze_requirement s = record s { analysis_completed = true }
mark_done create_tasks s = record s { tasks_created = true }
mark_done list_files s = record s { workspace_inspected = true }
mark_done _ s = s

-- A timeout of the MCP server.
abbrev pub note_timeout : Tool → ExecutionState → ExecutionState
note_timeout git_init s = record s {
  terminal_status = some "infrastructure_failed";
  failure_type = some "git_initialization_failed";
}
note_timeout t s =
    if is_testing t
    then record s {
      terminal_status = some "infrastructure_failed";
      test_infrastructure_failed = true;
    }
    else s

-- `if payload and payload.get("success") is False: …`
abbrev pub note_failure : Tool → Option Payload → ExecutionState → ExecutionState
note_failure t none s = s
note_failure t (some p) s =
    let noted = record s {
      failure_type = or_else (or_else p.failure_type p.status) (some "unknown_failure");
    } in
    if reports_failure p
    then (if p.status == some "mcp_timeout" then note_timeout t noted else noted)
    else s

abbrev pub is_project_entry : Libraries → String → Entry → Bool
is_project_entry l name e =
    e.type == "directory" && rstrip_char is_slash (normalize_pytest_path l e.path) == name

abbrev pub review_without_project : Intent → ExecutionState → ExecutionState
review_without_project create_project s = s
review_without_project review_existing_project s = record s {
  terminal_status = some "project_not_found";
  failure_type = some "project_not_found";
}

abbrev pub look_for_project :
    Libraries → Option String → Option (List Entry) → ExecutionState → ExecutionState
look_for_project l (some name) (some entries) s =
    if name == ""
    then s
    else (if any (is_project_entry l name) entries
        then record s { project_exists = true; created_project_name = some name }
        else review_without_project s.workflow_intent s)
look_for_project l _ _ s = s

abbrev pub record_creation :
    Arguments → ToolExecutionResult → Payload → ExecutionState → ExecutionState
record_creation a r p s =
    let name = some (get_or (or_else p.project_name a.project_name) "") in
    if not r.is_error && p.status == some "project_already_exists"
    then record s { project_exists = true; created_project_name = name }
    else (if succeeds r (some p)
        then record s { project_created = true; created_project_name = name }
        else s)

-- The phase behind a file that was read.
abbrev pub phase_after_read : Libraries → ExecutionState → RepairPhase
phase_after_read l s = elim s.repair_phase [
  | not_started ↦ if truthy (infer_related_source_file l s) then read_related_source else apply_fix
  | read_failing_test ↦
      if truthy (infer_related_source_file l s) then read_related_source else apply_fix
  | read_related_source ↦ apply_fix
  | p ↦ p
]

abbrev pub is_reading : RepairPhase → Bool
is_reading not_started = true
is_reading read_failing_test = true
is_reading read_related_source = true
is_reading _ = false

abbrev pub insert_text : String → List String → List String
insert_text t ts = if contains t ts then ts else t ∷ ts

unfoldable pub record_read : Libraries → Arguments → Payload → ExecutionState → ExecutionState
unfolding infer_related_source_file
record_read l a p s =
    let path = normalize_pytest_path l (get_or (or_else p.path a.relative_path) "") in
    let read = record s {
      files_read_during_repair = insert_text path s.files_read_during_repair;
      repair_phase = phase_after_read l s;
    } in
    if is_reading s.repair_phase then read else s

unfoldable pub paths_of : Libraries → List (Option File) → List String
paths_of l [] = []
paths_of l (none ∷ fs) = paths_of l fs
paths_of l (some f ∷ fs) = normalize_pytest_path l f.path ∷ paths_of l fs

abbrev pub updated_paths : Libraries → Option (List (Option File)) → List String
updated_paths l none = []
updated_paths l (some fs) = paths_of l fs

unfoldable pub record_fix : Libraries → Arguments → ExecutionState → ExecutionState
unfolding paths_of
record_fix l a s =
    let updated = record s {
      files_updated_during_repair =
          dedup (updated_paths l a.files ++ s.files_updated_during_repair);
    } in
    if s.repair_phase == apply_fix
    then record updated { repair_attempts = s.repair_attempts + 1; repair_phase = rerun_tests }
    else updated

abbrev pub note_pass : ExecutionState → ExecutionState
note_pass s = if s.repair_phase == rerun_tests then record s { repair_phase = completed } else s

abbrev pub note_no_tests : ExecutionState → ExecutionState
note_no_tests s = record s {
  failure_type = some "no_tests_collected";
  failing_test_files = [];
  repair_phase = not_started;
  terminal_status = some "tests_failed";
}

abbrev pub note_test_failure : List String → ExecutionState → ExecutionState
note_test_failure files s =
    let failed = record s { failure_type = some "test_failure"; failing_test_files = files } in
    if leb max_repair_attempts s.repair_attempts
    then record failed { retry_limit_reached = true; terminal_status = some "retry_limit_reached" }
    else record failed { repair_phase = read_failing_test }

abbrev pub note_exit : Libraries → Payload → ExecutionState → ExecutionState
note_exit l p s =
    if p.exit_code == some "5"
    then note_no_tests s
    else (if p.failure_type == some "test_failure"
        then note_test_failure
            (extract_failing_test_files l (get_or p.stdout "") (get_or p.stderr "")) s
        else s)

abbrev pub note_test_timeout : Payload → ExecutionState → ExecutionState
note_test_timeout p s =
    if p.timed_out
    then record s { test_infrastructure_failed = true; failure_type = some "test_timeout" }
    else s

unfoldable pub record_tests : Libraries → Option Payload → ExecutionState → ExecutionState
unfolding extract_failing_test_files
record_tests l none s = record s { tests_executed = true; tests_passed = false }
record_tests l (some p) s =
    let passed = p.success == some true in
    let ran = record s { tests_executed = true; tests_passed = passed } in
    note_test_timeout p (note_exit l p (if passed then note_pass ran else ran))

-- `infrastructure_failures`
abbrev pub infrastructure_failures : List String
infrastructure_failures =
    "timeout" ∷ "create_venv_failure" ∷ "pip_upgrade_failure" ∷ "dependency_installation_failure"
    ∷ "pip_check_failure" ∷ "version_inspection_failure" ∷ "invalid_existing_environment" ∷ []

abbrev pub infrastructure_stages : List String
infrastructure_stages =
    "create_venv" ∷ "upgrade_pip" ∷ "install_dependencies" ∷ "pip_check" ∷ "inspect_versions"
    ∷ "invalid_existing_environment" ∷ []

abbrev pub is_infrastructure : Option Payload → Bool
is_infrastructure none = false
is_infrastructure (some p) =
    contains (get_or p.failure_type "") infrastructure_failures
    || contains (get_or p.failure_stage "") infrastructure_stages

abbrev pub record_environment :
    ToolExecutionResult → Option Payload → ExecutionState → ExecutionState
record_environment r p s =
    let failed = record s { environment_prepared = false; dependencies_installed = false } in
    if succeeds r p
    then record s { environment_prepared = true; dependencies_installed = true }
    else (if is_infrastructure p
        then record failed {
          test_infrastructure_failed = true;
          terminal_status = some "infrastructure_failed";
        }
        else failed)

-- The parts behind the failure, by the tool.
unfoldable pub record_result :
    Libraries
    → Tool
    → Arguments
    → ToolExecutionResult
    → Option Payload
    → ExecutionState
    → ExecutionState
unfolding record_read record_fix record_tests
record_result l list_files a r (some p) s = look_for_project l s.requested_project_name p.entries s
record_result l create_project_structure a r (some p) s = record_creation a r p s
record_result l read_file a r (some p) s = record_read l a p s
record_result l update_project_files a r p s = if succeeds r p then record_fix l a s else s
record_result l detect_test_framework a r (some p) s =
    if truthy p.framework then record s { detected_test_framework = p.framework } else s
record_result l run_tests a r p s = record_tests l p s
record_result l prepare_test_environment a r p s = record_environment r p s
record_result l _ a r p s = s

abbrev pub log_tool : (Tool → Bool) → Tool → ExecutionState → ExecutionState
log_tool requires_approval t s = record s {
  last_tool_executed = some t;
  sensitive_tools_executed =
      if requires_approval t
      then s.sensitive_tools_executed ++ t ∷ []
      else s.sensitive_tools_executed;
}

unfoldable pub update_execution_state :
    Libraries
    → (Tool → Bool)
    → Tool
    → Arguments
    → ToolExecutionResult
    → ExecutionState
    → ExecutionState
unfolding record_result
update_execution_state l requires_approval t a r s =
    let logged = log_tool requires_approval t s in
    let marked = if r.is_error then logged else mark_done t logged in
    record_result l t a r r.payload (note_failure t r.payload marked)
