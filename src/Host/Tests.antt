-- ===== src/Host/Tests.antt =====
-- A concrete request, its calls, and the surroundings of the host.
use mcp_software_factory.Prelude.{
  ◌≤◌, String, ◌≡◌, refl, Bool, true, false, none, some, [], ◌∷◌, contains, string_eq,
  if◌then◌else◌,
}
use mcp_software_factory.Host.Types.{
  Tool, list_files, read_file, run_tests, Tool-discrete, RepairPhase-discrete, tool_eq,
  review_existing_project, read_related_source, apply_fix, ExecutionState, initial_state, Arguments,
  Payload, ToolExecutionResult,
}
use mcp_software_factory.Host.Paths.{Libraries, normalize_pytest_path}
use mcp_software_factory.Host.Actions.{get_allowed_tools, determine_next_action}
use mcp_software_factory.Host.Validation.{rejected, validate_read, validate_call_against_state}
use mcp_software_factory.Host.Update.{empty_payload, update_execution_state}
use mcp_software_factory.Host.Call.{
  Host, Surroundings, Call, handle_function_call, started, stepped, calls_allowed,
}
use mcp_software_factory.Host.CallLaws.{fresh_host, Reachable-IsLimited}
use mcp_software_factory.Host.ActionLaws.{
  lacks_failing_test, check_arguments, allowed_is_in_order, failed_read_moves_on,
}

-- Libraries for paths without `..`, and texts without imports.
abbrev plain : Libraries
plain = record {
  as_posix = λ s. s;
  is_absolute = λ s. false;
  has_parent = λ s. false;
  imported_modules = λ s. [];
  is_identifier = λ s. true;
  is_keyword = λ s. false;
  pytest_files = λ s. [];
}

abbrev no_policy : Arguments → Bool
no_policy a = false

abbrev all_tools : Tool → Bool
all_tools t = true

abbrev surroundings : Surroundings
surroundings = record {
  libraries = plain;
  policy = no_policy;
  registered = all_tools;
  requires_approval = λ t. false;
}

abbrev for_shop : Arguments
for_shop = record { project_name = some "shop"; relative_path = some "."; files = none }

abbrev listing : ToolExecutionResult
listing = record {
  payload = some (record empty_payload {
    success = some true;
    entries = some (record { type = "directory"; path = "shop/" } ∷ []);
  });
  is_error = false;
  content_text = [];
}

abbrev list_call : Call
list_call = record {
  tool = list_files;
  arguments = for_shop;
  parses = true;
  has_schema_errors = false;
  key = "list";
  prompts = true;
  approves = true;
  answer = listing;
}

abbrev review : Host
review = fresh_host (some "shop") review_existing_project

Reachable-IsLimited_example :
    let h = (handle_function_call surroundings list_call review).0 in
    (h.state.repair_attempts ≤ 2) × ((project : String) → h.test_attempts project ≤ 3)
unfolding get_allowed_tools Tool-discrete
Reachable-IsLimited_example =
    Reachable-IsLimited surroundings (some "shop") review_existing_project
      (handle_function_call surroundings list_call review).0
      (stepped started (calls_allowed list_call review refl))

-- The work is ready for its tests.
abbrev ready : ExecutionState
ready = record (initial_state (some "shop") review_existing_project) {
  workspace_inspected = true;
  project_exists = true;
  created_project_name = some "shop";
  detected_test_framework = some "pytest";
  environment_prepared = true;
}

allowed_is_in_order_example :
    validate_call_against_state plain no_policy ready run_tests for_shop ≡ (
      if lacks_failing_test ready run_tests
      then rejected "missing_failing_test_file"
      else check_arguments plain no_policy ready run_tests for_shop)
unfolding get_allowed_tools Tool-discrete
allowed_is_in_order_example =
    allowed_is_in_order plain no_policy all_tools ready run_tests for_shop refl

-- The tests have failed, and no failing test is known.
abbrev stuck : ExecutionState
stuck = record ready { tests_executed = true }

stuck_allows_reading : contains read_file (get_allowed_tools all_tools stuck) ≡ true
unfolding get_allowed_tools Tool-discrete RepairPhase-discrete
stuck_allows_reading = refl

stuck_refuses_reading :
    validate_call_against_state plain no_policy stuck read_file for_shop
    ≡ rejected "missing_failing_test_file"
unfolding validate_call_against_state validate_read determine_next_action Tool-discrete
    RepairPhase-discrete
stuck_refuses_reading = refl

abbrev missing_file : Payload
missing_file = record empty_payload {
  success = some false;
  status = some "not_found";
  path = some "shop/main.py";
}

abbrev failed_answer : ToolExecutionResult
failed_answer = record { payload = some missing_file; is_error = true; content_text = [] }

abbrev repairing : ExecutionState
repairing = record ready { tests_executed = true; repair_phase = read_related_source }

failed_read_moves_on_example :
    let s' = update_execution_state plain all_tools read_file for_shop failed_answer repairing in
    (s'.repair_phase ≡ apply_fix)
    × (contains (normalize_pytest_path plain "shop/main.py") s'.files_read_during_repair ≡ true)
failed_read_moves_on_example =
    failed_read_moves_on plain all_tools for_shop failed_answer missing_file repairing refl refl
