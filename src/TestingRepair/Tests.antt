-- ===== src/TestingRepair/Tests.antt =====
-- Runs of the testing and repair subgraph, and the theorems at concrete states.
use mcp_software_factory.Prelude.{◌≡◌, ◌≢◌, refl, true, false, none, some, [], ◌∷◌}
use mcp_software_factory.Host.Types.{
  Tool, Arguments, File, Payload, ToolExecutionResult, create_project, not_started,
}
use mcp_software_factory.Host.Types
use mcp_software_factory.Host.Paths.{Libraries}
use mcp_software_factory.Host.Update.{empty_payload}
use mcp_software_factory.Host.Call.{Host, Surroundings, Call}
use mcp_software_factory.TestingRepair.State.{
  TestingRepairState, run_tests, nothing, approved, execution_state_from_graph,
}
use mcp_software_factory.TestingRepair.Nodes.{Turn, System, grants, execute_tests}
use mcp_software_factory.TestingRepair.Graph.{exhausted, run_testing_repair}
use mcp_software_factory.TestingRepair.Later.{WhenSome}
use mcp_software_factory.TestingRepair.Termination.{run_testing_repair_total}
use mcp_software_factory.TestingRepair.NodeLaws.{repair_source, repeated_failure_keeps_source}

-- Libraries for paths without `..`, and texts without imports; pytest names one file.
abbrev plain : Libraries
plain = record {
  as_posix = λ s. s;
  is_absolute = λ s. false;
  has_parent = λ s. false;
  imported_modules = λ s. [];
  is_identifier = λ s. true;
  is_keyword = λ s. false;
  pytest_files = λ s. "tests/test_main.py" ∷ [];
}

abbrev surroundings : Surroundings
surroundings = record {
  libraries = plain;
  policy = λ a. false;
  registered = λ t. true;
  requires_approval = λ t. false;
}

abbrev for_shop : Arguments
for_shop = record { project_name = some "shop"; relative_path = none; files = none }

abbrev failing_tests : ToolExecutionResult
failing_tests = record {
  payload =
      some (record empty_payload { success = some false; failure_type = some "test_failure" });
  is_error = false;
  content_text = [];
}

abbrev turn : ToolExecutionResult → Turn
turn r = record {
  call = record {
    tool = Types.run_tests;
    arguments = for_shop;
    parses = true;
    has_schema_errors = false;
    key = "tests";
    prompts = false;
    approves = true;
    answer = r;
  };
  content = none;
  decision = grants;
  has_texts = true;
  retrieves = false;
}

abbrev fresh_state : TestingRepairState
fresh_state = record {
  project_name = some "shop";
  created_project_name = some "shop";
  workflow_intent = create_project;
  detected_test_framework = some "pytest";
  environment_prepared = false;
  tests_executed = false;
  tests_passed = none;
  test_infrastructure_failed = false;
  retry_limit_reached = false;
  user_cancelled = false;
  terminal_status = none;
  failure_type = none;
  failing_test_files = [];
  failing_test_content = none;
  related_source_file = none;
  related_source_content = none;
  related_source_candidates = [];
  related_source_read_attempts = 0;
  repair_phase = not_started;
  repair_attempts = 0;
  files_read_during_repair = [];
  files_updated_during_repair = [];
  pending_operation = none;
  pending_tool_name = none;
  pending_tool_arguments = none;
  pending_approval_status = nothing;
  is_fork = false;
}

abbrev system : TestingRepairState → System
system s = record {
  host = record {
    state = execution_state_from_graph s;
    rejected_calls = [];
    test_attempts = λ p. 0;
  };
  state = s;
}

run_testing_repair_total_example :
    run_testing_repair 26 surroundings (λ n. turn failing_tests) (system fresh_state) ≢ exhausted
run_testing_repair_total_example =
    run_testing_repair_total surroundings (λ n. turn failing_tests) (system fresh_state)

-- The rerun behind a first repair, approved.
abbrev rerun_state : TestingRepairState
rerun_state = record fresh_state {
  tests_executed = true;
  tests_passed = some false;
  failing_test_files = "tests/test_main.py" ∷ [];
  failing_test_content = some "assert False";
  related_source_content = some "app = None";
  related_source_file = some "shop/main.py";
  related_source_candidates = "shop/main.py" ∷ [];
  related_source_read_attempts = 1;
  repair_phase = Types.rerun_tests;
  repair_attempts = 1;
  pending_operation = some run_tests;
  pending_tool_name = some Types.run_tests;
  pending_tool_arguments = some for_shop;
  pending_approval_status = approved;
}

repeated_failure_keeps_source_example :
    WhenSome
      (λ (z : System). repair_source z.state ≡ repair_source rerun_state)
      (execute_tests surroundings (turn failing_tests) (system rerun_state))
repeated_failure_keeps_source_example =
    repeated_failure_keeps_source surroundings (turn failing_tests) (system rerun_state) refl

-- The rerun fails: the next repair is due, and the candidates of the last one are used up.
rerun_fails :
    WhenSome
      (λ (z : System). z.state.repair_phase ≡ Types.read_failing_test)
      (execute_tests surroundings (turn failing_tests) (system rerun_state))
unfolding execute_tests mcp_software_factory.Host.Call.handle_function_call
    mcp_software_factory.Host.Actions.determine_next_action
    mcp_software_factory.Host.Validation.validate_call_against_state Types.Tool-discrete
    mcp_software_factory.Host.Update.update_execution_state
    mcp_software_factory.Host.Update.reconcile_execution_result
rerun_fails = refl
