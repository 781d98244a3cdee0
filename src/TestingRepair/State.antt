-- ===== src/TestingRepair/State.antt =====
-- `TestingRepairState` (graph/subgraphs/testing_repair/state.py), and what the adapter of the host
-- makes of it (tool_executor.py). A missing key is read as its default; of `tests_passed` the code
-- tells the two apart. Fields that are only shown or stored are left out.
use mcp_software_factory.Prelude.{
  ℕ, String, Bool, false, Option, some, List, get_or, if◌then◌else◌, Eq, discrete_eq,
}
use mcp_software_factory.Host.Types.{
  Tool, Intent, RepairPhase, ExecutionState, Arguments, initial_state,
}

pub data Operation : Type 0 where
  create_project prepare_environment run_tests apply_fix : Operation

unfoldable pub Operation-discrete : Discrete Operation
Operation-discrete = hlevel

instance abbrev pub operation_eq : Eq Operation
operation_eq = discrete_eq Operation-discrete

pub data ApprovalStatus : Type 0 where
  nothing waiting approved rejected : ApprovalStatus

unfoldable pub ApprovalStatus-discrete : Discrete ApprovalStatus
ApprovalStatus-discrete = hlevel

instance abbrev pub approval_status_eq : Eq ApprovalStatus
approval_status_eq = discrete_eq ApprovalStatus-discrete

pub record TestingRepairState : Type 0 where
  pub project_name : Option String
  pub created_project_name : Option String
  pub workflow_intent : Intent
  pub detected_test_framework : Option String
  pub environment_prepared : Bool
  pub tests_executed : Bool
  pub tests_passed : Option Bool
  pub test_infrastructure_failed : Bool
  pub retry_limit_reached : Bool
  pub user_cancelled : Bool
  pub terminal_status : Option String
  pub failure_type : Option String
  pub failing_test_files : List String
  pub failing_test_content : Option String
  pub related_source_file : Option String
  pub related_source_content : Option String
  pub related_source_candidates : List String
  pub related_source_read_attempts : ℕ
  pub repair_phase : RepairPhase
  pub repair_attempts : ℕ
  pub files_read_during_repair : List String
  pub files_updated_during_repair : List String
  pub pending_operation : Option Operation
  pub pending_tool_name : Option Tool
  pub pending_tool_arguments : Option Arguments
  pub pending_approval_status : ApprovalStatus
  pub is_fork : Bool

-- `_execution_state_from_graph`: what the subgraph does not hold has its default.
abbrev pub execution_state_from_graph : TestingRepairState → ExecutionState
execution_state_from_graph s = record (initial_state s.project_name s.workflow_intent) {
  created_project_name = s.created_project_name;
  detected_test_framework = s.detected_test_framework;
  environment_prepared = s.environment_prepared;
  tests_executed = s.tests_executed;
  tests_passed = get_or s.tests_passed false;
  test_infrastructure_failed = s.test_infrastructure_failed;
  retry_limit_reached = s.retry_limit_reached;
  user_cancelled = s.user_cancelled;
  terminal_status = s.terminal_status;
  failure_type = s.failure_type;
  failing_test_files = s.failing_test_files;
  failing_test_content = s.failing_test_content;
  related_source_file = s.related_source_file;
  repair_phase = s.repair_phase;
  repair_attempts = s.repair_attempts;
  files_read_during_repair = s.files_read_during_repair;
  files_updated_during_repair = s.files_updated_during_repair;
}

-- `_graph_values_from_execution`, merged into the state. An update that has the value of before
-- changes nothing, so all the values are merged.
abbrev pub merge_execution_state : ExecutionState → TestingRepairState → TestingRepairState
merge_execution_state e s = record s {
  project_name = e.requested_project_name;
  created_project_name = e.created_project_name;
  workflow_intent = e.workflow_intent;
  detected_test_framework = e.detected_test_framework;
  environment_prepared = e.environment_prepared;
  tests_executed = e.tests_executed;
  tests_passed = some e.tests_passed;
  test_infrastructure_failed = e.test_infrastructure_failed;
  retry_limit_reached = e.retry_limit_reached;
  user_cancelled = e.user_cancelled;
  terminal_status = if e.user_cancelled then some "user_cancelled" else e.terminal_status;
  failure_type = e.failure_type;
  failing_test_files = e.failing_test_files;
  failing_test_content = e.failing_test_content;
  related_source_file = e.related_source_file;
  repair_phase = e.repair_phase;
  repair_attempts = e.repair_attempts;
  files_read_during_repair = e.files_read_during_repair;
  files_updated_during_repair = e.files_updated_during_repair;
}
