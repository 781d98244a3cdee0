-- ===== src/Host/Types.antt =====
-- `ExecutionState` of host.py, with what tools are called with and what they answer. Texts that are
-- only shown to people, versions and commands are left out, and so are the content, the candidates
-- and the read attempts of a related source, which host.py declares and never writes.
use mcp_software_factory.Prelude.{ℕ, String, Bool, false, Option, none, List, [], Eq, discrete_eq}

-- The registered tools by their public names; those that the host does not tell apart are `other`.
pub data Tool : Type 0 where
  analyze_requirement create_tasks list_files create_project_structure read_file : Tool
  update_project_files detect_test_framework prepare_test_environment run_tests git_init : Tool
  other_testing other : Tool

unfoldable pub Tool-discrete : Discrete Tool
Tool-discrete = hlevel

instance abbrev pub tool_eq : Eq Tool
tool_eq = discrete_eq Tool-discrete

pub data Intent : Type 0 where
  create_project review_existing_project : Intent

pub data RepairPhase : Type 0 where
  not_started read_failing_test read_related_source apply_fix rerun_tests completed : RepairPhase

unfoldable pub RepairPhase-discrete : Discrete RepairPhase
RepairPhase-discrete = hlevel

instance abbrev pub repair_phase_eq : Eq RepairPhase
repair_phase_eq = discrete_eq RepairPhase-discrete

pub record ExecutionState : Type 0 where
  pub requested_project_name : Option String
  pub workflow_intent : Intent
  pub analysis_completed : Bool
  pub tasks_created : Bool
  pub workspace_inspected : Bool
  pub project_created : Bool
  pub project_exists : Bool
  pub created_project_name : Option String
  pub tests_executed : Bool
  pub tests_passed : Bool
  pub test_infrastructure_failed : Bool
  pub retry_limit_reached : Bool
  pub user_cancelled : Bool
  pub terminal_status : Option String
  pub failure_type : Option String
  pub detected_test_framework : Option String
  pub environment_prepared : Bool
  pub dependencies_installed : Bool
  pub failing_test_files : List String
  pub failing_test_content : Option String
  pub related_source_file : Option String
  pub repair_phase : RepairPhase
  pub files_read_during_repair : List String
  pub files_updated_during_repair : List String
  pub repair_attempts : ℕ
  pub sensitive_tools_executed : List Tool
  pub rejected_tools : List Tool
  pub last_tool_executed : Option Tool

-- One of the `files` of the arguments; what is no dictionary is `none` in their list.
pub record File : Type 0 where
  pub path : String
  pub content : String

pub record Arguments : Type 0 where
  pub project_name : Option String
  pub relative_path : Option String
  pub files : Option (List (Option File))

-- An entry of the answer of `list_files`.
pub record Entry : Type 0 where
  pub type : String
  pub path : String

-- The business payload of an answer, by the keys that the host reads. The exit code is a text.
pub record Payload : Type 0 where
  pub success : Option Bool
  pub status : Option String
  pub failure_type : Option String
  pub failure_stage : Option String
  pub message : Option String
  pub error : Option String
  pub project_name : Option String
  pub path : Option String
  pub entries : Option (List Entry)
  pub framework : Option String
  pub stdout : Option String
  pub stderr : Option String
  pub exit_code : Option String
  pub timed_out : Bool

-- `ToolExecutionResult`; a payload that is missing or empty is `none`
pub record ToolExecutionResult : Type 0 where
  pub payload : Option Payload
  pub is_error : Bool
  pub content_text : List String

-- `ExecutionState(original_user_message=…)`
abbrev pub initial_state : Option String → Intent → ExecutionState
initial_state name intent = record {
  requested_project_name = name;
  workflow_intent = intent;
  analysis_completed = false;
  tasks_created = false;
  workspace_inspected = false;
  project_created = false;
  project_exists = false;
  created_project_name = none;
  tests_executed = false;
  tests_passed = false;
  test_infrastructure_failed = false;
  retry_limit_reached = false;
  user_cancelled = false;
  terminal_status = none;
  failure_type = none;
  detected_test_framework = none;
  environment_prepared = false;
  dependencies_installed = false;
  failing_test_files = [];
  failing_test_content = none;
  related_source_file = none;
  repair_phase = not_started;
  files_read_during_repair = [];
  files_updated_during_repair = [];
  repair_attempts = 0;
  sensitive_tools_executed = [];
  rejected_tools = [];
  last_tool_executed = none;
}
