-- ===== src/Supervisor/State.antt =====
-- The part of `SoftwareFactoryState` (graph/state.py) that graph/supervisor reads.
-- A flag that every reader takes by its truth is a `Bool`, and a counter that every reader takes
-- with the default 0 is a number: a missing key reads as `false` and 0. Where a reader tells a
-- missing key from a value, the field is an `Option`.
use mcp_software_factory.Prelude.{
  ℕ, String, Bool, not, ◌||◌, Option, none, List, ◌==◌, nat_eq, is_some,
}
use mcp_software_factory.Supervisor.Types.{WorkflowIntent, TerminalStatus, PendingApprovalStatus}

-- A float in thousandths, with its sign.
pub record Confidence : Type 0 where
  pub negative : Bool
  pub thousandths : ℕ

-- `other_keys` counts the keys of the dictionary that the supervisor does not read: a
-- dictionary is true when it has any key.
pub record PlanningResult : Type 0 where
  pub valid : Option Bool
  pub attempts : Option ℕ
  pub other_keys : ℕ

pub record ImplementationResult : Type 0 where
  pub valid : Option Bool
  pub attempts : Option ℕ
  pub project_created : Option Bool
  pub environment_prepared : Option Bool

pub record TestingResult : Type 0 where
  pub tests_executed : Option Bool
  pub tests_passed : Option Bool
  pub repair_phase : Option String
  pub repair_attempts : Option ℕ

-- `state.get("planning_result") or {}` and its like: a missing dictionary is an empty one.
abbrev pub no_planning_result : PlanningResult
no_planning_result = record { valid = none; attempts = none; other_keys = 0 }

abbrev pub no_implementation_result : ImplementationResult
no_implementation_result = record {
  valid = none;
  attempts = none;
  project_created = none;
  environment_prepared = none;
}

abbrev pub no_testing_result : TestingResult
no_testing_result = record {
  tests_executed = none;
  tests_passed = none;
  repair_phase = none;
  repair_attempts = none;
}

-- `bool(planning_result)`
abbrev pub planning_result_present : PlanningResult → Bool
planning_result_present r = is_some r.valid || is_some r.attempts || not (r.other_keys == 0)

-- `SupervisorProgressFingerprint`
pub record Fingerprint : Type 0 where
  pub current_stage : String
  pub planning_valid : Bool
  pub planning_attempts : ℕ
  pub workspace_inspected : Bool
  pub implementation_valid : Bool
  pub implementation_attempts : ℕ
  pub project_created : Bool
  pub environment_prepared : Bool
  pub tests_executed : Bool
  pub tests_passed : Bool
  pub repair_phase : String
  pub repair_attempts : ℕ
  pub git_workflow_state : String
  pub git_commit_status : Option String
  pub ci_state : String
  pub ci_validated_commit : Option String

-- `item.get("sequence", default)`: missing, an integer, or a value of another type.
pub data Sequence : Type 0 where
  absent : Sequence
  number : ℕ → Sequence
  other : Sequence

-- An item of `handoff_history`. Items of old checkpoints lack some keys.
pub record Handoff : Type 0 where
  pub sequence : Sequence
  pub to : Option String
  pub attempted_to : Option String
  pub selected_to : Option String
  pub executed_to : Option String
  pub reason : Option String
  pub source : Option String
  pub confidence : Option Confidence
  pub progress_fingerprint : Option Fingerprint
  pub progress_detected : Option Bool
  pub branch_id : Option String
  pub planning_attempts : Option ℕ
  pub implementation_attempts : Option ℕ
  pub tests_executed : Option Bool
  pub tests_passed : Option Bool
  pub repair_phase : Option String
  pub repair_attempts : Option ℕ
  pub lineage : Option String

pub record State : Type 0 where
  pub workflow_intent : Option WorkflowIntent
  pub terminal_status : Option TerminalStatus
  pub pending_approval_status : Option PendingApprovalStatus
  pub last_completed_stage : Option String
  pub last_completed_node : Option String
  pub planning_result : PlanningResult
  pub planning_valid : Bool
  pub planning_attempts : ℕ
  pub max_planning_attempts : Option ℕ
  pub workspace_inspected : Bool
  pub implementation_result : ImplementationResult
  pub implementation_valid : Bool
  pub implementation_attempts : ℕ
  pub max_implementation_attempts : Option ℕ
  pub project_created : Bool
  pub project_exists : Bool
  pub environment_prepared : Bool
  pub detected_test_framework : Option String
  pub testing_result : TestingResult
  pub tests_executed : Bool
  pub tests_passed : Bool
  pub test_infrastructure_failed : Bool
  pub retry_limit_reached : Bool
  pub repair_phase : Option String
  pub repair_attempts : ℕ
  pub files_updated_during_repair : List String
  pub git_integration_enabled : Bool
  pub git_workflow_state : Option String
  pub git_workflow_branch : Option String
  pub git_commit_status : Option String
  pub git_head_commit : Option String
  pub git_developer_commit_sha : Option String
  pub git_repair_commit_sha : Option String
  pub git_promotion_required : Bool
  pub git_auto_prepare_promotion : Bool
  pub git_promotion_state : Option String
  pub ci_promotion_required : Bool
  pub ci_state : Option String
  pub ci_validated_commit : Option String
  pub ci_promotion_eligible : Option Bool
  pub ci_decision : Option String
  pub fork_origin_checkpoint_id : Option String
  pub handoff_history : List Handoff
  pub supervisor_decision : Option String
  pub supervisor_reason : Option String
  pub supervisor_confidence : Option Confidence
  pub supervisor_decision_source : Option String
  pub allowed_handoffs : List String
  pub supervisor_attempts : ℕ
  pub max_supervisor_attempts : Option ℕ
  pub supervisor_errors : List String
  pub supervisor_invalid_decision_count : ℕ
  pub consecutive_invalid_decisions : ℕ
  pub supervisor_stagnant_loop_probe_count : ℕ
  pub supervisor_stagnant_loop_fingerprint : Option Fingerprint
  pub supervisor_stagnant_loop_active : Bool
  pub failure_type : Option String
  pub failure_stage : Option String
  pub failure_message : Option String
