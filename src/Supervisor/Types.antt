-- ===== src/Supervisor/Types.antt =====
-- The enumerations of graph/state.py and graph/supervisor/models.py that the supervisor reads.
use mcp_software_factory.Prelude.{
  String, Option, none, some, Eq, discrete_eq, string_eq, ◌==◌, if◌then◌else◌,
}

pub data WorkflowIntent : Type 0 where
  create_project review_existing_project : WorkflowIntent

pub data TerminalStatus : Type 0 where
  pending completed infrastructure_failed tests_failed repair_limit_reached : TerminalStatus
  user_cancelled planning_failed implementation_failed ci_failed : TerminalStatus
  supervisor_loop_detected : TerminalStatus

pub data PendingApprovalStatus : Type 0 where
  no_approval waiting approved rejected : PendingApprovalStatus

-- A `StrEnum`: `value` gives the text that each member is.
pub data SupervisorTarget : Type 0 where
  planning inspect_workspace implementation testing_repair : SupervisorTarget
  git_workflow ci_pipeline git_promotion finalize : SupervisorTarget

abbrev pub value : SupervisorTarget → String
value planning = "planning"
value inspect_workspace = "inspect_workspace"
value implementation = "implementation"
value testing_repair = "testing_repair"
value git_workflow = "git_workflow"
value ci_pipeline = "ci_pipeline"
value git_promotion = "git_promotion"
value finalize = "finalize"

-- `SupervisorTarget(text)`, where `none` is the `ValueError`
unfoldable pub parse_target : String → Option SupervisorTarget
parse_target s =
    if s == "planning"
    then some planning
    else (if s == "inspect_workspace"
        then some inspect_workspace
        else (if s == "implementation"
            then some implementation
            else (if s == "testing_repair"
                then some testing_repair
                else (if s == "git_workflow"
                    then some git_workflow
                    else (if s == "ci_pipeline"
                        then some ci_pipeline
                        else (if s == "git_promotion"
                            then some git_promotion
                            else (if s == "finalize" then some finalize else none)))))))

unfoldable pub SupervisorTarget-discrete : Discrete SupervisorTarget
SupervisorTarget-discrete = hlevel

instance abbrev pub target_eq : Eq SupervisorTarget
target_eq = discrete_eq SupervisorTarget-discrete

unfoldable pub WorkflowIntent-discrete : Discrete WorkflowIntent
WorkflowIntent-discrete = hlevel

instance abbrev pub intent_eq : Eq WorkflowIntent
intent_eq = discrete_eq WorkflowIntent-discrete

unfoldable pub PendingApprovalStatus-discrete : Discrete PendingApprovalStatus
PendingApprovalStatus-discrete = hlevel

instance abbrev pub approval_eq : Eq PendingApprovalStatus
approval_eq = discrete_eq PendingApprovalStatus-discrete
