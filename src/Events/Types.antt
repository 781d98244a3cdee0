-- ===== src/Events/Types.antt =====
-- `WorkflowEventType` of streaming/catalog.py and `WorkflowEvent` of streaming/models.py, without the
-- identifier, the timestamp, the source, the status, the message and the data that no queue reads.
use mcp_software_factory.Prelude.{
  ℕ, String, Bool, true, false, Option, some, Eq, discrete_eq, or_else, get_or,
}

pub data EventType : Type 0 where
  workflow_started workflow_resumed workflow_forked : EventType
  workflow_completed workflow_failed stage_started : EventType
  stage_completed stage_failed supervisor_decision_started : EventType
  supervisor_decision_completed supervisor_fallback_used supervisor_loop_detected : EventType
  handoff_completed planning_started planning_completed : EventType
  planning_failed workspace_inspection_started workspace_inspection_completed : EventType
  implementation_started implementation_validation_completed implementation_completed : EventType
  implementation_failed testing_started testing_completed : EventType
  testing_failed repair_started repair_completed : EventType
  repair_failed approval_required approval_granted : EventType
  approval_rejected tool_started tool_completed : EventType
  tool_failed test_run_started test_run_completed : EventType
  test_run_failed : EventType

-- The value of the type, as a text.
unfoldable pub type_text : EventType → String
type_text workflow_started = "workflow_started"
type_text workflow_resumed = "workflow_resumed"
type_text workflow_forked = "workflow_forked"
type_text workflow_completed = "workflow_completed"
type_text workflow_failed = "workflow_failed"
type_text stage_started = "stage_started"
type_text stage_completed = "stage_completed"
type_text stage_failed = "stage_failed"
type_text supervisor_decision_started = "supervisor_decision_started"
type_text supervisor_decision_completed = "supervisor_decision_completed"
type_text supervisor_fallback_used = "supervisor_fallback_used"
type_text supervisor_loop_detected = "supervisor_loop_detected"
type_text handoff_completed = "handoff_completed"
type_text planning_started = "planning_started"
type_text planning_completed = "planning_completed"
type_text planning_failed = "planning_failed"
type_text workspace_inspection_started = "workspace_inspection_started"
type_text workspace_inspection_completed = "workspace_inspection_completed"
type_text implementation_started = "implementation_started"
type_text implementation_validation_completed = "implementation_validation_completed"
type_text implementation_completed = "implementation_completed"
type_text implementation_failed = "implementation_failed"
type_text testing_started = "testing_started"
type_text testing_completed = "testing_completed"
type_text testing_failed = "testing_failed"
type_text repair_started = "repair_started"
type_text repair_completed = "repair_completed"
type_text repair_failed = "repair_failed"
type_text approval_required = "approval_required"
type_text approval_granted = "approval_granted"
type_text approval_rejected = "approval_rejected"
type_text tool_started = "tool_started"
type_text tool_completed = "tool_completed"
type_text tool_failed = "tool_failed"
type_text test_run_started = "test_run_started"
type_text test_run_completed = "test_run_completed"
type_text test_run_failed = "test_run_failed"

-- `_CRITICAL_TYPES`
unfoldable pub is_critical : EventType → Bool
is_critical approval_required = true
is_critical approval_granted = true
is_critical approval_rejected = true
is_critical workflow_completed = true
is_critical workflow_failed = true
is_critical _ = false

-- `_TERMINAL_TYPES`
unfoldable pub is_terminal : EventType → Bool
is_terminal workflow_completed = true
is_terminal workflow_failed = true
is_terminal _ = false

-- The keys of `data` that the emitter reads stand beside the event's own.
pub record Event : Type 0 where
  pub thread_id : String
  pub sequence : ℕ
  pub type : EventType
  pub stage : Option String
  pub branch_id : Option String
  pub checkpoint_id : Option String
  pub operation : Option String
  pub tool_name : Option String
  pub tool : Option String
  pub attempt : Option ℕ
  pub handoff_sequence : Option ℕ

unfoldable pub EventType-discrete : Discrete EventType
EventType-discrete = hlevel

instance abbrev pub event_type_eq : Eq EventType
event_type_eq = discrete_eq EventType-discrete

-- `event_branch_id` of streaming/sqlite_store.py
abbrev pub event_branch_id : Event → String
event_branch_id e = get_or (or_else e.branch_id (some "original")) "original"
