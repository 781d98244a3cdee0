-- ===== src/TestingRepair/Nodes.antt =====
-- The nodes of the testing and repair subgraph (graph/nodes.py, and the two that fetch knowledge in
-- graph/subgraphs/testing_repair/builder.py). What surrounds a node is a `Turn`.
use mcp_software_factory.Prelude.{
  String, Bool, true, false, not, ◌&&◌, ◌||◌, Option, none, some, [], ◌==◌, string_eq, option_eq,
  bool_eq, get_or, or_else, is_some, truthy, if◌then◌else◌,
}
use mcp_software_factory.Host.Types.{
  Tool, read_file, update_project_files, other, RepairPhase, repair_phase_eq, read_failing_test,
  read_related_source, Arguments, Payload, ToolExecutionResult, ExecutionState,
}
use mcp_software_factory.Host.Types
use mcp_software_factory.Host.Update.{empty_payload, reconcile_execution_result}
use mcp_software_factory.Host.Call.{
  Host, Surroundings, Call, Reply, refused, failed, executed, handle_function_call,
}
use mcp_software_factory.TestingRepair.State.{
  Operation, run_tests, apply_fix, operation_eq, ApprovalStatus, nothing, waiting, approved,
  rejected, approval_status_eq, TestingRepairState, execution_state_from_graph,
  merge_execution_state,
}

-- How the user answers an approval request.
pub data ApprovalDecision : Type 0 where
  grants denies invalid : ApprovalDecision

-- What a node meets: the arguments that the model gives, the answer of the server with the content of
-- a file that is read, the decision of the user, whether the texts that a repair needs are there, and
-- whether knowledge is fetched. Of the call the node sets the tool, the arguments and the mode.
pub record Turn : Type 0 where
  pub call : Call
  pub content : Option String
  pub decision : ApprovalDecision
  pub has_texts : Bool
  pub retrieves : Bool

-- The host and the state of the subgraph.
pub record System : Type 0 where
  pub host : Host
  pub state : TestingRepairState

-- `ToolExecutionOutcome`, its updates merged into the state of the system.
pub record ToolExecutionOutcome : Type 0 where
  pub system : System
  pub payload : Option Payload
  pub content : Option String
  pub is_error : Bool

abbrev pub call_of : Turn → Tool → Arguments → Bool → Call
call_of u t a prompts = record u.call { tool = t; arguments = a; prompts = prompts }

abbrev pub system_of : Host → TestingRepairState → System
system_of h s = record { host = h; state = merge_execution_state h.state s }

abbrev pub refused_payload : String → Payload
refused_payload status = record empty_payload { success = some false; status = some status }

-- `_transport_failed` of a call that is refused
abbrev pub is_transport_failure : String → Bool
is_transport_failure status = status == "invalid_json" || status == "unknown_tool"

-- What the adapter makes of the reply of the host; `none` is an exception.
abbrev pub outcome_of :
    TestingRepairState → Turn → ToolExecutionResult → Host × Reply → Option ToolExecutionOutcome
outcome_of s u r (h, refused status) = some (record {
  system = system_of h s;
  payload = some (refused_payload status);
  content = none;
  is_error = is_transport_failure status;
})
outcome_of s u r (h, failed) = none
outcome_of s u r (h, executed) = some (record {
  system = system_of h s;
  payload = r.payload;
  content = if is_some r.payload then u.content else none;
  is_error = r.is_error;
})

-- `_execute`, through `HostToolExecutor.execute`
unfoldable pub execute :
    Surroundings → Turn → Tool → Arguments → Bool → System → Option ToolExecutionOutcome
execute w u t a prompts y =
    let e = execution_state_from_graph y.state in
    outcome_of y.state u (reconcile_execution_result e t a u.call.answer)
      (handle_function_call w (call_of u t a prompts) (record y.host { state = e }))

-- `_retrieve_knowledge`; an exception only means that there is none
abbrev pub keep_host : System → Option ToolExecutionOutcome → System
keep_host y none = y
keep_host y (some o) = record y { host = o.system.host }

unfoldable pub prepare_knowledge : Surroundings → Turn → System → System
unfolding execute
prepare_knowledge w u y =
    if u.retrieves then keep_host y (execute w u other u.call.arguments true y) else y

-- `_pending_approval`
abbrev pub pending_approval : Operation → Tool → Arguments → TestingRepairState → TestingRepairState
pending_approval o t a s = record s {
  pending_operation = some o;
  pending_tool_name = some t;
  pending_tool_arguments = some a;
  pending_approval_status = waiting;
}

-- `_cleared_approval`
abbrev pub cleared_approval : TestingRepairState → TestingRepairState
cleared_approval s = record s {
  pending_operation = none;
  pending_tool_name = none;
  pending_tool_arguments = none;
  pending_approval_status = nothing;
}

abbrev pub project_of_state : TestingRepairState → String
project_of_state s = get_or (or_else s.created_project_name s.project_name) ""

abbrev pub for_project : String → Arguments
for_project name = record { project_name = some name; relative_path = none; files = none }

abbrev pub for_path : String → Arguments
for_path path = record { project_name = none; relative_path = some path; files = none }

abbrev pub prepare_test_request : TestingRepairState → TestingRepairState
prepare_test_request s =
    pending_approval run_tests Types.run_tests (for_project (project_of_state s)) s

unfoldable pub prepare_fix : Turn → TestingRepairState → TestingRepairState
prepare_fix u s =
    if truthy s.failing_test_content
      && truthy s.related_source_content
      && u.has_texts
      && s.repair_phase == Types.apply_fix
    then pending_approval apply_fix update_project_files u.call.arguments s
    else record s { failure_type = some "repair_context_incomplete" }

unfoldable pub approval : ApprovalDecision → TestingRepairState → TestingRepairState
approval grants s = record s { pending_approval_status = approved }
approval denies s = record (cleared_approval s) {
  pending_approval_status = rejected;
  user_cancelled = true;
  terminal_status = some "user_cancelled";
  failure_type = some "user_rejected";
}
approval invalid s = record s {
  pending_approval_status = rejected;
  user_cancelled = true;
  terminal_status = some "user_cancelled";
  failure_type = some "invalid_approval_response";
}

-- `_approved_pending_tool`; `none` is an exception
abbrev pub approved_arguments :
    ApprovalStatus → Option Tool → Option Arguments → Option (Tool × Arguments)
approved_arguments approved (some t) (some a) = some (t, a)
approved_arguments _ _ _ = none

abbrev pub approved_pending_tool : TestingRepairState → Option (Tool × Arguments)
approved_pending_tool s =
    approved_arguments s.pending_approval_status s.pending_tool_name s.pending_tool_arguments

unfoldable pub execute_approved :
    Surroundings → Turn → System → Option (Tool × Arguments) → Option ToolExecutionOutcome
unfolding execute
execute_approved w u y none = none
execute_approved w u y (some (t, a)) = execute w u t a false y

abbrev pub clear_approval : System → System
clear_approval y = record y { state = cleared_approval y.state }

-- `updates.get("tests_passed") is False and updates.get("repair_phase") == "read_failing_test"`, where
-- the updates are the values that changed
abbrev pub starts_repair : TestingRepairState → TestingRepairState → Bool
starts_repair before after =
    after.tests_passed == some false
    && not (before.tests_passed == some false)
    && after.repair_phase == read_failing_test
    && not (before.repair_phase == read_failing_test)

abbrev pub forget_source : System → System
forget_source y = record y {
  state = record y.state {
    related_source_content = none;
    related_source_file = none;
    related_source_candidates = [];
    related_source_read_attempts = 0;
  };
}

abbrev pub after_execution : TestingRepairState → Option ToolExecutionOutcome → Option System
after_execution before none = none
after_execution before (some o) =
    if starts_repair before o.system.state
    then some (forget_source (clear_approval o.system))
    else some (clear_approval o.system)

unfoldable pub execute_tests : Surroundings → Turn → System → Option System
unfolding execute_approved
execute_tests w u y =
    after_execution y.state (execute_approved w u y (approved_pending_tool y.state))

-- `str(payload.get("status") or payload.get("failure_type") or …)`, with the status of the guard
-- renamed
abbrev pub fix_failure : Option Payload → String
fix_failure none = "update_project_files_failed"
fix_failure (some p) =
    let status =
      get_or (or_else (or_else p.status p.failure_type) (some "update_project_files_failed")) "" in
    if status == "repair_step_not_allowed" then "repair_state_guard_rejected" else status

-- `payload.get("success") is b`
abbrev pub has_success : Bool → Option Payload → Bool
has_success b none = false
has_success b (some p) = p.success == some b

-- The updates of the host are merged only where the fix was made.
abbrev pub after_fix : System → Option ToolExecutionOutcome → Option System
after_fix y none = none
after_fix y (some o) =
    if o.is_error || not (has_success true o.payload)
    then some (record {
      host = o.system.host;
      state = record (cleared_approval y.state) { failure_type = some (fix_failure o.payload) };
    })
    else some (clear_approval o.system)

unfoldable pub execute_fix : Surroundings → Turn → System → Option System
unfolding execute_approved
execute_fix w u y = after_fix y (execute_approved w u y (approved_pending_tool y.state))
