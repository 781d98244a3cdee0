-- ===== src/TestingRepair/Calls.antt =====
-- What a call of the host does to the phase and the repairs.
use mcp_software_factory.Prelude.{
  Bool, true, false, not, ◌&&◌, Option, none, some, ◌==◌, string_eq, option_eq, bool_eq, leb,
  contains, arith, if◌then◌else◌,
}
use mcp_software_factory.Host.Types.{run_tests, tool_eq, repair_phase_eq, ExecutionState, Arguments}
use mcp_software_factory.Host.Validation.{Verdict, accepted, rejected, raised}
use mcp_software_factory.Host.Call.{
  Host, Surroundings, Call, Reply, reject_call, execute_call, ask_and_execute, count_attempt,
  project_key, limit_and_execute, by_verdict, check_and_execute, handle_function_call,
  max_test_attempts,
}
use mcp_software_factory.TestingRepair.Forward.{
  IsForward, idle, IsIdle, IsIdle-IsForward, update-IsForward,
}

-- Of the reply only the host counts.
either-IsForward :
    (b : Bool) (h : Host) (x y : Host × Reply)
    → IsForward h.state x.0.state
    → IsForward h.state y.0.state
    → IsForward h.state (if b then x else y).0.state
either-IsForward true h x y p q = p
either-IsForward false h x y p q = q

execute_call-IsForward :
    (w : Surroundings) (c : Call) (a : Arguments) (h : Host)
    → IsForward h.state (execute_call w c a h).state
unfolding execute_call
execute_call-IsForward w c a h = update-IsForward w.libraries w.requires_approval c.tool a _ h.state

reject_call-IsForward : (c : Call) (h : Host) → IsForward h.state (reject_call c h).state
reject_call-IsForward c h = IsIdle-IsForward _ _ (ground arith)

ask_and_execute-IsForward :
    (w : Surroundings) (c : Call) (a : Arguments) (h : Host)
    → IsForward h.state (ask_and_execute w c a h).0.state
unfolding ask_and_execute
ask_and_execute-IsForward w c a h =
    let called = execute_call-IsForward w c a h in
    either-IsForward (w.requires_approval c.tool && c.prompts) h _ _
      (either-IsForward (contains c.tool h.state.rejected_tools) h _ _ (idle h.state)
        (either-IsForward c.approves h _ _ called (reject_call-IsForward c h)))
      called

limit_and_execute-IsForward :
    (w : Surroundings) (c : Call) (a : Arguments) (h : Host)
    → IsForward h.state (limit_and_execute w c a h).0.state
unfolding limit_and_execute
limit_and_execute-IsForward w c a h =
    either-IsForward (c.tool == run_tests) h _ _
      (either-IsForward (leb max_test_attempts (h.test_attempts (project_key a))) h _ _
        (IsIdle-IsForward _ _ (limit_reached h.state))
        (ask_and_execute-IsForward w c a (count_attempt (project_key a) h)))
      (ask_and_execute-IsForward w c a h)
  where
    limit_reached :
        (s : ExecutionState)
        → IsIdle s (record s {
          retry_limit_reached = true;
          terminal_status = some "retry_limit_reached";
          failure_type = some "retry_limit_reached";
        })
    limit_reached s = ground arith

by_verdict-IsForward :
    (w : Surroundings) (c : Call) (a : Arguments) (h : Host) (v : Verdict)
    → IsForward h.state (by_verdict w c a h v).0.state
by_verdict-IsForward w c a h accepted = limit_and_execute-IsForward w c a h
by_verdict-IsForward w c a h raised = idle h.state
by_verdict-IsForward w c a h (rejected status) = idle h.state

check-IsForward :
    (w : Surroundings) (c : Call) (h : Host) (a : Option Arguments)
    → IsForward h.state (check_and_execute w c h a).0.state
unfolding check_and_execute
check-IsForward w c h none = idle h.state
check-IsForward w c h (some a) =
    either-IsForward (contains c.key h.rejected_calls) h _ _ (idle h.state)
      (by_verdict-IsForward w c a h _)

pub call-IsForward :
    (w : Surroundings) (c : Call) (h : Host)
    → IsForward h.state (handle_function_call w c h).0.state
unfolding handle_function_call
call-IsForward w c h = either-IsForward (not c.parses) h _ _ (idle h.state) (
    either-IsForward (not (w.registered c.tool)) h _ _ (idle h.state) (
      either-IsForward c.has_schema_errors h _ _ (IsIdle-IsForward _ _ (failed h.state))
        (check-IsForward w c h _)))
  where
    failed :
        (s : ExecutionState) → IsIdle s (record s { failure_type = some "invalid_tool_arguments" })
    failed s = ground arith
