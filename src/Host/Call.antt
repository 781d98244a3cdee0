-- ===== src/Host/Call.antt =====
-- `handle_function_call` and `enforce_test_retry_limit` of host.py. What the JSON parser, the schema
-- validator, the user and the MCP server give is part of the call.
use mcp_software_factory.Prelude.{
  ℕ, ◌+◌, ◌≡◌, String, Bool, true, not, ◌&&◌, Option, none, some, List, ◌∷◌, ◌==◌, string_eq,
  option_eq, leb, contains, get_or, if◌then◌else◌,
}
use mcp_software_factory.Host.Types.{
  Tool, read_file, run_tests, tool_eq, ExecutionState, Arguments, ToolExecutionResult,
}
use mcp_software_factory.Host.Paths.{Libraries, project_of, normalize_project_relative_path}
use mcp_software_factory.Host.Actions.{determine_next_action, get_allowed_tools}
use mcp_software_factory.Host.Validation.{
  Verdict, accepted, rejected, raised, is_repair, validate_call_against_state,
}
use mcp_software_factory.Host.Update.{reconcile_execution_result, update_execution_state}

abbrev pub max_test_attempts : ℕ
max_test_attempts = 3

-- The host: the state of the request, the keys of rejected calls, and the test runs of a project.
pub record Host : Type 0 where
  pub state : ExecutionState
  pub rejected_calls : List String
  pub test_attempts : String → ℕ

-- What surrounds the host: the libraries, the dependency policy and the registry.
pub record Surroundings : Type 0 where
  pub libraries : Libraries
  pub policy : Arguments → Bool
  pub registered : Tool → Bool
  pub requires_approval : Tool → Bool

-- A function call: its tool and arguments, whether they parse and fit the schema, the text that
-- names it, whether the user is asked and agrees, and what the server answers.
pub record Call : Type 0 where
  pub tool : Tool
  pub arguments : Arguments
  pub parses : Bool
  pub has_schema_errors : Bool
  pub key : String
  pub prompts : Bool
  pub approves : Bool
  pub answer : ToolExecutionResult

-- How a call ends: it is refused with a status, raises, or is carried out.
pub data Reply : Type 0 where
  refused : String → Reply
  failed executed : Reply

abbrev pub fail_arguments : Host → Host
fail_arguments h = record h {
  state = record h.state { failure_type = some "invalid_tool_arguments" };
}

abbrev pub reject_call : Call → Host → Host
reject_call c h = record h {
  rejected_calls = c.key ∷ h.rejected_calls;
  state = record h.state {
    rejected_tools = c.tool ∷ h.state.rejected_tools;
    user_cancelled = true;
    terminal_status = some "rejected_by_user";
    failure_type = some "user_rejected";
  };
}

-- The call of the server and the update of the state.
unfoldable pub execute_call : Surroundings → Call → Arguments → Host → Host
execute_call w c a h = record h {
  state =
      update_execution_state w.libraries w.requires_approval c.tool a
        (reconcile_execution_result h.state c.tool a c.answer) h.state;
}

unfoldable pub ask_and_execute : Surroundings → Call → Arguments → Host → Host × Reply
unfolding execute_call
ask_and_execute w c a h =
    if w.requires_approval c.tool && c.prompts
    then (if contains c.tool h.state.rejected_tools
        then (h, refused "previously_rejected")
        else (if c.approves
            then (execute_call w c a h, executed)
            else (reject_call c h, refused "rejected_by_user")))
    else (execute_call w c a h, executed)

abbrev pub project_key : Arguments → String
project_key a = get_or a.project_name ""

abbrev pub reach_limit : Host → Host
reach_limit h = record h {
  state = record h.state {
    retry_limit_reached = true;
    terminal_status = some "retry_limit_reached";
    failure_type = some "retry_limit_reached";
  };
}

abbrev pub count_attempt : String → Host → Host
count_attempt project h = record h {
  test_attempts = λ p. if p == project then h.test_attempts project + 1 else h.test_attempts p;
}

-- `enforce_test_retry_limit`, and what follows where it does not object.
unfoldable pub limit_and_execute : Surroundings → Call → Arguments → Host → Host × Reply
unfolding ask_and_execute
limit_and_execute w c a h =
    if c.tool == run_tests
    then (if leb max_test_attempts (h.test_attempts (project_key a))
        then (reach_limit h, refused "retry_limit_reached")
        else ask_and_execute w c a (count_attempt (project_key a) h))
    else ask_and_execute w c a h

abbrev pub by_verdict : Surroundings → Call → Arguments → Host → Verdict → Host × Reply
by_verdict w c a h accepted = limit_and_execute w c a h
by_verdict w c a h (rejected status) = (h, refused status)
by_verdict w c a h raised = (h, failed)

-- The checks behind the normalised arguments.
unfoldable pub check_and_execute : Surroundings → Call → Host → Option Arguments → Host × Reply
unfolding limit_and_execute
check_and_execute w c h none = (h, refused "invalid_tool_arguments")
check_and_execute w c h (some a) =
    if contains c.key h.rejected_calls
    then (h, refused "repeated_rejected_operation")
    else by_verdict w c a h (validate_call_against_state w.libraries w.policy h.state c.tool a)

abbrev pub with_path : Arguments → Option String → Option Arguments
with_path a none = none
with_path a (some path) = some (record a { relative_path = some path })

-- The path of a repair read, made relative to the workspace.
unfoldable pub normalized_arguments : Libraries → ExecutionState → Call → Option Arguments
normalized_arguments l s c =
    if is_repair (determine_next_action s) && c.tool == read_file
    then with_path c.arguments
        (normalize_project_relative_path l (project_of s) (get_or c.arguments.relative_path ""))
    else some c.arguments

unfoldable pub handle_function_call : Surroundings → Call → Host → Host × Reply
unfolding check_and_execute normalized_arguments
handle_function_call w c h =
    if not c.parses
    then (h, refused "invalid_json")
    else (if not (w.registered c.tool)
        then (h, refused "unknown_tool")
        else (if c.has_schema_errors
            then (fail_arguments h, refused "invalid_tool_arguments")
            else check_and_execute w c h (normalized_arguments w.libraries h.state c)))

-- A call of a tool that is allowed in the present state.
pub data Step (w : Surroundings) : Host → Host → Type 0 where
  calls_allowed :
      (c : Call) (h : Host)
      → contains c.tool (get_allowed_tools w.registered h.state) ≡ true
      → Step w h (handle_function_call w c h).0

-- The hosts that such calls reach from a fresh one.
pub data Reachable (w : Surroundings) (start : Host) : Host → Type 0 where
  started : Reachable w start start
  stepped : {a b : Host} → Reachable w start a → Step w a b → Reachable w start b
