-- ===== src/TestingRepair/Routers.antt =====
-- The routers of the testing and repair subgraph (graph/subgraphs/testing_repair/routers.py).
use mcp_software_factory.Prelude.{
  ℕ, false, not, ◌&&◌, ◌||◌, Option, none, some, ◌==◌, string_eq, option_eq, truthy, ltb, leb,
  length, min, get_or, if◌then◌else◌,
}
use mcp_software_factory.Host.Types.{RepairPhase, repair_phase_eq}
use mcp_software_factory.Host.Types
use mcp_software_factory.TestingRepair.State.{
  Operation, create_project, prepare_environment, run_tests, apply_fix, operation_eq,
  ApprovalStatus, waiting, approved, approval_status_eq, TestingRepairState,
}
use mcp_software_factory.TestingRepair.State

abbrev pub max_repair_attempts : ℕ
max_repair_attempts = 2

-- What the routers answer.
pub data Route : Type 0 where
  tests read_failing_test read_related_source prepare_fix : Route
  execute_tests execute_fix rejected : Route
  passed repair no_tests_collected infrastructure_failed repair_limit_reached : Route
  continue failed retry_read finalize approval rerun_tests cancelled : Route

abbrev pub route_phase : RepairPhase → Route
route_phase Types.read_failing_test = read_failing_test
route_phase Types.read_related_source = read_related_source
route_phase Types.apply_fix = prepare_fix
route_phase _ = tests

unfoldable pub route_testing_entry : TestingRepairState → Route
route_testing_entry s = if not s.is_fork then tests else route_phase s.repair_phase

-- `none` is an exception.
abbrev pub route_operation : Option Operation → Option Route
route_operation (some run_tests) = some execute_tests
route_operation (some apply_fix) = some execute_fix
route_operation _ = none

unfoldable pub route_testing_approval : TestingRepairState → Option Route
route_testing_approval s =
    if s.pending_approval_status == State.rejected || s.user_cancelled
    then some rejected
    else (if not (s.pending_approval_status == approved)
        then none
        else route_operation s.pending_operation)

unfoldable pub route_after_tests : TestingRepairState → Route
route_after_tests s =
    if get_or s.tests_passed false
    then passed
    else (if s.failure_type == some "no_tests_collected"
        then no_tests_collected
        else (if s.test_infrastructure_failed
            then infrastructure_failed
            else (if s.retry_limit_reached || leb max_repair_attempts s.repair_attempts
                then repair_limit_reached
                else repair)))

unfoldable pub route_after_read_failing_test : TestingRepairState → Route
route_after_read_failing_test s =
    if truthy s.failing_test_content && s.repair_phase == Types.read_related_source
    then continue
    else failed

unfoldable pub route_after_related_source : TestingRepairState → Route
route_after_related_source s =
    if s.repair_phase == Types.apply_fix && truthy s.related_source_content
    then prepare_fix
    else (if ltb s.related_source_read_attempts
          (min (length s.related_source_candidates) max_repair_attempts)
        then retry_read
        else finalize)

unfoldable pub route_after_prepare_fix : TestingRepairState → Route
route_after_prepare_fix s =
    if s.pending_operation == some apply_fix && s.pending_approval_status == waiting
    then approval
    else failed

unfoldable pub route_after_execute_fix : TestingRepairState → Route
route_after_execute_fix s =
    if s.user_cancelled
    then cancelled
    else (if s.repair_phase == Types.rerun_tests && not (truthy s.failure_type)
        then rerun_tests
        else failed)
