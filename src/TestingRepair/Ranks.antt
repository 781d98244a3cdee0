-- ===== src/TestingRepair/Ranks.antt =====
-- How many nodes a run of the subgraph can still visit, and that each node leaves fewer.
use mcp_software_factory.Prelude.{
  ℕ, ◌+◌, ◌-◌, ◌*◌, ◌≤◌, ◌<◌, max, ◌≡◌, ◌⊎◌, true, some, ◌==◌, option_eq, string_eq, bool_eq, leb,
  truthy, arith, if◌then◌else◌,
}
use mcp_software_factory.Host.Types.{RepairPhase, RepairPhase-discrete, repair_phase_eq}
use mcp_software_factory.Host.Types
use mcp_software_factory.TestingRepair.State.{
  Operation-discrete, run_tests, apply_fix, operation_eq, ApprovalStatus-discrete,
  approval_status_eq, TestingRepairState,
}
use mcp_software_factory.TestingRepair.Nodes.{
  Turn, ApprovalDecision, prepare_test_request, prepare_fix, approval,
}
use mcp_software_factory.TestingRepair.Routers.{
  route_testing_approval, route_after_tests, route_after_read_failing_test,
  route_after_related_source, route_after_prepare_fix, route_after_execute_fix,
}
use mcp_software_factory.TestingRepair.Graph.{
  Node, at_qa_knowledge, at_repair_knowledge, at_test_request, at_approval, at_tests,
  at_failing_test, at_related_source, at_prepare_fix, at_fix, at_exit, next_node,
}
use mcp_software_factory.TestingRepair.Later.{WhenSome}

-- The repairs that are left, and one more where a repair has begun all the same.
abbrev left : TestingRepairState → ℕ
left s = 2 - s.repair_attempts

abbrev begun : TestingRepairState → ℕ
begun s = max (left s) 1

abbrev pub rank : Node → TestingRepairState → ℕ
rank at_qa_knowledge s = 11 * left s + 4
rank at_test_request s = 11 * left s + 3
rank at_approval s =
    if s.pending_operation == some run_tests then 11 * left s + 2 else 11 * begun s - 5
rank at_tests s = 11 * left s + 1
rank at_failing_test s = 11 * begun s
rank at_related_source s =
    if leb s.related_source_read_attempts 0 then 11 * begun s - 1 else 11 * begun s - 2
rank at_repair_knowledge s = 11 * begun s - 3
rank at_prepare_fix s = 11 * begun s - 4
rank at_fix s = 11 * begun s - 6
rank at_exit s = 0

-- A fix is asked for and made only in the phase of the fix, or behind a failure.
abbrev pub MayFix : TestingRepairState → Type 0
MayFix s = (s.repair_phase ≡ Types.apply_fix) ⊎ (truthy s.failure_type ≡ true)

abbrev pub IsPlaced : Node → TestingRepairState → Type 0
IsPlaced at_approval s = s.pending_operation ≡ some apply_fix → MayFix s
IsPlaced at_fix s = MayFix s
IsPlaced _ s = Unit

-- From a node in one state, another one can be next in the other state.
abbrev pub IsNext : Node → TestingRepairState → TestingRepairState → Node → Type 0
IsNext n s t m = (rank m t < rank n s) × IsPlaced m t

abbrev pub Leads : Node → TestingRepairState → TestingRepairState → Type 0
Leads n s t = WhenSome (IsNext n s t) (next_node n t)

pub knowledge-Leads :
    (s : TestingRepairState) → Leads at_qa_knowledge s s × Leads at_repair_knowledge s s
knowledge-Leads s = ground arith

pub test_request-Leads : (s : TestingRepairState) → Leads at_test_request s (prepare_test_request s)
unfolding Operation-discrete
test_request-Leads s = ground arith

pub approval-Leads :
    (d : ApprovalDecision) (s : TestingRepairState)
    → IsPlaced at_approval s
    → Leads at_approval s (approval d s)
unfolding approval route_testing_approval Operation-discrete ApprovalStatus-discrete
approval-Leads d s p = ground arith

pub prepare_fix-Leads :
    (u : Turn) (s : TestingRepairState) → Leads at_prepare_fix s (prepare_fix u s)
unfolding prepare_fix route_after_prepare_fix Operation-discrete ApprovalStatus-discrete
    RepairPhase-discrete
prepare_fix-Leads u s = ground arith

-- The states behind an execution, whatever else it changes.
pub tests-Leads :
    (s t : TestingRepairState) → s.repair_attempts ≤ t.repair_attempts → Leads at_tests s t
unfolding route_after_tests
tests-Leads s t g = ground arith

pub failing_test-Leads :
    (s t : TestingRepairState) → s.repair_attempts ≤ t.repair_attempts → Leads at_failing_test s t
unfolding route_after_read_failing_test
failing_test-Leads s t g = ground arith

pub fix-Leads :
    (s t : TestingRepairState)
    → s.repair_attempts ≤ t.repair_attempts
    → ((t.repair_phase ≡ Types.rerun_tests → s.repair_attempts < t.repair_attempts)
        ⊎ (truthy t.failure_type ≡ true))
    → Leads at_fix s t
unfolding route_after_execute_fix RepairPhase-discrete
fix-Leads s t g c = ground arith

-- A read is tried again only behind the first attempt.
pub related_source-Leads :
    (s t : TestingRepairState)
    → s.repair_attempts ≤ t.repair_attempts
    → t.related_source_read_attempts ≡ s.related_source_read_attempts + 1
    → Leads at_related_source s t
unfolding route_after_related_source
related_source-Leads s t g c = ground arith
