-- ===== src/TestingRepair/Graph.antt =====
-- The testing and repair subgraph: its nodes and edges, `build_testing_repair_subgraph`
-- (graph/subgraphs/testing_repair/builder.py).
use mcp_software_factory.Prelude.{ℕ, zero, suc, Option, none, some}
use mcp_software_factory.Host.Call.{Surroundings}
use mcp_software_factory.TestingRepair.State.{TestingRepairState}
use mcp_software_factory.TestingRepair.Nodes.{
  Turn, System, prepare_knowledge, prepare_test_request, prepare_fix, approval, execute_tests,
  execute_fix,
}
use mcp_software_factory.TestingRepair.Reads.{read_failing_test_node, read_related_source_node}
use mcp_software_factory.TestingRepair.Routers.{
  Route, route_testing_entry, route_testing_approval, route_after_tests,
  route_after_read_failing_test, route_after_related_source, route_after_prepare_fix,
  route_after_execute_fix,
}
use mcp_software_factory.TestingRepair.Routers

pub data Node : Type 0 where
  at_qa_knowledge at_repair_knowledge at_test_request at_approval at_tests : Node
  at_failing_test at_related_source at_prepare_fix at_fix at_exit : Node

-- What a node makes of the system; `none` is an exception.
abbrev pub run_node : Surroundings → Turn → Node → System → Option System
run_node w u at_qa_knowledge y = some (prepare_knowledge w u y)
run_node w u at_repair_knowledge y = some (prepare_knowledge w u y)
run_node w u at_test_request y = some (record y { state = prepare_test_request y.state })
run_node w u at_approval y = some (record y { state = approval u.decision y.state })
run_node w u at_tests y = execute_tests w u y
run_node w u at_failing_test y = read_failing_test_node w u y
run_node w u at_related_source y = read_related_source_node w u y
run_node w u at_prepare_fix y = some (record y { state = prepare_fix u y.state })
run_node w u at_fix y = execute_fix w u y
run_node w u at_exit y = some y

abbrev pub after_entry : Route → Node
after_entry Routers.read_failing_test = at_failing_test
after_entry Routers.read_related_source = at_related_source
after_entry Routers.prepare_fix = at_repair_knowledge
after_entry _ = at_qa_knowledge

abbrev pub after_approval : Option Route → Option Node
after_approval none = none
after_approval (some Routers.execute_tests) = some at_tests
after_approval (some Routers.execute_fix) = some at_fix
after_approval (some _) = some at_exit

abbrev pub after_tests : Route → Node
after_tests Routers.repair = at_failing_test
after_tests _ = at_exit

abbrev pub after_failing_test : Route → Node
after_failing_test Routers.continue = at_related_source
after_failing_test _ = at_exit

abbrev pub after_related_source : Route → Node
after_related_source Routers.prepare_fix = at_repair_knowledge
after_related_source Routers.retry_read = at_related_source
after_related_source _ = at_exit

abbrev pub after_prepare_fix : Route → Node
after_prepare_fix Routers.approval = at_approval
after_prepare_fix _ = at_exit

abbrev pub after_fix : Route → Node
after_fix Routers.rerun_tests = at_qa_knowledge
after_fix _ = at_exit

-- The edges; `none` is an exception of a router.
abbrev pub next_node : Node → TestingRepairState → Option Node
next_node at_qa_knowledge s = some at_test_request
next_node at_repair_knowledge s = some at_prepare_fix
next_node at_test_request s = some at_approval
next_node at_approval s = after_approval (route_testing_approval s)
next_node at_tests s = some (after_tests (route_after_tests s))
next_node at_failing_test s = some (after_failing_test (route_after_read_failing_test s))
next_node at_related_source s = some (after_related_source (route_after_related_source s))
next_node at_prepare_fix s = some (after_prepare_fix (route_after_prepare_fix s))
next_node at_fix s = some (after_fix (route_after_execute_fix s))
next_node at_exit s = some at_exit

-- How a run ends: at `_exit`, with an exception, or not within the fuel.
pub data Result : Type 0 where
  finished : System → Result
  excepted exhausted : Result

abbrev pub arrive : (Node → System → Result) → System → Option Node → Result
arrive go y none = excepted
arrive go y (some n) = go n y

abbrev pub advance : (Node → System → Result) → Node → Option System → Result
advance go n none = excepted
advance go n (some y) = arrive go y (next_node n y.state)

-- The nodes that are run from one on, each with its turn.
unfoldable pub run : ℕ → Surroundings → (ℕ → Turn) → Node → System → Result
run fuel w turns at_exit y = finished y
run zero w turns n y = exhausted
run (suc fuel) w turns n y = advance (run fuel w turns) n (run_node w (turns fuel) n y)

unfoldable pub run_testing_repair : ℕ → Surroundings → (ℕ → Turn) → System → Result
unfolding run
run_testing_repair fuel w turns y = run fuel w turns (after_entry (route_testing_entry y.state)) y
