-- ===== src/TestingRepair/NodeLaws.antt =====
-- What single nodes of the subgraph promise.
use mcp_software_factory.Prelude.{
  ℕ, suc, ◌≡◌, ◌≢◌, refl, Bool, true, false, Option, none, some, List, option_eq, bool_eq, arith,
  if◌then◌else◌, String,
}
use mcp_software_factory.Host.Types.{Tool, repair_phase_eq, Arguments, ToolExecutionResult}
use mcp_software_factory.Host.Update.{reconcile_execution_result}
use mcp_software_factory.Host.Call.{Host, Surroundings, Reply, refused, failed, executed}
use mcp_software_factory.TestingRepair.State.{
  execution_state_from_graph, TestingRepairState, ApprovalStatus-discrete,
}
use mcp_software_factory.TestingRepair.Nodes.{
  Turn, System, ToolExecutionOutcome, ApprovalDecision, grants, denies, invalid, approval,
  outcome_of, execute, execute_approved, after_execution, execute_tests, starts_repair,
}
use mcp_software_factory.TestingRepair.Routers.{route_testing_approval}
use mcp_software_factory.TestingRepair.Graph.{at_approval, finished, advance, run}
use mcp_software_factory.TestingRepair.Later.{WhenSome}
use mcp_software_factory.TestingRepair.Termination.{run_exit}

-- The source that the repair works on, with the candidates and the attempts to read them.
abbrev pub repair_source : TestingRepairState → Option String × (List String × ℕ)
repair_source s =
    (s.related_source_content, (s.related_source_candidates, s.related_source_read_attempts))

outcome_of_source :
    (s : TestingRepairState) (u : Turn) (r : ToolExecutionResult) (q : Host × Reply)
    → WhenSome
        (λ (o : ToolExecutionOutcome). repair_source o.system.state ≡ repair_source s)
        (outcome_of s u r q)
outcome_of_source s u r (h, refused status) = refl
outcome_of_source s u r (h, failed) = tt
outcome_of_source s u r (h, executed) = refl

execute_approved_source :
    (w : Surroundings) (u : Turn) (y : System) (ta : Option (Tool × Arguments))
    → WhenSome
        (λ (o : ToolExecutionOutcome). repair_source o.system.state ≡ repair_source y.state)
        (execute_approved w u y ta)
unfolding execute_approved execute
execute_approved_source w u y none = tt
execute_approved_source w u y (some (t, a)) =
    outcome_of_source y.state u
      (reconcile_execution_result (execution_state_from_graph y.state) t a u.call.answer) _

if-WhenSome :
    (P : System → Type 0) (b : Bool) (p q : Option System)
    → b ≡ false
    → WhenSome P q
    → WhenSome P (if b then p else q)
if-WhenSome P true p q e h = absurd (ground (arith, e))
if-WhenSome P false p q e h = h

failed_before : (s t : TestingRepairState) → s.tests_passed ≡ some false → starts_repair s t ≡ false
failed_before s t h = ground arith

after_execution_source :
    (s : TestingRepairState) (o : Option ToolExecutionOutcome)
    → s.tests_passed ≡ some false
    → WhenSome (λ (x : ToolExecutionOutcome). repair_source x.system.state ≡ repair_source s) o
    → WhenSome (λ (y : System). repair_source y.state ≡ repair_source s) (after_execution s o)
after_execution_source s none h e = tt
after_execution_source s (some o) h e =
    if-WhenSome (λ (y : System). repair_source y.state ≡ repair_source s)
      (starts_repair s o.system.state) _ _ (failed_before s o.system.state h) e

-- Where the tests had failed before, executing them forgets neither the source that was read nor the
-- candidates nor the attempts to read them, whatever the tests answer now.
pub repeated_failure_keeps_source :
    (w : Surroundings) (u : Turn) (y : System)
    → y.state.tests_passed ≡ some false
    → WhenSome (λ (z : System). repair_source z.state ≡ repair_source y.state) (execute_tests w u y)
unfolding execute_tests
repeated_failure_keeps_source w u y h =
    after_execution_source y.state _ h (execute_approved_source w u y _)

denied :
    (fuel : ℕ) (w : Surroundings) (turns : ℕ → Turn) (y : System) (d : ApprovalDecision)
    → d ≢ grants
    → (advance (run fuel w turns) at_approval (some (record y { state = approval d y.state }))
        ≡ finished (record y { state = approval d y.state }))
      × (((approval d y.state).user_cancelled ≡ true)
          × ((approval d y.state).terminal_status ≡ some "user_cancelled"))
unfolding approval route_testing_approval ApprovalStatus-discrete
denied fuel w turns y grants h = absurd (h refl)
denied fuel w turns y denies h = (run_exit fuel w turns _, (refl, refl))
denied fuel w turns y invalid h = (run_exit fuel w turns _, (refl, refl))

-- An approval request that is not granted ends the subgraph: no tool is called, so that the host is
-- as before, and the state is cancelled by the user.
pub denied_request_ends :
    (fuel : ℕ) (w : Surroundings) (turns : ℕ → Turn) (y : System)
    → (turns fuel).decision ≢ grants
    → (s : TestingRepairState) × ((run (suc fuel) w turns at_approval y
          ≡ finished (record y { state = s }))
        × ((s.user_cancelled ≡ true) × (s.terminal_status ≡ some "user_cancelled")))
unfolding run
denied_request_ends fuel w turns y h =
    (approval (turns fuel).decision y.state, denied fuel w turns y (turns fuel).decision h)
