-- ===== src/TestingRepair/Later.antt =====
-- What a tool that a node executes does to the phase and the repairs in the state of the subgraph.
use mcp_software_factory.Prelude.{
  ◌≤◌, ◌<◌, String, ◌≡◌, refl, Bool, true, false, Option, none, some, truthy, if◌then◌else◌,
}
use mcp_software_factory.Host.Types.{Tool, apply_fix, rerun_tests, Arguments, ToolExecutionResult}
use mcp_software_factory.Host.Update.{reconcile_execution_result}
use mcp_software_factory.Host.Call.{Host, Surroundings, Reply, refused, failed, executed}
use mcp_software_factory.TestingRepair.State.{TestingRepairState, execution_state_from_graph}
use mcp_software_factory.TestingRepair.Nodes.{
  Turn, System, ToolExecutionOutcome, outcome_of, call_of, execute, execute_approved, keep_host,
  prepare_knowledge,
}
use mcp_software_factory.TestingRepair.Reads.{read_path}
use mcp_software_factory.TestingRepair.Forward.{IsForward}
use mcp_software_factory.TestingRepair.Calls.{call-IsForward}

-- What holds of the value, where there is one.
abbrev pub WhenSome {ℓ} : {A : Type ℓ} → (A → Type 0) → Option A → Type 0
WhenSome P none = Unit
WhenSome P (some a) = P a

pub record IsLater (s t : TestingRepairState) : Type 0 where
  pub grows : s.repair_attempts ≤ t.repair_attempts
  pub counts :
      s.repair_phase ≡ apply_fix
      → t.repair_phase ≡ rerun_tests
      → s.repair_attempts < t.repair_attempts
  pub fails : truthy s.failure_type ≡ true → truthy t.failure_type ≡ true

outcome_of-IsLater :
    (s : TestingRepairState) (u : Turn) (r : ToolExecutionResult) (q : Host × Reply)
    → IsForward (execution_state_from_graph s) q.0.state
    → WhenSome (λ (o : ToolExecutionOutcome). IsLater s o.system.state) (outcome_of s u r q)
outcome_of-IsLater s u r (h, refused status) f = record {
  grows = f.grows;
  counts = f.counts;
  fails = f.fails;
}
outcome_of-IsLater s u r (h, failed) f = tt
outcome_of-IsLater s u r (h, executed) f = record {
  grows = f.grows;
  counts = f.counts;
  fails = f.fails;
}

pub execute-IsLater :
    (w : Surroundings) (u : Turn) (t : Tool) (a : Arguments) (prompts : Bool) (y : System)
    → WhenSome
        (λ (o : ToolExecutionOutcome). IsLater y.state o.system.state)
        (execute w u t a prompts y)
unfolding execute
execute-IsLater w u t a prompts y =
    outcome_of-IsLater y.state u
      (reconcile_execution_result (execution_state_from_graph y.state) t a u.call.answer) _
      (call-IsForward w (call_of u t a prompts)
        (record y.host { state = execution_state_from_graph y.state }))

pub execute_approved-IsLater :
    (w : Surroundings) (u : Turn) (y : System) (ta : Option (Tool × Arguments))
    → WhenSome
        (λ (o : ToolExecutionOutcome). IsLater y.state o.system.state)
        (execute_approved w u y ta)
unfolding execute_approved
execute_approved-IsLater w u y none = tt
execute_approved-IsLater w u y (some (t, a)) = execute-IsLater w u t a false y

pub read_path-IsLater :
    (w : Surroundings) (u : Turn) (y : System) (path : Option String)
    → WhenSome (λ (o : ToolExecutionOutcome). IsLater y.state o.system.state) (read_path w u y path)
read_path-IsLater w u y none = tt
read_path-IsLater w u y (some path) = execute-IsLater w u _ _ true y

-- Fetching knowledge keeps the state.
pub prepare_knowledge_state :
    (w : Surroundings) (u : Turn) (y : System) → (prepare_knowledge w u y).state ≡ y.state
unfolding prepare_knowledge
prepare_knowledge_state w u y = if_kept u.retrieves _ (keep_host_state (execute w u _ _ true y))
  where
    keep_host_state : (o : Option ToolExecutionOutcome) → (keep_host y o).state ≡ y.state
    keep_host_state none = refl
    keep_host_state (some o) = refl

    if_kept : (b : Bool) (z : System) → z.state ≡ y.state → (if b then z else y).state ≡ y.state
    if_kept true z h = h
    if_kept false z h = refl
