-- ===== src/TestingRepair/Termination.antt =====
-- A run of the subgraph ends, whatever the tools, the model and the user answer.
use mcp_software_factory.Prelude.{
  ℕ, zero, suc, ◌≤◌, ◌<◌, ◌≡◌, ◌≢◌, refl, sym, ap, ◌∙◌, Option, none, some, option_eq, string_eq,
  bool_eq, arith,
}
use mcp_software_factory.Host.Call.{Surroundings}
use mcp_software_factory.TestingRepair.State.{TestingRepairState}
use mcp_software_factory.TestingRepair.Nodes.{Turn, System}
use mcp_software_factory.TestingRepair.Routers.{route_testing_entry}
use mcp_software_factory.TestingRepair.Graph.{
  Node, at_qa_knowledge, at_repair_knowledge, at_test_request, at_approval, at_tests,
  at_failing_test, at_related_source, at_prepare_fix, at_fix, at_exit, run_node, after_entry,
  Result, finished, exhausted, advance, arrive, run, run_testing_repair,
}
use mcp_software_factory.TestingRepair.Later.{WhenSome}
use mcp_software_factory.TestingRepair.Ranks.{rank, IsPlaced}
use mcp_software_factory.TestingRepair.NodeSteps.{LeadsOn, node-LeadsOn}

arrive-total :
    (go : Node → System → Result) (fuel : ℕ) (n : Node) (s : TestingRepairState) (y : System)
    (m : Option Node)
    → rank n s ≤ suc fuel
    → WhenSome (λ (k : Node). (rank k y.state < rank n s) × IsPlaced k y.state) m
    → ((k : Node) → IsPlaced k y.state → rank k y.state ≤ fuel → go k y ≢ exhausted)
    → arrive go y m ≢ exhausted
arrive-total go fuel n s y none r f h = λ e. ground (arith, e)
arrive-total go fuel n s y (some k) r (l, p) h = h k p (omega (arith, l, r))

advance-total :
    (go : Node → System → Result) (fuel : ℕ) (n : Node) (s : TestingRepairState) (y : Option System)
    → rank n s ≤ suc fuel
    → LeadsOn n s y
    → ((k : Node) (z : System) → IsPlaced k z.state → rank k z.state ≤ fuel → go k z ≢ exhausted)
    → advance go n y ≢ exhausted
advance-total go fuel n s none r f h = λ e. ground (arith, e)
advance-total go fuel n s (some y) r f h = arrive-total go fuel n s y _ r f (λ k p l. h k y p l)

positive_rank : (n : Node) (s : TestingRepairState) → n ≢ at_exit → 0 < rank n s
positive_rank n s e = ground arith

Node-discrete : Discrete Node
Node-discrete = hlevel

pub run_exit :
    (fuel : ℕ) (w : Surroundings) (turns : ℕ → Turn) (y : System)
    → run fuel w turns at_exit y ≡ finished y
unfolding run
run_exit zero w turns y = refl
run_exit (suc fuel) w turns y = refl

run_at :
    (fuel : ℕ) (w : Surroundings) (turns : ℕ → Turn) (n : Node) (y : System)
    → n ≢ at_exit
    → run (suc fuel) w turns n y ≡ advance (run fuel w turns) n (run_node w (turns fuel) n y)
unfolding run
run_at fuel w turns at_qa_knowledge y e = refl
run_at fuel w turns at_repair_knowledge y e = refl
run_at fuel w turns at_test_request y e = refl
run_at fuel w turns at_approval y e = refl
run_at fuel w turns at_tests y e = refl
run_at fuel w turns at_failing_test y e = refl
run_at fuel w turns at_related_source y e = refl
run_at fuel w turns at_prepare_fix y e = refl
run_at fuel w turns at_fix y e = refl
run_at fuel w turns at_exit y e = absurd (e refl)

finished-total : (y : System) → finished y ≢ exhausted
finished-total y e = ground (arith, e)

run_total :
    (fuel : ℕ) (w : Surroundings) (turns : ℕ → Turn) (n : Node) (y : System)
    → IsPlaced n y.state
    → rank n y.state ≤ fuel
    → run fuel w turns n y ≢ exhausted
run_total zero w turns n y p r = elim (Node-discrete n at_exit) [
  | yes q ↦ λ e.
      finished-total y (sym (ap (λ (m : Node). run 0 w turns m y) q ∙ run_exit 0 w turns y) ∙ e)
  | no q ↦ absurd (omega (arith, positive_rank n y.state q))
]
run_total (suc fuel) w turns n y p r = elim (Node-discrete n at_exit) [
  | yes q ↦ λ e.
      finished-total y
        (sym (ap (λ (m : Node). run (suc fuel) w turns m y) q ∙ run_exit (suc fuel) w turns y) ∙ e)
  | no q ↦ λ e.
      advance-total (run fuel w turns) fuel n y.state (run_node w (turns fuel) n y) r
        (node-LeadsOn w (turns fuel) n y q p) (λ k z placed l. run_total fuel w turns k z placed l)
        (sym (run_at fuel w turns n y q) ∙ e)
]

entry-rank :
    (s : TestingRepairState)
    → (rank (after_entry (route_testing_entry s)) s ≤ 26)
      × IsPlaced (after_entry (route_testing_entry s)) s
unfolding route_testing_entry
entry-rank s = ground arith

-- Whatever the tools, the model and the user answer, and from any state, forked ones too, the subgraph
-- ends within 26 nodes behind its entry: it reaches its exit, or a node or a router raises.
pub run_testing_repair_total :
    (w : Surroundings) (turns : ℕ → Turn) (y : System) → run_testing_repair 26 w turns y ≢ exhausted
unfolding run_testing_repair
run_testing_repair_total w turns y =
    run_total 26 w turns _ y (entry-rank y.state).1 (entry-rank y.state).0
